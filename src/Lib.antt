-- ===== src/Lib.antt =====
-- The reference implementation of the agent trust fabric, reference/py/src/atf: agents that delegate
-- capabilities to each other by signed tokens, answer with signed outcomes and keep cross-signed
-- audit logs.
--
-- The parts, each a module, in the order in which they use each other:
--   Errors      errors.py: the exception classes, and results that are a value or an exception.
--   Json        canonical_json of _signing.py, over JSON values with the subscripts, comparisons and
--               conversions of Python that the code applies to them. `sort_keys` is what `json.loads`
--               gives back for a value that was written with sorted keys.
--   Base64      _b64.py, with the lenient decoder of Python's library.
--   Runtime     what comes from outside the repository, as an interface: Ed25519 of the package
--               `cryptography` and its PEM files, SHA-256, `json.loads`, `int(str)`, `str` and `dict` of containers.
--   Signing     sign_compact, verify_compact, sign_envelope, verify_envelope of _signing.py.
--   Identity    identity.py: agent URIs, JWKs, the identity document, key pairs and their PEM files.
--   Manifest    manifest.py: signed capability manifests.
--   Delegation  delegation.py: issue_token and verify_token.
--   Outcome     outcome.py: signed outcomes.
--   Audit       audit.py: the log of events, self-signed or cross-signed.
--   Agent       agent.py: an agent's keys, log, manifest and peers, and what it does as a delegator and
--               as a delegatee, the replay check included.
--               Agent.create works on a data directory, a record of its files.
--   Wire        wire.py. Server has the endpoints as functions of a request and the agent, each served at
--               once. Loop is the event loop: a request to invoke is cut in two at `await result`, after
--               delegation.started is recorded, and any requests are served in between; a handler that is
--               no coroutine ends in the next turn. Client has ATFClient; what the HTTP package gives back
--               to a request is an argument. Completes joins client and server, in the steps of
--               reference/py/examples/coding_to_image/run.py.
--   Cli         cli.py: `_resolve`, and each command as a function of its arguments and the disk.
-- Audit.Ledger is the specification that the log refines: a map from event ids to records.
--
-- State and exceptions. The audit log is the list of its rows in the order of insertion; an operation
-- takes the log and returns the new one or raises, and an SQL statement that fails changes nothing.
-- Rows are read in the order of (ts, event_id), as the SQL says. An integer is bound to a column if it
-- has 64 bits, a text, a number or a truth value if the column is a text; `NULL` equals nothing. A
-- record is kept as the value that is read back from its text. The clock and the uuid source are
-- arguments. The loops are structural recursion on lists and texts. Only `decimal_onto` runs on fuel,
-- one more than the number, which is enough; and the climb from an exception class to its bases takes
-- at most two steps, the depth of the hierarchy below ATFError.
--
-- Assumptions, each a named hypothesis of the theorems that need it: `IsSignatureScheme`, that what a
-- key signs its public key verifies; `IsPemFormat`, that a private key which was written as PEM is read
-- back; `LoadsBack v`, that the parser reads back the text of `v`; and, where both parties take part,
-- that the HTTP package delivers a request and its response.
--
-- Values. A text is a sequence of Unicode scalar values, and the values that are signed or stored are
-- JSON. On these `canonical_json` is total. The code raises where a text has a lone surrogate, which
-- `json.loads` gives for an escape like \ud800, or where a value is not JSON; of this the model has only
-- the end of a handler that cannot be encoded, after which the request is answered with 500.
--
-- Not modelled: other texts with lone surrogates and values that are not JSON, on which canonical_json
-- raises; the messages of exceptions; floats; the Ed25519 and PEM code of the package
-- `cryptography`; the database file and connection; the timeout and the closing of the HTTP client;
-- the layout of what the command line prints, and the parsing of its options; logging; the demo of
-- reference/py/examples, which prints and uses a constraint with a fraction; the names that
-- __init__.py passes on.
pub mod Prelude
pub mod Errors
pub mod Json
pub mod Base64
pub mod Runtime
pub mod Signing
pub mod Identity
pub mod Manifest
pub mod Delegation
pub mod Outcome
pub mod Audit
pub mod Agent
pub mod Wire
pub mod Cli
pub mod Tests
