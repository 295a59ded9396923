-- ===== src/Cli/Commands.antt =====
-- The commands `init`, `publish`, `delegate`, `verify`, `audit ls` and `decode` of
-- reference/py/src/atf/cli.py. `serve` of the module's comment is no command of the code. What a
-- command prints is the list of its values: the layout of the printed text is not modelled.
use Prim.Native.String.{◌++◌ as ◌++ˢ◌}
use agent_trust_fabric.Prelude.{
  ℕ, suc, zero, ◌-◌, Option, none, some, List, [], ◌∷◌, map, String, str_eq, if◌then◌else◌, inl,
  length,
}
use agent_trust_fabric.Prelude.Text.{split}
use agent_trust_fabric.Prelude.Int.{ℤ, pos, negsuc}
use agent_trust_fabric.Errors.{
  Result, ok, err, ◌>>=◌, or_raise, value_error, type_error, key_error, index_error,
  json_decode_error,
}
use agent_trust_fabric.Json.{
  Json, nil, cons, null, num, str, arr, obj, get, subscript, or_else, iterate,
}
use agent_trust_fabric.Runtime.{Runtime}
use agent_trust_fabric.Signing.{three, loads_b64}
use agent_trust_fabric.Identity.{public_key_from_jwk, identity_document}
use agent_trust_fabric.Delegation.{Request}
use agent_trust_fabric.Delegation.Claims.{to_dict}
use agent_trust_fabric.Delegation.Verify.{verify_token}
use agent_trust_fabric.Audit.Event.{Stamp}
use agent_trust_fabric.Audit.Log.{all_events}
use agent_trust_fabric.Agent.{Agent, publish_manifest}
use agent_trust_fabric.Agent.Delegation.{issue_delegation}
use agent_trust_fabric.Agent.Create.{DataDir, store_manifest, store_log, create}
use agent_trust_fabric.Cli.{resolve}

-- The data directories by their paths.
abbrev pub Disk : Type 0
Disk = String → DataDir

abbrev pub set_dir : String → DataDir → Disk → Disk
set_dir path dir disk p = if str_eq path p then dir else disk p

-- `Path(data_dir) if data_dir else Path.home() / ".atf" / f"{owner}.{name}"`; a `Path` is true.
unfoldable pub base_path : String → Option String → String → String → String
base_path home (some data_dir) owner name = data_dir
base_path home none owner name = home ++ˢ "/.atf/" ++ˢ owner ++ˢ "." ++ˢ name

-- What a command has printed when it ends, and how it ends.
pub record Shown : Type 0 where
  pub printed : List Json
  pub ended : Result (Unit {0})

abbrev pub finished : Shown
finished = record { printed = []; ended = ok tt }

-- `click.echo` of a value that may raise, and what follows.
abbrev pub echo : Result Json → Shown → Shown
echo (err e) rest = record { printed = []; ended = err e }
echo (ok v) rest = record { printed = v ∷ rest.printed; ended = rest.ended }

-- What a command on an agent does with it and its data directory.
abbrev pub Action : Type 0
Action = Agent → DataDir → Shown × DataDir

abbrev pub acted : Action → Result Agent × DataDir → Shown × DataDir
acted action (err e, dir) = (echo (err e) finished, dir)
acted action (ok a, dir) = action a dir

abbrev pub saved : String → Disk → Shown × DataDir → Shown × Disk
saved path disk (shown, dir) = (shown, set_dir path dir disk)

-- The values that a command on an agent gets from outside: the home directory and a new private
-- key, which is used if the directory has none.
pub record Machine : Type 0 where
  pub home : String
  pub new_key : List ℕ

-- `json.dumps` of what `init`, `publish` and `verify` print is given as its value.
abbrev pub init_action : Action
init_action a dir = (echo (ok (identity_document a.identity)) finished, dir)

abbrev pub first_of : List Json → Result Json
first_of [] = err index_error
first_of (v ∷ vs) = ok v

-- `v[0]`: a `dict` that was read from JSON has no key 0.
unfoldable pub first_item : Json → Result Json
first_item (arr xs) = do items ← iterate (arr xs); first_of items
first_item (str s) = do characters ← iterate (str s); first_of characters
first_item (obj fs) = err key_error
first_item _ = err type_error

-- A value with a format such as `:>10`.
unfoldable pub aligned : Json → Result Json
aligned null = err type_error
aligned (arr xs) = err type_error
aligned (obj fs) = err type_error
aligned v = ok v

-- `len(v)`.
unfoldable pub len : Json → Result Json
len v = do items ← iterate v; ok (num (pos (length items)))

-- The line of `audit ls` about an event, as the list of its columns.
unfoldable pub audit_line : Json → Result Json
unfolding aligned len
audit_line ev = do
  c ← subscript ev "content"
  ts ← aligned (← subscript c "ts")
  type ← aligned (← subscript c "type")
  found ← get c "token_jti"
  jti ← aligned (or_else found null)
  sigs ← len (← subscript ev "signatures")
  ok (arr (cons ts (cons type (cons jti (cons sigs nil)))))

unfoldable pub audit_lines : List Json → Shown
unfolding audit_line
audit_lines [] = finished
audit_lines (ev ∷ evs) = echo (audit_line ev) (audit_lines evs)

abbrev pub drop {ℓ} : {A : Type ℓ} → ℕ → List A → List A
drop zero xs = xs
drop (suc n) [] = []
drop (suc n) (x ∷ xs) = drop n xs

-- `events[-limit:]`: `-0` is 0, and a negative limit drops from the front.
unfoldable pub last_events : ℤ → List Json → List Json
last_events (pos zero) events = events
last_events (pos (suc n)) events = drop (length events - suc n) events
last_events (negsuc n) events = drop (suc n) events

abbrev pub audit_ls_action : ℤ → Action
audit_ls_action limit a dir = (audit_lines (last_events limit (all_events a.audit_log)), dir)

module _ ⦃rt : Runtime⦄ where
  abbrev pub publish_action : List String → Action
  publish_action caps a dir =
      let (envelope, _) = publish_manifest (map inl caps) "0.1.0" "" a in
      (echo (ok envelope) finished, store_manifest envelope dir)

  -- The end of `delegate`: a token that was issued is recorded in the log.
  abbrev pub after_issue : DataDir → Result (String × Agent) → Shown × DataDir
  after_issue dir (err e) = (echo (err e) finished, dir)
  after_issue dir (ok (token, a)) = (echo (ok (str token)) finished, store_log a.audit_log dir)

  abbrev pub delegate_action : Request → Stamp → Action
  delegate_action r stamp a dir =
      after_issue dir (issue_delegation (record r { constraints = none }) stamp a)

  -- A command on an agent: `_resolve`, `Agent.create` and what it does.
  abbrev pub on_agent :
      Machine → Option String → Disk → Action → Result (String × String) → Shown × Disk
  on_agent m data_dir disk action (err e) = (echo (err e) finished, disk)
  on_agent m data_dir disk action (ok (owner, name)) =
      let path = base_path m.home data_dir owner name in
      saved path disk (acted action (create m.new_key name owner "1" (disk path)))

  unfoldable pub init : Machine → String → Option String → Disk → Shown × Disk
  unfolding base_path create resolve identity_document
  init m agent_id data_dir disk = on_agent m data_dir disk init_action (resolve agent_id)

  unfoldable pub publish : Machine → String → List String → Option String → Disk → Shown × Disk
  unfolding base_path create resolve publish_manifest store_manifest
  publish m agent_id caps data_dir disk =
      on_agent m data_dir disk (publish_action caps) (resolve agent_id)

  -- The request holds the options of the command and the readings of the clock and of `uuid`.
  unfoldable pub delegate : Machine → String → Request → Stamp → Option String → Disk → Shown × Disk
  unfolding base_path create resolve issue_delegation
  delegate m agent_id r stamp data_dir disk =
      on_agent m data_dir disk (delegate_action r stamp) (resolve agent_id)

  unfoldable pub audit_ls : Machine → String → ℤ → Option String → Disk → Shown × Disk
  unfolding base_path create resolve audit_lines last_events all_events
  audit_ls m agent_id limit data_dir disk =
      on_agent m data_dir disk (audit_ls_action limit) (resolve agent_id)

  -- `verify`: a file that is no JSON is `none`.
  unfoldable pub verify : String → Option Json → String → String → ℤ → Shown
  unfolding first_item public_key_from_jwk verify_token to_dict
  verify token jwks_file expected_sub scope now =
      echo
        (do
          jwks ← or_raise jwks_file json_decode_error
          jwk ← first_item (← subscript jwks "keys")
          pk ← public_key_from_jwk jwk
          claims ← verify_token token pk expected_sub (some scope) none now
          ok (to_dict claims))
        finished

  abbrev pub shown_parts : Result (String × String × String) → Shown
  shown_parts (err e) = echo (err e) finished
  shown_parts (ok (header_b, payload_b, _)) =
      echo (ok (str "header:")) (
        echo (loads_b64 header_b)
          (echo (ok (str "payload:")) (echo (loads_b64 payload_b) finished)))

  unfoldable pub decode : String → Shown
  unfolding loads_b64 split
  decode token = shown_parts (or_raise (three (split b'.' token)) value_error)
