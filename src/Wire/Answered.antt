-- ===== src/Wire/Answered.antt =====
-- What a request that is answered with 200 has done.
use agent_trust_fabric.Prelude.{
  ◌≡◌, refl, ap, sym, ◌∙◌, Bool, true, false, some, String, if◌then◌else◌, arith,
}
use agent_trust_fabric.Prelude.Int.{ℤ}
use agent_trust_fabric.Errors.{Exc, Result, ok, err, bind_ok, ok-injective}
use agent_trust_fabric.Json.{Json, str, null, subscript, iterate, get, or_else}
use agent_trust_fabric.Runtime.{Runtime}
use agent_trust_fabric.Delegation.Claims.{DelegationClaims, build_claims, py_int, py_dict, py_str}
use agent_trust_fabric.Delegation.Sound.{verify_token_iff}
use agent_trust_fabric.Audit.Event.{Stamp}
use agent_trust_fabric.Audit.Log.Columns.{Log}
use agent_trust_fabric.Audit.Log.{append_self}
use agent_trust_fabric.Audit.Log.Appends.{Steps, stop, step}
use agent_trust_fabric.Agent.{Agent, PeerRecord, own_id, peer}
use agent_trust_fabric.Agent.Delegation.{
  Incoming, after_attempt, refuse_replay, read_payload, read_token, verify_incoming, verify_read,
  unless_null,
}
use agent_trust_fabric.Agent.Delivers.{read_payload-IsToken}
use agent_trust_fabric.Wire.{HandlerSpec, Clock, status_of}
use agent_trust_fabric.Wire.Server.{started_event, execute, respond, run_started, serve, with_log}
use agent_trust_fabric.Wire.Safe.{executed_step}

status_of_lem : (e : Exc) → ¬ (status_of e ≡ 200)
unfolding status_of
status_of_lem e h = absurd (grind arith)

module _ ⦃rt : Runtime⦄ where
  -- What an answered request has done: the start is recorded, and calls of the log followed.
  pub record IsAnswered (clock : Clock) (claims : DelegationClaims) (a : Agent) (final : Log)
      : Type 0 where
    pub log : Log
    pub recorded :
        append_self (started_event clock.started claims a) a.keypair (own_id a) a.audit_log ≡ ok log
    pub calls : Steps log final

  pub IsAnswered-moved :
      {clock : Clock} {claims : DelegationClaims} {b a : Agent} {final : Log}
      → b ≡ a
      → IsAnswered clock claims b final
      → IsAnswered clock claims a final
  IsAnswered-moved e h = rw (sym e) h

  respond_200 :
      (clock : Clock) (spec : HandlerSpec) (body : Json) (claims : DelegationClaims) (a : Agent)
      (r : Result (Json × Log))
      → execute clock spec body claims a ≡ r
      → (respond a r).0.status ≡ 200
      → Steps a.audit_log (respond a r).1.audit_log
  respond_200 clock spec body claims a (err e) h s = absurd (omega arith)
  respond_200 clock spec body claims a (ok (reply, log)) h s =
      step (executed_step clock spec body claims a h) stop

  run_200 :
      (clock : Clock) (spec : HandlerSpec) (body : Json) (claims : DelegationClaims) (a : Agent)
      (r : Result Log)
      → append_self (started_event clock.started claims a) a.keypair (own_id a) a.audit_log ≡ r
      → (run_started clock spec body claims a r).0.status ≡ 200
      → IsAnswered clock claims a (run_started clock spec body claims a r).1.audit_log
  run_200 clock spec body claims a (err e) h s = absurd (omega arith)
  run_200 clock spec body claims a (ok log) h s = record {
    log = log;
    recorded = h;
    calls = respond_200 clock spec body claims (with_log a log) _ refl s;
  }

  pub serve_200 :
      (clock : Clock) (spec : HandlerSpec) (body : Json) (p : Result DelegationClaims × Agent)
      → (serve clock spec body p).0.status ≡ 200
      → (claims : DelegationClaims) × (p.0 ≡ ok claims)
        × IsAnswered clock claims p.1 (serve clock spec body p).1.audit_log
  serve_200 clock spec body (err e, a) s = absurd (status_of_lem e s)
  serve_200 clock spec body (ok claims, a) s =
      (claims, refl, run_200 clock spec body claims a _ refl s)

  -- What an accepted token was read as.
  pub record IsAccepted (now : ℤ) (required token : String) (a b : Agent)
      (claims : DelegationClaims) : Type 0 where
    pub arrived : Incoming
    pub read : read_token token a ≡ ok arrived
    pub verified : verify_incoming now required token arrived a ≡ ok claims
    pub same : b ≡ a

  attempt_fails :
      (a : Agent) (r : Result Log) {claims : DelegationClaims}
      → ¬ ((after_attempt a r).0 ≡ ok claims)
  attempt_fails a (err e) h = absurd (cc)
  attempt_fails a (ok log) h = absurd (cc)

  pub verify_read-ok :
      (stamp : Stamp) (now : ℤ) (required token : String) (a : Agent) (r : Result Incoming)
      {claims : DelegationClaims}
      → read_token token a ≡ r
      → (verify_read stamp now required token a r).0 ≡ ok claims
      → IsAccepted now required token a (verify_read stamp now required token a r).1 claims
  unfolding refuse_replay
  verify_read-ok stamp now required token a (err e) h s = absurd (cc)
  verify_read-ok stamp now required token a (ok t) {claims} h s = chosen t.used refl s
    where
      chosen :
          (b : Bool)
          → t.used ≡ b
          → (if b then refuse_replay stamp t a else (verify_incoming now required token t a, a)).0
            ≡ ok claims
          → IsAccepted now required token a
              (if b then refuse_replay stamp t a else (verify_incoming now required token t a, a)).1
              claims
      chosen true e k = absurd (attempt_fails a _ k)
      chosen false e k = record { arrived = t; read = h; verified = k; same = refl }

  -- The issuer of a token that was read is a known peer.
  pub read_token-known :
      (token : String) (a : Agent) (t : Incoming) (payload : Json)
      → read_payload token ≡ ok payload
      → read_token token a ≡ ok t
      → (iss : Json) × (p : PeerRecord) × (subscript payload "iss" ≡ ok iss) × (peer iss a ≡ ok p)
  unfolding read_token
  read_token-known token a t payload parsed h = bind_ok (read_payload token) _ h λ v v_ok h₁.
      bind_ok (subscript v "iss") _ h₁ λ iss iss_ok h₂. bind_ok (peer iss a) _ h₂ λ p p_ok _.
        (iss, p, ap (λ w. subscript w "iss") (ok-injective (sym parsed ∙ v_ok)) ∙ iss_ok, p_ok)

  claims_jti :
      (payload : Json) (claims : DelegationClaims) (j : String)
      → build_claims payload ≡ ok claims
      → subscript payload "jti" ≡ ok (str j)
      → claims.jti ≡ j
  unfolding build_claims py_str
  claims_jti payload claims j h named = bind_ok (subscript payload "iss") _ h λ iss _ h₁.
      bind_ok (subscript payload "sub") _ h₁ λ sub _ h₂.
        bind_ok (subscript payload "scope") _ h₂ λ v₁ _ h₃. bind_ok (iterate v₁) _ h₃ λ scope _ h₄.
          bind_ok (subscript payload "exp") _ h₄ λ v₂ _ h₅. bind_ok (py_int v₂) _ h₅ λ exp _ h₆.
            bind_ok (subscript payload "nbf") _ h₆ λ v₃ _ h₇. bind_ok (py_int v₃) _ h₇ λ nbf _ h₈.
              bind_ok (subscript payload "iat") _ h₈ λ v₄ _ h₉.
                bind_ok (py_int v₄) _ h₉ λ iat _ h₁₀.
                  bind_ok (subscript payload "jti") _ h₁₀ λ v jti_ok h₁₁.
                    bind_ok (subscript payload "purpose") _ h₁₁ λ purpose _ h₁₂.
                      bind_ok (get payload "constraints") _ h₁₂ λ found _ h₁₃.
                        bind_ok (py_dict (or_else found null)) _ h₁₃ λ constraints _ h₁₄.
                          bind_ok (get payload "audit_uri") _ h₁₄ λ audit _ h₁₅.
                            ap jti_of (sym (ok-injective h₁₅))
                            ∙ ap py_str (ok-injective (sym jti_ok ∙ named))
    where
      jti_of : DelegationClaims → String
      jti_of c = c.jti

  pub token_jti :
      (now : ℤ) (required token j : String) (a : Agent) (t : Incoming) (payload : Json)
      (claims : DelegationClaims)
      → verify_incoming now required token t a ≡ ok claims
      → read_payload token ≡ ok payload
      → subscript payload "jti" ≡ ok (str j)
      → claims.jti ≡ j
  token_jti now required token j a t payload claims h parsed named =
      let p = t.peer_record in
      let (head, sent, signed, d) =
        (verify_token_iff token p.public_key (own_id a) (some required)
            (unless_null p.manifest_content) now claims).0
          h in
      let same =
        ok-injective (sym parsed ∙ read_payload-IsToken token p.public_key head sent signed) in
      claims_jti sent claims j d.claims_read (ap (λ v. subscript v "jti") (sym same) ∙ named)
