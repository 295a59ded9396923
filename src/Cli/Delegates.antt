-- ===== src/Cli/Delegates.antt =====
-- The token that `atf delegate` prints passes `atf verify`.
use agent_trust_fabric.Prelude.{
  ℕ, ◌≡◌, refl, ap, sym, ◌∙◌, Option, none, some, List, [], ◌∷◌, String, All, Any, IsByte, length,
}
use agent_trust_fabric.Prelude.Int.{ℤ, pos, ◌<ℤ◌, ◌≤ℤ◌, ◌+ℤ◌}
use agent_trust_fabric.Errors.{Result, ok, err, ◌>>=◌, bind_ok, >>=-ok, ok-injective}
use agent_trust_fabric.Json.{Json, str, subscript}
use agent_trust_fabric.Runtime.{Runtime, IsSignatureScheme}
use agent_trust_fabric.Signing.{KeyPair, header}
use agent_trust_fabric.Signing.RoundTrip.{LoadsBack}
use agent_trust_fabric.Identity.{jwks, public_jwk, public_key_from_jwk}
use agent_trust_fabric.Identity.Keys.{generate, from_pem, from_pem-owned}
use agent_trust_fabric.Identity.RoundTrip.{public_key_from_jwk-public_jwk}
use agent_trust_fabric.Manifest.Covers.{Covers}
use agent_trust_fabric.Delegation.{Request, claims_of}
use agent_trust_fabric.Delegation.Claims.{DelegationClaims, to_dict}
use agent_trust_fabric.Delegation.Verify.{verify_token}
use agent_trust_fabric.Delegation.Issue.{issue_token_iff}
use agent_trust_fabric.Delegation.Issue.Accepted.{transmitted, issued_token_accepted}
use agent_trust_fabric.Audit.Event.{Stamp}
use agent_trust_fabric.Agent.{Agent}
use agent_trust_fabric.Agent.Create.{DataDir, load_manifest, agent_of, load_key, with_key, create}
use agent_trust_fabric.Agent.Delegation.{own_request, issue_delegation}
use agent_trust_fabric.Agent.Delivers.{issue_delegation-eq-ok}
use agent_trust_fabric.Cli.{resolve}
use agent_trust_fabric.Cli.Commands.{
  Shown, echo, finished, Disk, Machine, base_path, first_item, after_issue, acted, delegate_action,
  on_agent, delegate, verify,
}

module _ ⦃rt : Runtime⦄ where
  -- The keys of an agent that was created.
  pub record IsOwner (a : Agent) : Type 0 where
    pub own : a.keypair.public_key ≡ rt.public_key a.keypair.private_key
    pub same : a.identity.keypair ≡ a.keypair

  built-IsOwner :
      (name owner : String) (dir : DataDir) (kp : KeyPair) (a : Agent)
      → kp.public_key ≡ rt.public_key kp.private_key
      → agent_of name owner dir kp ≡ ok a
      → IsOwner a
  unfolding agent_of
  built-IsOwner name owner dir kp a own h =
      bind_ok (load_manifest dir.manifest_json) _ h
        λ found _ h₁. rw (sym (ok-injective h₁)) (record { own = own; same = refl })

  loaded-IsOwner :
      (sk : List ℕ) (name owner kid : String) (dir dir' : DataDir) (a : Agent) (o : Option (List ℕ))
      → with_key name owner (load_key sk kid dir o) ≡ (ok a, dir')
      → IsOwner a
  unfolding load_key generate
  loaded-IsOwner sk name owner kid dir dir' a (some pem) h =
      bind_ok (from_pem pem kid) (agent_of name owner dir)
        (ap (λ (p : Result Agent × DataDir). p.0) h)
        λ kp kp_ok built. built-IsOwner name owner dir kp a (from_pem-owned pem kid kp kp_ok) built
  loaded-IsOwner sk name owner kid dir dir' a none h =
      built-IsOwner name owner _ _ a refl (ap (λ (p : Result Agent × DataDir). p.0) h)

  pub create-IsOwner :
      (sk : List ℕ) (name owner kid : String) (dir dir' : DataDir) (a : Agent)
      → create sk name owner kid dir ≡ (ok a, dir')
      → IsOwner a
  unfolding create
  create-IsOwner sk name owner kid dir dir' a h =
      loaded-IsOwner sk name owner kid dir dir' a dir.private_key_pem h

  -- The request of the command, as the agent passes it on.
  abbrev pub command_request : Request → Agent → Request
  command_request r a = own_request (record r { constraints = none }) a

  -- A command that ends well has printed the token.
  printed_token :
      (dir : DataDir) (o : Result (String × Agent))
      → (after_issue dir o).0.ended ≡ ok tt
      → (token : String) × (a' : Agent) × (o ≡ ok (token, a'))
        × ((after_issue dir o).0.printed ≡ str token ∷ [])
  printed_token dir (err e) h = absurd (cc)
  printed_token dir (ok (token, a')) h = (token, a', refl, refl)

  on_created :
      (m : Machine) (agent_id owner name : String) (r : Request) (stamp : Stamp)
      (data_dir : Option String) (disk : Disk) (a : Agent) (dir : DataDir)
      → resolve agent_id ≡ ok (owner, name)
      → create m.new_key name owner "1" (disk (base_path m.home data_dir owner name)) ≡ (ok a, dir)
      → (delegate m agent_id r stamp data_dir disk).0 ≡ (delegate_action r stamp a dir).0
  unfolding delegate
  on_created m agent_id owner name r stamp data_dir disk a dir named created =
      ap (λ o. (on_agent m data_dir disk (delegate_action r stamp) o).0) named
      ∙ ap (λ o. (acted (delegate_action r stamp) o).0) created

  verify_lem :
      (token sub scope : String) (now : ℤ) (keys jwk : Json) (jwks_doc : Json) (key : List ℕ)
      (claims : DelegationClaims)
      → subscript jwks_doc "keys" ≡ ok keys
      → first_item keys ≡ ok jwk
      → public_key_from_jwk jwk ≡ ok key
      → verify_token token key sub (some scope) none now ≡ ok claims
      → verify token (some jwks_doc) sub scope now ≡ echo (ok (to_dict claims)) finished
  unfolding verify
  verify_lem token sub scope now keys jwk jwks_doc key claims keys_read first read accepted =
      ap (λ o. echo o finished)
        (>>=-ok _ _ keys_read (>>=-ok _ _ first (>>=-ok _ _ read (>>=-ok _ _ accepted refl))))

  -- A delegate command that ends well has printed a token, and the verify command accepts it with
  -- the JWKS of the agent, for the delegatee and every scope that a scope of the command covers,
  -- from the second of its issue until just before it expires, and prints the claims that were
  -- issued. Assumed: the signature scheme, that the public key has 32 bytes, and that the parser
  -- reads back the header and the claims.
  pub verify-delegate :
      (scheme : IsSignatureScheme rt) (m : Machine) (agent_id owner name scope : String)
      (r : Request) (stamp : Stamp) (data_dir : Option String) (disk : Disk) (a : Agent)
      (dir : DataDir) (now : ℤ)
      → resolve agent_id ≡ ok (owner, name)
      → create m.new_key name owner "1" (disk (base_path m.home data_dir owner name)) ≡ (ok a, dir)
      → All IsByte a.keypair.public_key
      → length a.keypair.public_key ≡ 32
      → LoadsBack (header a.keypair)
      → LoadsBack (to_dict (claims_of (command_request r a)))
      → (delegate m agent_id r stamp data_dir disk).0.ended ≡ ok tt
      → Any (λ s. Covers s scope) r.scope
      → pos r.now ≤ℤ now
      → now <ℤ pos r.now +ℤ r.expires_in
      → (token : String) × ((delegate m agent_id r stamp data_dir disk).0.printed ≡ str token ∷ [])
        × (verify token (some (jwks a.identity)) r.delegatee_id scope now
            ≡ echo (ok (to_dict (transmitted (claims_of (command_request r a))))) finished)
  unfolding jwks first_item
  verify-delegate scheme m agent_id owner name scope r stamp data_dir disk a dir now named created
        bytes size lh lp ended covered started live =
      let shown = on_created m agent_id owner name r stamp data_dir disk a dir named created in
      let q = record r { constraints = none } in
      let (token, a', issued_ok, printed) =
        printed_token dir (issue_delegation q stamp a)
          (ap (λ (s : Shown). s.ended) (sym shown) ∙ ended) in
      let made = issue_delegation-eq-ok q stamp a token a' issued_ok in
      let o = create-IsOwner m.new_key name owner "1" _ dir a created in
      (
        token,
        ap (λ (s : Shown). s.printed) shown ∙ printed,
        verify_lem token r.delegatee_id scope now _ (public_jwk a.identity.keypair)
            (jwks a.identity) a.keypair.public_key (transmitted (claims_of (command_request r a)))
            refl refl
            (ap (λ k. public_key_from_jwk (public_jwk k)) o.same
              ∙ public_key_from_jwk-public_jwk a.keypair bytes size)
            (ap
                (λ (t : Result String). t >>= λ s.
                  verify_token s a.keypair.public_key r.delegatee_id (some scope) none now)
                (sym made)
              ∙ issued_token_accepted scheme a.keypair o.own (command_request r a) none scope now
                  ((issue_token_iff (command_request r a) a.keypair).0 (token, made)) lh lp covered
                  tt started live),
      )
