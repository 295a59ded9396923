-- ===== src/Agent/Create/Again.antt =====
-- An agent that is created again in its data directory.
use agent_trust_fabric.Prelude.{ℕ, ◌≡◌, refl, ap, sym, ◌∙◌, Option, none, some, List, String}
use agent_trust_fabric.Errors.{Result, ok, bind_ok, >>=-ok, ok-injective}
use agent_trust_fabric.Json.{Json, sort_keys}
use agent_trust_fabric.Runtime.{Runtime, IsPemFormat}
use agent_trust_fabric.Signing.{KeyPair}
use agent_trust_fabric.Identity.Keys.{generate, private_pem, from_pem, from_pem-private_pem}
use agent_trust_fabric.Audit.Log.Columns.{Log}
use agent_trust_fabric.Agent.{Agent}
use agent_trust_fabric.Agent.Create.{
  DataDir, load_manifest, store_manifest, store_log, agent_of, load_key, with_key, create,
}

module _ ⦃rt : Runtime⦄ where
  -- What a directory holds once an agent was created in it.
  record IsCreated (name owner kid : String) (a : Agent) (dir : DataDir) : Type 0 where
    pem : List ℕ
    kp : KeyPair
    kept : dir.private_key_pem ≡ some pem
    read : from_pem pem kid ≡ ok kp
    built : agent_of name owner dir kp ≡ ok a

  IsCreated-with :
      (format : IsPemFormat rt) (sk : List ℕ) (name owner kid : String) (dir dir' : DataDir)
      (a : Agent) (o : Option (List ℕ))
      → dir.private_key_pem ≡ o
      → with_key name owner (load_key sk kid dir o) ≡ (ok a, dir')
      → IsCreated name owner kid a dir'
  unfolding load_key
  IsCreated-with format sk name owner kid dir dir' a (some pem) e h =
      bind_ok (from_pem pem kid) (agent_of name owner dir)
        (ap (λ (p : Result Agent × DataDir). p.0) h)
        λ kp kp_ok built.
          let same : dir ≡ dir' = ap (λ (p : Result Agent × DataDir). p.1) h in
          record {
            pem = pem;
            kp = kp;
            kept = ap (λ (d : DataDir). d.private_key_pem) (sym same) ∙ e;
            read = kp_ok;
            built = ap (λ d. agent_of name owner d kp) (sym same) ∙ built;
          }
  IsCreated-with format sk name owner kid dir dir' a none e h =
      let kp = generate sk kid in
      let same = ap (λ (p : Result Agent × DataDir). p.1) h in
      record {
        pem = private_pem kp;
        kp = kp;
        kept = ap (λ (d : DataDir). d.private_key_pem) (sym same);
        read = from_pem-private_pem format sk kid;
        built =
            ap (λ d. agent_of name owner d kp) (sym same)
            ∙ ap (λ (p : Result Agent × DataDir). p.0) h;
      }

  built_again :
      (name owner : String) (kp : KeyPair) (dir : DataDir) (a : Agent) (envelope : Json) (log : Log)
      → agent_of name owner dir kp ≡ ok a
      → agent_of name owner (store_log log (store_manifest envelope dir)) kp
        ≡ ok (record a { audit_log = log; manifest_envelope = some (sort_keys envelope) })
  unfolding agent_of store_manifest
  built_again name owner kp dir a envelope log h =
      bind_ok (load_manifest dir.manifest_json) _ h λ found _ h₁.
        ap
          (λ (b : Agent).
            ok (record b { audit_log = log; manifest_envelope = some (sort_keys envelope) }))
          (ok-injective h₁)

  -- An agent that was created in a data directory, has published a manifest and has written to its
  -- log is created again in it with the same id and key pair, whatever new key the machine would
  -- make, with the log, and with the manifest that it published, its keys sorted; nothing in the
  -- directory changes. Assumed: the PEM format.
  pub create_again :
      (format : IsPemFormat rt) (sk sk' : List ℕ) (name owner kid : String) (dir dir' : DataDir)
      (a : Agent) (envelope : Json) (log : Log)
      → create sk name owner kid dir ≡ (ok a, dir')
      → create sk' name owner kid (store_log log (store_manifest envelope dir')) ≡ (
        ok (record a { audit_log = log; manifest_envelope = some (sort_keys envelope) }),
        store_log log (store_manifest envelope dir'),
      )
  unfolding create load_key store_manifest
  create_again format sk sk' name owner kid dir dir' a envelope log h =
      let c = IsCreated-with format sk name owner kid dir dir' a dir.private_key_pem refl h in
      let dir'' = store_log log (store_manifest envelope dir') in
      ap (λ o. with_key name owner (load_key sk' kid dir'' o)) c.kept
      ∙ ap (λ (r : Result Agent). (r, dir''))
          (>>=-ok (from_pem c.pem kid) (agent_of name owner dir'') c.read
            (built_again name owner c.kp dir' a envelope log c.built))
