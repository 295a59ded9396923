-- ===== src/Delegation/Scope.antt =====
-- What the loops over the scopes of a token decide.
use agent_trust_fabric.Prelude.{
  ◌≡◌, refl, ◌↔◌, ◌⊎◌, inl, inr, Bool, true, false, not, List, [], ◌∷◌, map, String, All,
  Bool-cases, arith, if◌then◌else◌,
}
use agent_trust_fabric.Errors.{
  ok, bind_ok, raise_if, raise_if-eq-ok, not-eq-false, token_insufficient_scope,
}
use agent_trust_fabric.Json.{Json, str}
use agent_trust_fabric.Manifest.{manifest_has_capability}
use agent_trust_fabric.Manifest.Covers.{Covers, covers, covers_iff, any_covers}
use agent_trust_fabric.Delegation.Verify.{scope_covers, check_declared}

-- On texts the loop tests whether one of them covers what is required.
pub scope_covers-strs :
    (ss : List String) (r : String) → scope_covers (map str ss) r ≡ ok (any_covers ss r)
unfolding scope_covers any_covers covers
scope_covers-strs [] r = refl
scope_covers-strs (s ∷ ss) r = ground (arith, scope_covers-strs ss r)

-- On any values: some text covers it, and all before that one are texts.
abbrev pub ScopeCovers : List Json → String → Type 0
ScopeCovers [] required = ⊥
ScopeCovers (s ∷ ss) required =
    (d : String) × (s ≡ str d) × (Covers d required ⊎ ScopeCovers ss required)

scope_covers-str :
    (d : String) (ss : List Json) (r : String)
    → scope_covers (str d ∷ ss) r ≡ (if covers d r then ok true else scope_covers ss r)
unfolding scope_covers covers
scope_covers-str d ss r = ground arith

rest_covers :
    (d : String) (ss : List Json) (r : String)
    → covers d r ≡ false
    → scope_covers (str d ∷ ss) r ≡ ok true
    → scope_covers ss r ≡ ok true
rest_covers d ss r c h = ground (arith, scope_covers-str d ss r)

pub scope_covers→ScopeCovers :
    (ss : List Json) (r : String) → scope_covers ss r ≡ ok true → ScopeCovers ss r
scope_covers→ScopeCovers [] r h = unfold scope_covers in absurd (cc)
scope_covers→ScopeCovers (str d ∷ ss) r h = elim (Bool-cases (covers d r)) [
  | inl c ↦ (d, refl, inl ((covers_iff d r).0 c))
  | inr c ↦ (d, refl, inr (scope_covers→ScopeCovers ss r (rest_covers d ss r c h)))
]
scope_covers→ScopeCovers (_ ∷ ss) r h = unfold scope_covers in absurd (cc)

same : (b : Bool) → (if b then ok true else ok true) ≡ ok true
same true = refl
same false = refl

pub ScopeCovers→scope_covers :
    (ss : List Json) (r : String) → ScopeCovers ss r → scope_covers ss r ≡ ok true
ScopeCovers→scope_covers [] r h = absurd h
ScopeCovers→scope_covers (s ∷ ss) r (d, e, inl c) =
    rw (e, scope_covers-str d ss r, (covers_iff d r).1 c)
ScopeCovers→scope_covers (s ∷ ss) r (d, e, inr c) =
    rw (e, scope_covers-str d ss r, ScopeCovers→scope_covers ss r c) (same (covers d r))

-- Every scope is declared in the delegator's manifest.
abbrev pub AllDeclared : Json → List Json → Type 0
AllDeclared content = All (λ s. manifest_has_capability content s ≡ ok true)

pub check_declared_iff :
    (content : Json) (ss : List Json) → (check_declared content ss ≡ ok tt) ↔ AllDeclared content ss
unfolding check_declared
check_declared_iff content [] = (λ _. tt, λ _. refl)
check_declared_iff content (s ∷ ss) = (
  λ h. bind_ok (manifest_has_capability content s) _ h λ declared declared_ok h₁.
      bind_ok (raise_if (not declared) token_insufficient_scope) _ h₁ λ _ test_ok h₂. (
        cc (declared_ok, not-eq-false _ (raise_if-eq-ok _ token_insufficient_scope test_ok)),
        (check_declared_iff content ss).0 h₂,
      ),
  λ (first, rest). rw (first, (check_declared_iff content ss).1 rest),
)
