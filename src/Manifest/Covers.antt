-- ===== src/Manifest/Covers.antt =====
-- What it means that a capability covers another, which manifests (`manifest_has_capability`) and
-- token scopes (`_scope_covers` of reference/py/src/atf/delegation.py) both decide.
use Prim.Native.String.{◌++◌ as ◌++ˢ◌}
use text.Mathlib.TextLemmas.{append_assoc}
use text.Mathlib.TextEquality.{starts_with_iff}
use agent_trust_fabric.Prelude.{
  ◌≡◌, refl, sym, ◌∙◌, ap, ◌↔◌, ◌⊎◌, inl, inr, Bool, true, false, ◌||◌, List, [], ◌∷◌, map, String,
  starts_with, str_eq, eq_iff, Any, All, arith,
}
use agent_trust_fabric.Errors.{ok}
use agent_trust_fabric.Json.{str, py_eq, to_list-items}
use agent_trust_fabric.Manifest.{
  Capability, Manifest, capability_dict, manifest_content, declares, manifest_has_capability,
}

-- The same capability, or one below it: `code.write` covers `code.write.python`.
abbrev pub Covers : String → String → Type 0
Covers declared required =
    (required ≡ declared) ⊎ ((rest : String) × (required ≡ declared ++ˢ "." ++ˢ rest))

pub Covers-refl : (s : String) → Covers s s
Covers-refl s = inl refl

regroup :
    (r u v : String) → (r ++ˢ ("." ++ˢ u)) ++ˢ ("." ++ˢ v) ≡ r ++ˢ ("." ++ˢ (u ++ˢ ("." ++ˢ v)))
regroup r u v =
    append_assoc r ("." ++ˢ u) ("." ++ˢ v)
    ∙ ap (λ (x : String). r ++ˢ x) (append_assoc "." u ("." ++ˢ v))

-- What is covered by something covered is covered.
pub Covers-trans : (r s t : String) → Covers r s → Covers s t → Covers r t
Covers-trans r s t (inl p) q = rw p at q
Covers-trans r s t (inr (u, p)) (inl q) = inr (u, q ∙ p)
Covers-trans r s t (inr (u, p)) (inr (v, q)) =
    inr (u ++ˢ "." ++ˢ v, q ∙ ap (λ (x : String). x ++ˢ ("." ++ˢ v)) p ∙ regroup r u v)

unfoldable pub covers : String → String → Bool
covers declared required = str_eq declared required || starts_with required (declared ++ˢ ".")

below_iff :
    (d r : String)
    → (starts_with r (d ++ˢ ".") ≡ true) ↔ ((rest : String) × (r ≡ d ++ˢ ("." ++ˢ rest)))
below_iff d r = (
  λ h. let (u, e) = (starts_with_iff r (d ++ˢ ".")).0 h in (u, sym e ∙ append_assoc d "." u),
  λ (u, e). (starts_with_iff r (d ++ˢ ".")).1 (u, append_assoc d "." u ∙ sym e),
)

or_cases : (a b : Bool) → (a || b) ≡ true → (a ≡ true) ⊎ (b ≡ true)
or_cases true b h = inl refl
or_cases false b h = inr h

pub or_true_right : (a : Bool) → (a || true) ≡ true
or_true_right true = refl
or_true_right false = refl

covers→Covers : (d r : String) → covers d r ≡ true → Covers d r
unfolding covers
covers→Covers d r h = elim (or_cases (str_eq d r) _ h) [
  | inl same ↦ inl (sym ((eq_iff d r).0 same))
  | inr below ↦ inr ((below_iff d r).0 below)
]

Covers→covers : (d r : String) → Covers d r → covers d r ≡ true
unfolding covers
Covers→covers d r (inl e) = rw ((eq_iff d r).1 (sym e))
Covers→covers d r (inr below) = rw ((below_iff d r).1 below) (or_true_right (str_eq d r))

pub covers_iff : (d r : String) → (covers d r ≡ true) ↔ Covers d r
unfolding covers
covers_iff d r = (covers→Covers d r, Covers→covers d r)

unfoldable pub any_covers : List String → String → Bool
any_covers [] r = false
any_covers (d ∷ ds) r = covers d r || any_covers ds r

pub any_covers_iff :
    (ds : List String) (r : String) → (any_covers ds r ≡ true) ↔ Any (λ d. Covers d r) ds
unfolding any_covers
any_covers_iff [] r = (λ h. absurd (cc), λ h. absurd h)
any_covers_iff (d ∷ ds) r = (
  λ h. elim (or_cases (covers d r) _ h) [
    | inl here ↦ inl ((covers_iff d r).0 here)
    | inr there ↦ inr ((any_covers_iff ds r).0 there)
  ],
  elim [
    | inl here ↦ rw ((covers_iff d r).1 here)
    | inr there ↦ rw ((any_covers_iff ds r).1 there) (or_true_right (covers d r))
  ],
)

abbrev pub names : List Capability → List String
names [] = []
names (c ∷ cs) = c.name ∷ names cs

declares-names :
    (cs : List Capability) (n : String)
    → declares (map capability_dict cs) (str n) ≡ ok (any_covers (names cs) n)
unfolding declares capability_dict any_covers covers py_eq
declares-names [] n = refl
declares-names (c ∷ cs) n = ground (arith, declares-names cs n)

Any-names :
    (n : String) (cs : List Capability)
    → Any (λ d. Covers d n) (names cs) ↔ Any (λ c. Covers c.name n) cs
Any-names n [] = (λ h. h, λ h. h)
Any-names n (c ∷ cs) = (
  elim [ inl here ↦ inl here | inr there ↦ inr ((Any-names n cs).0 there) ],
  elim [ inl here ↦ inl here | inr there ↦ inr ((Any-names n cs).1 there) ],
)

-- On the content of a manifest the test computes the covering of its capabilities' names.
pub manifest_has_capability-content :
    (m : Manifest) (n : String)
    → manifest_has_capability (manifest_content m) (str n)
      ≡ ok (any_covers (names m.capabilities) n)
unfolding manifest_has_capability manifest_content
manifest_has_capability-content m n =
    rw (to_list-items (map capability_dict m.capabilities), declares-names m.capabilities n)

-- manifest_has_capability answers true on a manifest's content exactly when a declared capability
-- is the name itself or a prefix of it that ends before a dot.
pub manifest_has_capability_iff :
    (m : Manifest) (n : String)
    → (manifest_has_capability (manifest_content m) (str n) ≡ ok true)
      ↔ Any (λ c. Covers c.name n) m.capabilities
manifest_has_capability_iff m n = (
  λ h.
      (Any-names n m.capabilities).0
        ((any_covers_iff (names m.capabilities) n).0 (cc (h, manifest_has_capability-content m n))),
  λ h.
      manifest_has_capability-content m n
      ∙ ap ok ((any_covers_iff (names m.capabilities) n).1 ((Any-names n m.capabilities).1 h)),
)

-- The manifest covers every one of the scopes.
abbrev pub Delegable : Manifest → List String → Type 0
Delegable m = All (λ s. Any (λ c. Covers c.name s) m.capabilities)
