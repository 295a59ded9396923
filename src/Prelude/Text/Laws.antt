-- ===== src/Prelude/Text/Laws.antt =====
-- The text functions on a concatenation.
use Prim.Native.String.{String, [] as nil, ◌∷◌ as ◌∷ˢ◌, ◌++◌ as ◌++ˢ◌}
use text.Mathlib.TextLemmas.{cons-append, nil-append}
use agent_trust_fabric.Prelude.Tests.{◌==◌, Bool-cases}
use Prim.Native.Nat.{ℕ}
use Prim.Native.Char.{Char, code}
use mathlib.Core.Bool.{true, false, ◌&&◌}
use mathlib.Core.Path.{◌≡◌, refl, ap, sym, ◌∙◌}
use mathlib.Core.List.{[], ◌∷◌}
use mathlib.Core.Option.{Option, none, some}
use mathlib.Core.Option
use mathlib.Core.Logic.{inl, inr}
use text.Mathlib.TextEquality.{Char-path}
use native.Mathlib.Omega.{arith}
use agent_trust_fabric.Prelude.Text.{cons_first, split, split_once, lacks, is_ascii}

pub is_ascii-append : (s t : String) → is_ascii (s ++ˢ t) ≡ (is_ascii s && is_ascii t)
is_ascii-append nil t = rw nil-append
is_ascii-append (c ∷ˢ s) t = rw (cons-append, is_ascii-append s t) (ground arith)

pub lacks-append : (d : ℕ) (s t : String) → lacks d (s ++ˢ t) ≡ (lacks d s && lacks d t)
lacks-append d nil t = rw nil-append
lacks-append d (c ∷ˢ s) t = rw (cons-append, lacks-append d s t) (ground arith)

-- A text with no separator is one part.
pub split-lacks : (d : ℕ) (s : String) → lacks d s ≡ true → split d s ≡ s ∷ []
unfolding split
split-lacks d nil h = refl
split-lacks d (c ∷ˢ s) h = ground (arith, split-lacks d s)

-- The first part ends at the first separator.
pub split-append :
    (d : Char) (s t : String)
    → lacks (code d) s ≡ true
    → split (code d) (s ++ˢ (d ∷ˢ t)) ≡ s ∷ split (code d) t
unfolding split
split-append d nil t h = rw nil-append (ground arith)
split-append d (c ∷ˢ s) t h = rw cons-append (ground (arith, split-append d s t))

pub split_once-append :
    (d : Char) (s t : String)
    → lacks (code d) s ≡ true
    → split_once (code d) (s ++ˢ (d ∷ˢ t)) ≡ some (s, t)
unfolding split_once
split_once-append d nil t h = rw nil-append (ground arith)
split_once-append d (c ∷ˢ s) t h = rw cons-append (ground (arith, split_once-append d s t))

abbrev two : String → String → Option (String × String)
two a b = some (a, b)

some_pair : {a b c d : String} → two a b ≡ two c d → (a ≡ c) × (b ≡ d)
some_pair h = (cc, cc)

map-eq-some :
    (c : Char) (o : Option (String × String)) {a b : String}
    → Option.map (cons_first c) o ≡ some (a, b)
    → (p : String × String) × (o ≡ some p) × (c ∷ˢ p.0 ≡ a) × (p.1 ≡ b)
map-eq-some c none h = absurd (cc)
map-eq-some c (some p) h = let (first, second) = some_pair h in (p, refl, first, second)

-- The parts of a text around a separator give it back.
pub split_once-eq-some :
    (d : Char) (s : String) {a b : String}
    → split_once (code d) s ≡ some (a, b)
    → s ≡ a ++ˢ (d ∷ˢ b)
unfolding split_once
split_once-eq-some d nil h = absurd (cc)
split_once-eq-some d (c ∷ˢ s) {a} {b} h = elim (Bool-cases (code c == code d)) [
  | inl same ↦
      let (e₁, e₂) = some_pair (now same) in
      (ap (λ (k : Char). k ∷ˢ s) (Char-path c d (equal same)) ∙ ap (λ t. d ∷ˢ t) e₂)
      ∙ sym (nil-append (d ∷ˢ b))
      ∙ ap (λ t. t ++ˢ (d ∷ˢ b)) e₁
  | inr other ↦
      let (p, found, first, second) = map-eq-some c (split_once (code d) s) (later other) in
      ap (λ t. c ∷ˢ t) (split_once-eq-some d s found)
      ∙ sym (cons-append c p.0 (d ∷ˢ p.1))
      ∙ ap (λ t. t ++ˢ (d ∷ˢ p.1)) first
      ∙ ap (λ t. a ++ˢ (d ∷ˢ t)) second
]
  where
    equal : (code c == code d) ≡ true → code c ≡ code d
    equal e = ground arith

    now : (code c == code d) ≡ true → two nil s ≡ two a b
    now e = ground arith

    later :
        (code c == code d) ≡ false → Option.map (cons_first c) (split_once (code d) s) ≡ some (a, b)
    later e = ground arith
