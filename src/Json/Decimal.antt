-- ===== src/Json/Decimal.antt =====
-- The decimal digits that `json.dumps` writes of an integer: the fuel of `decimal_onto` is enough.
use agent_trust_fabric.Prelude.{
  ℕ, zero, suc, ◌+◌, ◌-◌, ◌*◌, ◌/◌, ◌%◌, ◌<◌, ◌≡◌, refl, ap, ◌∙◌, Bool, true, false, List, [], ◌∷◌,
  arith, ltb, if◌then◌else◌,
}
use agent_trust_fabric.Prelude.Int.{pos}
use agent_trust_fabric.Json.Text.{decimal_onto, decimal}

-- A sequence of digits, read after a number.
abbrev pub value : ℕ → List ℕ → ℕ
value a [] = a
value a (d ∷ ds) = value (a * 10 + (d - b'0')) ds

value-choice :
    (b : Bool) (xs ys : List ℕ) (v : ℕ)
    → (b ≡ true → value 0 xs ≡ v)
    → (b ≡ false → value 0 ys ≡ v)
    → value 0 (if b then xs else ys) ≡ v
value-choice true xs ys v p q = p refl
value-choice false xs ys v p q = q refl

value-decimal_onto :
    (f n : ℕ) (rest : List ℕ) → n < f → value 0 (decimal_onto f n rest) ≡ value n rest
unfolding decimal_onto
value-decimal_onto zero n rest h = absurd (omega arith)
value-decimal_onto (suc f) n rest h =
    let last = (b'0' + n % 10) ∷ rest in
    value-choice (ltb n 10) last (decimal_onto f (n / 10) last) (value n rest)
      (λ small. ap (λ m. value m rest) (one_digit n small))
      (λ large.
        value-decimal_onto f (n / 10) last (shorter f n h large)
        ∙ ap (λ m. value m rest) (rejoined n))
  where
    one_digit : (n : ℕ) → ltb n 10 ≡ true → 0 * 10 + ((48 + n % 10) - 48) ≡ n
    one_digit n small = ground arith

    shorter : (f n : ℕ) → n < suc f → ltb n 10 ≡ false → n / 10 < f
    shorter f n h large = ground arith

    rejoined : (n : ℕ) → (n / 10) * 10 + ((48 + n % 10) - 48) ≡ n
    rejoined n = omega arith

-- The digits that canonical_json writes of a natural number are read back as the number: the fuel
-- of the loop over its digits is enough.
pub value-decimal : (n : ℕ) → value 0 (decimal (pos n)) ≡ n
unfolding decimal
value-decimal n = value-decimal_onto (suc n) n [] (omega arith)
