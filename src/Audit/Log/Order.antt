-- ===== src/Audit/Log/Order.antt =====
-- The order of rows by `(ts, event_id)`, and the newest row of a log that has grown.
use Prim.Native.Nat.{Ordering, compare as compare_ℕ}
use Prim.Native.String.compare
use Prim.Native.String.{compare, then as next, [] as nil_text, ◌∷◌ as ◌∷ˢ◌}
use agent_trust_fabric.Prelude.{
  ◌≡◌, refl, ap, ◌∙◌, Bool, true, false, Option, none, some, [], ◌∷◌, ◌++◌, String, code, arith, ℕ,
  if◌then◌else◌,
}
use agent_trust_fabric.Audit.Log.Columns.{Row, Log, before, id_before, newest, newer}

abbrev is_lt : Ordering → Bool
is_lt o = elim o [ Ordering.lt ↦ true | _ ↦ false ]

next_trans :
    (m n k : ℕ) (o p q : Ordering)
    → (is_lt o ≡ true → is_lt p ≡ true → is_lt q ≡ true)
    → is_lt (next (compare_ℕ m n) o) ≡ true
    → is_lt (next (compare_ℕ n k) p) ≡ true
    → is_lt (next (compare_ℕ m k) q) ≡ true
next_trans m n k o p q ih h g = ground arith

text_trans :
    (s t u : String)
    → is_lt (compare s t) ≡ true
    → is_lt (compare t u) ≡ true
    → is_lt (compare s u) ≡ true
text_trans nil_text nil_text u h g = absurd (cc)
text_trans nil_text (d ∷ˢ t) nil_text h g = absurd (cc (rw (compare.cons-nil d t) at g))
text_trans nil_text (d ∷ˢ t) (e ∷ˢ u) h g = rw (compare.nil-cons e u)
text_trans (c ∷ˢ s) nil_text u h g = absurd (cc (rw (compare.cons-nil c s) at h))
text_trans (c ∷ˢ s) (d ∷ˢ t) nil_text h g = absurd (cc (rw (compare.cons-nil d t) at g))
text_trans (c ∷ˢ s) (d ∷ˢ t) (e ∷ˢ u) h g = rw (compare.cons-cons c e s u) (
    next_trans (code c) (code d) (code e) (compare s t) (compare t u) (compare s u)
      (text_trans s t u) (rw (compare.cons-cons c d s t) at h)
      (rw (compare.cons-cons d e t u) at g))

next_split :
    (m n k : ℕ) (o p q : Ordering)
    → (is_lt q ≡ true → is_lt o ≡ false → is_lt p ≡ true)
    → is_lt (next (compare_ℕ m k) q) ≡ true
    → is_lt (next (compare_ℕ m n) o) ≡ false
    → is_lt (next (compare_ℕ n k) p) ≡ true
next_split m n k o p q ih h g = ground arith

text_split :
    (s t u : String)
    → is_lt (compare s u) ≡ true
    → is_lt (compare s t) ≡ false
    → is_lt (compare t u) ≡ true
text_split nil_text nil_text u h g = h
text_split nil_text (d ∷ˢ t) u h g = absurd (cc (rw (compare.nil-cons d t) at g))
text_split (c ∷ˢ s) t nil_text h g = absurd (cc (rw (compare.cons-nil c s) at h))
text_split (c ∷ˢ s) nil_text (e ∷ˢ u) h g = rw (compare.nil-cons e u)
text_split (c ∷ˢ s) (d ∷ˢ t) (e ∷ˢ u) h g = rw (compare.cons-cons d e t u) (
    next_split (code c) (code d) (code e) (compare s t) (compare t u) (compare s u)
      (text_split s t u) (rw (compare.cons-cons c e s u) at h)
      (rw (compare.cons-cons c d s t) at g))

id_before_trans :
    (s t u : Option String) → id_before s t ≡ true → id_before t u ≡ true → id_before s u ≡ true
id_before_trans (some s) (some t) (some u) h g = text_trans s t u h g
id_before_trans none (some t) (some u) h g = refl
id_before_trans s t none h g = absurd (cc)
id_before_trans s none (some u) h g = absurd (cc)

id_before_split :
    (s t u : Option String) → id_before s u ≡ true → id_before s t ≡ false → id_before t u ≡ true
id_before_split (some s) (some t) (some u) h g = text_split s t u h g
id_before_split s none (some u) h g = refl
id_before_split none (some t) u h g = absurd (cc)
id_before_split s t none h g = absurd (cc)

pub before_trans : (r s t : Row) → before r s ≡ true → before s t ≡ true → before r t ≡ true
before_trans r s t h g = ground (arith, id_before_trans r.event_id s.event_id t.event_id)

pub before_split : (r s t : Row) → before r t ≡ true → before r s ≡ false → before s t ≡ true
before_split r s t h g = ground (arith, id_before_split r.event_id s.event_id t.event_id)

next_irrefl : (m : ℕ) (o : Ordering) → is_lt o ≡ false → is_lt (next (compare_ℕ m m) o) ≡ false
next_irrefl m o h = ground arith

text_irrefl : (s : String) → is_lt (compare s s) ≡ false
text_irrefl nil_text = refl
text_irrefl (c ∷ˢ s) =
    rw (compare.cons-cons c c s s) (next_irrefl (code c) (compare s s) (text_irrefl s))

id_before_irrefl : (s : Option String) → id_before s s ≡ false
id_before_irrefl none = refl
id_before_irrefl (some s) = text_irrefl s

pub before_irrefl : (r : Row) → before r r ≡ false
before_irrefl r = ground (arith, id_before_irrefl r.event_id)

newer_if :
    (r m row : Row)
    → newer r (some (if before m row then row else m))
      ≡ (let n = newer r (some m) in if before n row then row else n)
newer_if r m row = ground (arith, before_trans r m row, before_split r m row)

abbrev or_newer : Row → Option Row → Option Row
or_newer row none = none
or_newer row (some n) = some (if before n row then row else n)

-- A row at the end is the newest exactly if the one that was newest is before it.
pub newest-append :
    (log : Log) (n row : Row)
    → newest log ≡ some n
    → newest (log ++ row ∷ []) ≡ some (if before n row then row else n)
unfolding newest
newest-append [] n row h = absurd (cc)
newest-append (r ∷ []) n row h = ap (or_newer row) h
newest-append (r ∷ s ∷ rs) n row h =
    let m = newer s (newest rs) in
    ap (λ (o : Option Row). some (newer r o)) (newest-append (s ∷ rs) m row refl)
    ∙ ap some (newer_if r m row)
    ∙ ap (or_newer row) h
