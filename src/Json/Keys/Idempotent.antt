-- ===== src/Json/Keys/Idempotent.antt =====
-- Sorting the keys twice is sorting them once.
use Prim.Native.Nat.{Ordering, compare as compare_ℕ}
use Prim.Native.String.compare
use Prim.Native.String.{compare, then, [] as nil_text, ◌∷◌ as ◌∷ˢ◌}
use agent_trust_fabric.Prelude.{◌≡◌, refl, ap, true, false, String, code, arith, ℕ}
use agent_trust_fabric.Json.Value.{
  Json, Items, Fields, null, bool, num, str, arr, obj, nil, cons, end, field,
}
use agent_trust_fabric.Json.Keys.{le_text, insert, sort_keys, sort_items, sort_fields}

abbrev flip : Ordering → Ordering
flip Ordering.lt = Ordering.gt
flip Ordering.eq = Ordering.eq
flip Ordering.gt = Ordering.lt

compare_ℕ-swap : (m n : ℕ) → compare_ℕ n m ≡ flip (compare_ℕ m n)
compare_ℕ-swap m n = ground arith

then-flip : (o p : Ordering) → then (flip o) (flip p) ≡ flip (then o p)
then-flip Ordering.lt p = refl
then-flip Ordering.eq p = refl
then-flip Ordering.gt p = refl

pub compare-swap : (s t : String) → compare t s ≡ flip (compare s t)
compare-swap nil_text nil_text = refl
compare-swap nil_text (d ∷ˢ t) = rw (compare.cons-nil d t, compare.nil-cons d t)
compare-swap (c ∷ˢ s) nil_text = rw (compare.cons-nil c s, compare.nil-cons c s)
compare-swap (c ∷ˢ s) (d ∷ˢ t) =
    rw
      (
        compare.cons-cons d c t s,
        compare.cons-cons c d s t,
        compare_ℕ-swap (code c) (code d),
        compare-swap s t,
      )
      (then-flip (compare_ℕ (code c) (code d)) (compare s t))

le_text_total : (s t : String) → le_text s t ≡ false → le_text t s ≡ true
le_text_total s t h = ground (arith, compare-swap s t)

-- A key may stand before the first of the fields.
abbrev Below : String → Fields → Type 0
Below k end = Unit
Below k (field j w fs) = le_text k j ≡ true

abbrev IsSorted : Fields → Type 0
IsSorted end = Unit
IsSorted (field k v fs) = Below k fs × IsSorted fs

Below-insert :
    (j k : String) (v : Json) (fs : Fields)
    → le_text j k ≡ true
    → Below j fs
    → Below j (insert k v fs)
unfolding insert
Below-insert j k v end h b = h
Below-insert j k v (field i w fs) h b = ground arith

insert-IsSorted : (k : String) (v : Json) (fs : Fields) → IsSorted fs → IsSorted (insert k v fs)
unfolding insert
insert-IsSorted k v end h = (tt, tt)
insert-IsSorted k v (field j w fs) h =
    ground (arith, le_text_total k j, Below-insert j k v fs, insert-IsSorted k v fs h.1)

insert-Below : (k : String) (v : Json) (fs : Fields) → Below k fs → insert k v fs ≡ field k v fs
unfolding insert
insert-Below k v end h = refl
insert-Below k v (field j w fs) h = rw h

-- Sorting leaves every value alone.
abbrev AreFixed : Fields → Type 0
AreFixed end = Unit
AreFixed (field k v fs) = (sort_keys v ≡ v) × AreFixed fs

insert-AreFixed :
    (k : String) (v : Json) (fs : Fields) → sort_keys v ≡ v → AreFixed fs → AreFixed (insert k v fs)
unfolding insert
insert-AreFixed k v end e h = (e, tt)
insert-AreFixed k v (field j w fs) e h = ground (arith, insert-AreFixed k v fs e h.1)

sort_fields_fixed : (fs : Fields) → IsSorted fs → AreFixed fs → sort_fields fs ≡ fs
unfolding sort_fields
sort_fields_fixed end h e = refl
sort_fields_fixed (field k v fs) h e =
    rw (e.0, sort_fields_fixed fs h.1 e.1) (insert-Below k v fs h.0)

sort_fields-IsSorted : (fs : Fields) → IsSorted (sort_fields fs)
unfolding sort_fields
sort_fields-IsSorted end = (tt)
sort_fields-IsSorted (field k v fs) =
    insert-IsSorted k (sort_keys v) (sort_fields fs) (sort_fields-IsSorted fs)

mutual
  unfolding sort_keys sort_items sort_fields

  fixed_value : (v : Json) → sort_keys (sort_keys v) ≡ sort_keys v
  fixed_value null = refl
  fixed_value (bool b) = refl
  fixed_value (num z) = refl
  fixed_value (str s) = refl
  fixed_value (arr xs) = ap arr (fixed_items xs)
  fixed_value (obj fs) =
      ap obj (sort_fields_fixed (sort_fields fs) (sort_fields-IsSorted fs) (fixed_fields fs))

  fixed_items : (xs : Items) → sort_items (sort_items xs) ≡ sort_items xs
  fixed_items nil = refl
  fixed_items (cons x xs) = rw (fixed_value x, fixed_items xs)

  fixed_fields : (fs : Fields) → AreFixed (sort_fields fs)
  fixed_fields end = tt
  fixed_fields (field k v fs) =
      insert-AreFixed k (sort_keys v) (sort_fields fs) (fixed_value v) (fixed_fields fs)

pub sort_keys_idem : (v : Json) → sort_keys (sort_keys v) ≡ sort_keys v
sort_keys_idem v = fixed_value v
