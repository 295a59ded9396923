-- ===== src/Json/Keys.antt =====
-- `sort_keys=True`: what `json.loads` gives back for a value that `json.dumps` wrote so is the
-- value with the keys of each `dict` sorted by code points, which is the order of the UTF-8 bytes.
pub mod Idempotent
use Prim.Native.Nat.{Ordering}
use Prim.Native.String.{compare}
use text.Mathlib.TextPositions.{compare_refl}
use agent_trust_fabric.Prelude.{
  ◌≡◌, refl, Bool, true, false, Option, some, String, arith, str_eq, eq_iff, if◌then◌else◌,
}
use mathlib.Core.Option
use agent_trust_fabric.Json.Value.{
  Json, Items, Fields, null, bool, num, str, arr, obj, nil, cons, end, field, lookup,
}

-- Whether a key may stand before another.
abbrev pub le_text : String → String → Bool
le_text s t = elim (compare s t) [ Ordering.gt ↦ false | _ ↦ true ]

unfoldable pub insert : String → Json → Fields → Fields
insert k v end = field k v end
insert k v (field j w fs) =
    if le_text k j then field k v (field j w fs) else field j w (insert k v fs)

unfoldable mutual
  pub sort_keys : Json → Json
  sort_keys null = null
  sort_keys (bool b) = bool b
  sort_keys (num z) = num z
  sort_keys (str s) = str s
  sort_keys (arr xs) = arr (sort_items xs)
  sort_keys (obj fs) = obj (sort_fields fs)

  pub sort_items : Items → Items
  sort_items nil = nil
  sort_items (cons x xs) = cons (sort_keys x) (sort_items xs)

  pub sort_fields : Fields → Fields
  sort_fields end = end
  sort_fields (field k v fs) = insert k (sort_keys v) (sort_fields fs)

le_text_refl : (s : String) → le_text s s ≡ true
le_text_refl s = rw (compare_refl, le_text)

-- An entry that is put in shows at its key, and changes no other.
pub lookup-insert :
    (j k : String) (v : Json) (fs : Fields)
    → lookup j (insert k v fs) ≡ (if str_eq k j then some v else lookup j fs)
unfolding insert
lookup-insert j k v end = refl
lookup-insert j k v (field i w fs) =
    ground (arith, eq_iff k j, eq_iff i j, eq_iff i k, le_text_refl k, lookup-insert j k v fs)

map_sort_if :
    (b : Bool) (v : Json) (o : Option Json)
    → (if b then some (sort_keys v) else Option.map sort_keys o)
      ≡ Option.map sort_keys (if b then some v else o)
map_sort_if true v o = refl
map_sort_if false v o = refl

-- Sorting changes the value at a key only inside.
pub lookup-sort_fields :
    (j : String) (fs : Fields) → lookup j (sort_fields fs) ≡ Option.map sort_keys (lookup j fs)
unfolding sort_fields
lookup-sort_fields j end = refl
lookup-sort_fields j (field k v fs) =
    rw (lookup-insert, lookup-sort_fields j fs) (map_sort_if (str_eq k j) v (lookup j fs))
