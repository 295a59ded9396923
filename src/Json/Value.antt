-- ===== src/Json/Value.antt =====
-- The values, subscripts, `get`, equality, truth and iteration, with the exception that each
-- raises on a value of another type.
use Prim.Native.String.{[] as nil_text, ◌∷◌ as ◌∷ˢ◌}
use agent_trust_fabric.Prelude.{
  ap, ◌≡◌, refl, ℕ, suc, Bool, true, false, not, ◌&&◌, Option, none, some, List, [], ◌∷◌, map,
  String, str_eq, eq_iff, arith, ◌==◌, if◌then◌else◌,
}
use agent_trust_fabric.Prelude.Int.{ℤ, pos, eqb_ℤ}
use agent_trust_fabric.Prelude.Text.{is_empty}
use agent_trust_fabric.Errors.{Result, ok, err, key_error, type_error, attribute_error, or_raise}

mutual
  pub data Json : Type 0 where
    null : Json
    bool : Bool → Json
    num : ℤ → Json
    str : String → Json
    arr : Items → Json
    obj : Fields → Json

  pub data Items : Type 0 where
    nil : Items
    cons : Json → Items → Items

  pub data Fields : Type 0 where
    end : Fields
    field : String → Json → Fields → Fields

abbrev pub items : List Json → Items
items [] = nil
items (x ∷ xs) = cons x (items xs)

abbrev pub to_list : Items → List Json
to_list nil = []
to_list (cons x xs) = x ∷ to_list xs

pub to_list-items : (xs : List Json) → to_list (items xs) ≡ xs
to_list-items [] = refl
to_list-items (x ∷ xs) = ap (λ (l : List Json). x ∷ l) (to_list-items xs)

abbrev pub fields : List (String × Json) → Fields
fields [] = end
fields ((k, v) ∷ fs) = field k v (fields fs)

-- A `dict` display, and a `list` of strings.
abbrev pub dict : List (String × Json) → Json
dict fs = obj (fields fs)

abbrev pub strs : List String → Json
strs ss = arr (items (map str ss))

abbrev pub opt_str : Option String → Json
opt_str none = null
opt_str (some s) = str s

-- The value of a key, in the fields of a `dict`.
abbrev pub lookup : String → Fields → Option Json
lookup k end = none
lookup k (field j v fs) = if str_eq j k then some v else lookup k fs

-- `x[k]` for a text `k`.
abbrev pub subscript : Json → String → Result Json
subscript (obj fs) k = or_raise (lookup k fs) key_error
subscript _ k = err type_error

-- `x.get(k)`, `none` for a key that is not there.
abbrev pub get : Json → String → Result (Option Json)
get (obj fs) k = ok (lookup k fs)
get _ k = err attribute_error

abbrev pub or_else : Option Json → Json → Json
or_else none d = d
or_else (some v) d = v

-- `x == s` for a text `s`.
abbrev pub is_str : Json → String → Bool
is_str (str t) s = str_eq t s
is_str _ s = false

pub is_str-true : (v : Json) (s : String) → is_str v s ≡ true → v ≡ str s
is_str-true (str t) s h = ground (arith, eq_iff t s)
is_str-true _ s h = absurd (cc)

-- `True` and `False` are the integers 1 and 0.
abbrev pub as_int : Json → Option ℤ
as_int (bool true) = some (pos 1)
as_int (bool false) = some (pos 0)
as_int (num z) = some z
as_int _ = none

abbrev pub same_int : ℤ → Option ℤ → Bool
same_int a none = false
same_int a (some b) = eqb_ℤ a b

abbrev pub bool_int : Bool → ℤ
bool_int true = pos 1
bool_int false = pos 0

abbrev pub size : Fields → ℕ
size end = 0
size (field k v fs) = suc (size fs)

-- `x == y`. Two `dict`s are equal if they have as many keys, and the same value at each key.
unfoldable mutual
  pub py_eq : Json → Json → Bool
  py_eq null null = true
  py_eq null _ = false
  py_eq (bool b) y = same_int (bool_int b) (as_int y)
  py_eq (num a) y = same_int a (as_int y)
  py_eq (str s) y = is_str y s
  py_eq (arr xs) (arr ys) = items_eq xs ys
  py_eq (arr xs) _ = false
  py_eq (obj fs) (obj gs) = (size fs == size gs) && fields_in fs gs
  py_eq (obj fs) _ = false

  pub items_eq : Items → Items → Bool
  items_eq nil nil = true
  items_eq nil (cons y ys) = false
  items_eq (cons x xs) nil = false
  items_eq (cons x xs) (cons y ys) = py_eq x y && items_eq xs ys

  pub fields_in : Fields → Fields → Bool
  fields_in end gs = true
  fields_in (field k v fs) gs =
      elim (lookup k gs) [ none ↦ false | some w ↦ py_eq v w ] && fields_in fs gs

-- `bool(x)`.
abbrev pub truthy : Json → Bool
truthy null = false
truthy (bool b) = b
truthy (num z) = not (eqb_ℤ z (pos 0))
truthy (str s) = not (is_empty s)
truthy (arr nil) = false
truthy (arr (cons x xs)) = true
truthy (obj end) = false
truthy (obj (field k v fs)) = true

abbrev pub characters : String → List Json
characters nil_text = []
characters (c ∷ˢ s) = str (c ∷ˢ nil_text) ∷ characters s

abbrev pub keys : Fields → List Json
keys end = []
keys (field k v fs) = str k ∷ keys fs

-- `for x in v`, `list(v)`.
abbrev pub iterate : Json → Result (List Json)
iterate (arr xs) = ok (to_list xs)
iterate (str s) = ok (characters s)
iterate (obj fs) = ok (keys fs)
iterate _ = err type_error

-- A value that has to be a text, as an operand of `+` or an argument that is encoded.
abbrev pub text : Json → Result String
text (str s) = ok s
text _ = err type_error

-- An operand of `<` beside an `int`.
abbrev pub integer : Json → Result ℤ
integer v = or_raise (as_int v) type_error
