-- ===== src/Prelude/Text.antt =====
-- What the program uses of Python's `str`, over the native texts: `split`, `in`, `rstrip`.
pub mod Laws
use Prim.Native.Nat.{ℕ, suc}
use Prim.Native.Char.{Char, code}
use Prim.Native.String.{String, [] as nil, ◌∷◌ as ◌∷ˢ◌}
use mathlib.Core.Bool.{Bool, true, false, ◌&&◌}
use mathlib.Core.Option.{Option, none, some}
use mathlib.Core.Option
use mathlib.Core.List.{List, [], ◌∷◌}
use agent_trust_fabric.Prelude.Tests.{ltb, ◌==◌, if◌then◌else◌}

-- The first part grows by a character.
abbrev pub cons_head : Char → List String → List String
cons_head c [] = (c ∷ˢ nil) ∷ []
cons_head c (s ∷ ss) = (c ∷ˢ s) ∷ ss

-- `s.split(d)` for a separator of one character.
unfoldable pub split : ℕ → String → List String
split d nil = nil ∷ []
split d (c ∷ˢ s) = let rest = split d s in if code c == d then nil ∷ rest else cons_head c rest

abbrev pub cons_first : Char → String × String → String × String
cons_first c (a, b) = (c ∷ˢ a, b)

-- `s.split(d, 1)` as a pair, and `none` where `d in s` is false.
unfoldable pub split_once : ℕ → String → Option (String × String)
split_once d nil = none
split_once d (c ∷ˢ s) =
    if code c == d then some (nil, s) else Option.map (cons_first c) (split_once d s)

-- `s.rsplit(d, 1)` as a pair: the last occurrence counts.
unfoldable pub rsplit_once : ℕ → String → Option (String × String)
rsplit_once d nil = none
rsplit_once d (c ∷ˢ s) = elim (rsplit_once d s) [
  | some p ↦ some (cons_first c p)
  | none ↦ if code c == d then some (nil, s) else none
]

-- `d not in s`.
abbrev pub lacks : ℕ → String → Bool
lacks d nil = true
lacks d (c ∷ˢ s) = if code c == d then false else lacks d s

abbrev pub is_empty : String → Bool
is_empty nil = true
is_empty (c ∷ˢ s) = false

-- `s.rstrip(d)`.
unfoldable pub rstrip : ℕ → String → String
rstrip d nil = nil
rstrip d (c ∷ˢ s) = let rest = rstrip d s in if is_empty rest && code c == d then nil else c ∷ˢ rest

-- `len(s)`, in characters.
abbrev pub count : String → ℕ
count nil = 0
count (c ∷ˢ s) = suc (count s)

-- Whether every character is ASCII.
abbrev pub is_ascii : String → Bool
is_ascii nil = true
is_ascii (c ∷ˢ s) = ltb (code c) 128 && is_ascii s
