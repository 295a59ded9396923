-- ===== src/Audit/Log/Columns.antt =====
-- The columns of the table `events`, how SQLite binds a value to them, and the order of rows.
use Prim.Native.Nat.{Ordering}
use Prim.Native.String.{compare}
use agent_trust_fabric.Prelude.{
  ◌-◌, ◌^◌, Bool, true, false, ◌&&◌, ◌||◌, Option, none, some, List, [], ◌∷◌, String, str_eq,
  if◌then◌else◌,
}
use agent_trust_fabric.Prelude.Int.{ℤ, pos, negsuc, leb_ℤ, ltb_ℤ, eqb_ℤ}
use agent_trust_fabric.Errors.{Result, ok, err, overflow_error, programming_error}
use agent_trust_fabric.Json.{Json, null, bool, num, str, arr, obj}
use agent_trust_fabric.Json.Text.{decimal_text}

-- A row of `events`; a text column holds `none` for `NULL`. `type` is `NOT NULL`, and the hashes and
-- the record never are `NULL`.
pub record Row : Type 0 where
  pub event_id : Option String
  pub ts : ℤ
  pub type : String
  pub token_jti : Option String
  pub prev_hash : String
  pub record_ : Json
  pub chain_hash : String
  pub pending_peer : Bool

abbrev pub Log : Type 0
Log = List Row

-- SQLite's integers have 64 bits; a larger `int` cannot be bound.
abbrev pub fits : ℤ → Bool
fits z = leb_ℤ (negsuc (2 ^ 63 - 1)) z && leb_ℤ z (pos (2 ^ 63 - 1))

unfoldable pub bind_integer : ℤ → Result ℤ
bind_integer z = if fits z then ok z else err overflow_error

-- A parameter for a `TEXT` column, or compared with one: a number becomes its decimal text, `True`
-- and `False` being 1 and 0; a `list` or a `dict` cannot be bound.
unfoldable pub bind_text : Json → Result (Option String)
bind_text null = ok none
bind_text (bool true) = ok (some "1")
bind_text (bool false) = ok (some "0")
bind_text (num z) = if fits z then ok (some (decimal_text z)) else err overflow_error
bind_text (str s) = ok (some s)
bind_text (arr _) = err programming_error
bind_text (obj _) = err programming_error

-- `column = ?`: `NULL` equals nothing.
abbrev pub same_text : Option String → Option String → Bool
same_text none t = false
same_text (some s) none = false
same_text (some s) (some t) = str_eq s t

-- `ORDER BY event_id ASC`: `NULL` comes first, and texts go by their bytes.
abbrev pub id_before : Option String → Option String → Bool
id_before s none = false
id_before none (some t) = true
id_before (some s) (some t) = elim (compare s t) [ Ordering.lt ↦ true | _ ↦ false ]

-- The order by `ts`, then `event_id`.
abbrev pub before : Row → Row → Bool
before r s = ltb_ℤ r.ts s.ts || (eqb_ℤ r.ts s.ts && id_before r.event_id s.event_id)

abbrev pub newer : Row → Option Row → Row
newer r none = r
newer r (some s) = if before r s then s else r

-- The last row of the order.
unfoldable pub newest : Log → Option Row
newest [] = none
newest (r ∷ rs) = some (newer r (newest rs))

unfoldable pub insert_row : Row → Log → Log
insert_row r [] = r ∷ []
insert_row r (s ∷ ss) = if before s r then s ∷ insert_row r ss else r ∷ s ∷ ss

unfoldable pub in_order : Log → Log
unfolding insert_row
in_order [] = []
in_order (r ∷ rs) = insert_row r (in_order rs)
