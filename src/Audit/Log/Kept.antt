-- ===== src/Audit/Log/Kept.antt =====
-- What the operations on a log keep: its rows, with their events, content and hashes, and the
-- primary key.
use agent_trust_fabric.Prelude.{
  ◌≡◌, refl, ap, sym, ◌∙◌, true, false, Option, none, some, [], ◌∷◌, ◌++◌, String, arith, eq_iff,
  All, Bool-cases, inl, inr,
}
use mathlib.Core.Option
use agent_trust_fabric.Errors.{ok, or_raise-eq-ok, key_error}
use agent_trust_fabric.Json.{Json, Fields, obj, end, lookup, subscript, sort_keys}
use agent_trust_fabric.Json.Keys.{sort_fields, lookup-sort_fields}
use agent_trust_fabric.Audit.Log.Columns.{Row, Log, same_text}
use agent_trust_fabric.Audit.Log.{find_row, replace_row}

-- The primary key.
abbrev pub HasUniqueIds : Log → Type 0
HasUniqueIds [] = Unit
HasUniqueIds (r ∷ rs) = (find_row r.event_id rs ≡ none) × HasUniqueIds rs

-- A record is a value that was read back from the text in its column.
abbrev pub FromText : Row → Type 0
FromText r = sort_keys r.record_ ≡ r.record_

abbrev pub IsStored : Log → Type 0
IsStored = All FromText

pub record IsWellFormed (log : Log) : Type 0 where
  pub unique : HasUniqueIds log
  pub stored : IsStored log

-- A row, and what it has become: its event, content and hashes are the same, and it has not
-- become pending.
pub record IsKept (r s : Row) : Type 0 where
  pub event_id : s.event_id ≡ r.event_id
  pub ts : s.ts ≡ r.ts
  pub type : s.type ≡ r.type
  pub token_jti : s.token_jti ≡ r.token_jti
  pub prev_hash : s.prev_hash ≡ r.prev_hash
  pub chain_hash : s.chain_hash ≡ r.chain_hash
  pub content : subscript s.record_ "content" ≡ subscript r.record_ "content"
  pub pending : r.pending_peer ≡ false → s.pending_peer ≡ false

-- Every row is kept at its place; more may follow.
abbrev pub Extends : Log → Log → Type 0
Extends [] log' = Unit
Extends (r ∷ rs) [] = ⊥
Extends (r ∷ rs) (s ∷ ss) = IsKept r s × Extends rs ss

pub IsKept-refl : (r : Row) → IsKept r r
IsKept-refl r = record {
  event_id = refl;
  ts = refl;
  type = refl;
  token_jti = refl;
  prev_hash = refl;
  chain_hash = refl;
  content = refl;
  pending = λ h. h;
}

IsKept-trans : (r s t : Row) → IsKept r s → IsKept s t → IsKept r t
IsKept-trans r s t h k = record {
  event_id = k.event_id ∙ h.event_id;
  ts = k.ts ∙ h.ts;
  type = k.type ∙ h.type;
  token_jti = k.token_jti ∙ h.token_jti;
  prev_hash = k.prev_hash ∙ h.prev_hash;
  chain_hash = k.chain_hash ∙ h.chain_hash;
  content = k.content ∙ h.content;
  pending = λ p. k.pending (h.pending p);
}

pub Extends-refl : (log : Log) → Extends log log
Extends-refl [] = tt
Extends-refl (r ∷ rs) = (IsKept-refl r, Extends-refl rs)

pub Extends-trans :
    (log log' log'' : Log) → Extends log log' → Extends log' log'' → Extends log log''
Extends-trans [] log' log'' h k = tt
Extends-trans (r ∷ rs) [] log'' h k = absurd h
Extends-trans (r ∷ rs) (s ∷ ss) [] h k = absurd k
Extends-trans (r ∷ rs) (s ∷ ss) (t ∷ ts) h k =
    (IsKept-trans r s t h.0 k.0, Extends-trans rs ss ts h.1 k.1)

pub Extends-append : (log more : Log) → Extends log (log ++ more)
Extends-append [] more = tt
Extends-append (r ∷ rs) more = (IsKept-refl r, Extends-append rs more)

same_text-sym : (s t : Option String) → same_text s t ≡ same_text t s
same_text-sym none none = refl
same_text-sym none (some t) = refl
same_text-sym (some s) none = refl
same_text-sym (some s) (some t) = ground (arith, eq_iff s t, eq_iff t s)

pub find_row-append :
    (id : Option String) (log : Log) (row : Row)
    → find_row id log ≡ none
    → same_text row.event_id id ≡ false
    → find_row id (log ++ row ∷ []) ≡ none
find_row-append id [] row h e = rw e
find_row-append id (r ∷ rs) row h e = ground (arith, find_row-append id rs row)

not_same :
    (r : Row) (rs : Log) (row : Row)
    → find_row row.event_id (r ∷ rs) ≡ none
    → same_text row.event_id r.event_id ≡ false
not_same r rs row h = ground (arith, same_text-sym row.event_id r.event_id)

not_later :
    (r : Row) (rs : Log) (row : Row)
    → find_row row.event_id (r ∷ rs) ≡ none
    → find_row row.event_id rs ≡ none
not_later r rs row h = ground arith

pub HasUniqueIds-append :
    (log : Log) (row : Row)
    → HasUniqueIds log
    → find_row row.event_id log ≡ none
    → HasUniqueIds (log ++ row ∷ [])
HasUniqueIds-append [] row u h = (refl, tt)
HasUniqueIds-append (r ∷ rs) row u h = (
  find_row-append r.event_id rs row u.0 (not_same r rs row h),
  HasUniqueIds-append rs row u.1 (not_later r rs row h),
)

module _ (id : Option String) (row new : Row) (same_id : new.event_id ≡ row.event_id) where
  find_row_replaced :
      (j : Option String) (log : Log)
      → find_row id log ≡ some row
      → find_row j log ≡ none
      → find_row j (replace_row id new log) ≡ none
  find_row_replaced j [] h e = absurd (cc)
  find_row_replaced j (r ∷ rs) h e = ground (arith, find_row_replaced j rs)

  pub HasUniqueIds-replace :
      (log : Log)
      → find_row id log ≡ some row
      → HasUniqueIds log
      → HasUniqueIds (replace_row id new log)
  HasUniqueIds-replace [] h u = absurd (cc)
  HasUniqueIds-replace (r ∷ rs) h u =
      ground (arith, HasUniqueIds-replace rs, find_row_replaced r.event_id rs)

found_later :
    (id : Option String) (r row : Row) (rs : Log)
    → find_row id (r ∷ rs) ≡ some row
    → same_text r.event_id id ≡ false
    → find_row id rs ≡ some row
found_later id r row rs h here = ground arith

found_here :
    (id : Option String) (r row : Row) (rs : Log)
    → find_row id (r ∷ rs) ≡ some row
    → same_text r.event_id id ≡ true
    → row ≡ r
found_here id r row rs h here = ground arith

IsKept-here : {row r new : Row} → row ≡ r → IsKept row new → IsKept r new
IsKept-here e k = rw (sym e) k

pub Extends-replace :
    (id : Option String) (row new : Row) (log : Log)
    → find_row id log ≡ some row
    → IsKept row new
    → Extends log (replace_row id new log)
Extends-replace id row new [] h k = tt
Extends-replace id row new (r ∷ rs) h k = elim (Bool-cases (same_text r.event_id id)) [
  | inl yes_here ↦ rw yes_here (IsKept-here (found_here id r row rs h yes_here) k, Extends-refl rs)
  | inr not_here ↦
      rw not_here
        (IsKept-refl r, Extends-replace id row new rs (found_later id r row rs h not_here) k)
]

unfoldable pub fields_of : Json → Fields
fields_of (obj fs) = fs
fields_of _ = end

fields-obj : (fs : Fields) → sort_keys (obj fs) ≡ obj fs → sort_fields fs ≡ fs
unfolding sort_keys fields_of
fields-obj fs e = ap fields_of e

pub some-injective : {A : Type 0} {x y : A} → some x ≡ some y → x ≡ y
some-injective e = cc

subscript-some :
    (fs : Fields) (w : Json) (k : String) → subscript (obj fs) k ≡ ok w → lookup k fs ≡ some w
subscript-some fs w k e = or_raise-eq-ok (lookup k fs) key_error e

-- What is read from a stored record has sorted keys.
pub subscript_fixed :
    (v w : Json) (k : String) → sort_keys v ≡ v → subscript v k ≡ ok w → sort_keys w ≡ w
unfolding sort_keys
subscript_fixed (obj fs) w k e h =
    let found = subscript-some fs w k h in
    let sorted : lookup k (sort_fields fs) ≡ some w = ap (lookup k) (fields-obj fs e) ∙ found in
    some-injective (sym (ap (Option.map sort_keys) found) ∙ sym (lookup-sort_fields k fs) ∙ sorted)
subscript_fixed _ w k e h = absurd (cc)
