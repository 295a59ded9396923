-- ===== src/Audit/Log/Sorted.antt =====
-- `all_events`: every record once, by time and then by event id.
use agent_trust_fabric.Prelude.{◌≡◌, refl, Bool, true, false, [], ◌∷◌, All, Bool-cases, inl, inr}
use mathlib.Core.List.Perm
use mathlib.Core.List.{Perm}
use agent_trust_fabric.Audit.Log.Columns.{Row, Log, before, insert_row, in_order}
use agent_trust_fabric.Audit.Log.{records, all_events}
use agent_trust_fabric.Audit.Log.Order.{before_trans, before_split, before_irrefl}

-- No row stands after one that it precedes in the order of `ts` and `event_id`.
abbrev pub IsSorted : Log → Type 0
IsSorted [] = Unit
IsSorted (r ∷ rs) = All (λ s. before s r ≡ false) rs × IsSorted rs

insert_row-Perm : (r : Row) (log : Log) → Perm (insert_row r log) (r ∷ log)
unfolding insert_row
insert_row-Perm r [] = Perm.refl (r ∷ [])
insert_row-Perm r (s ∷ ss) = elim (Bool-cases (before s r)) [
  | inl e ↦ rw e (Perm.trans (Perm.cons s (insert_row-Perm r ss)) (Perm.swap r s ss))
  | inr e ↦ rw e (Perm.refl (r ∷ s ∷ ss))
]

in_order-Perm : (log : Log) → Perm (in_order log) log
unfolding in_order
in_order-Perm [] = Perm.refl []
in_order-Perm (r ∷ rs) =
    Perm.trans (insert_row-Perm r (in_order rs)) (Perm.cons r (in_order-Perm rs))

before_asym : (r s : Row) → before s r ≡ true → before r s ≡ false
before_asym r s h = elim (Bool-cases (before r s)) [
  | inl e ↦ absurd (cc (before_trans s r s h e, before_irrefl s))
  | inr e ↦ e
]

insert_row-All :
    (P : Row → Type 0) (r : Row) (log : Log) → P r → All P log → All P (insert_row r log)
unfolding insert_row
insert_row-All P r [] p h = (p, tt)
insert_row-All P r (s ∷ ss) p h = elim (Bool-cases (before s r)) [
  | inl e ↦ rw e (h.0, insert_row-All P r ss p h.1)
  | inr e ↦ rw e (p, (h.0, h.1))
]

-- Rows that do not precede `s` do not precede `r` either, which `s` does not precede.
later :
    (r s : Row) (log : Log)
    → before s r ≡ false
    → All (λ t. before t s ≡ false) log
    → All (λ t. before t r ≡ false) log
later r s [] e h = tt
later r s (t ∷ ts) e h = (not_before (before t r) refl, later r s ts e h.1)
  where
    not_before : (b : Bool) → before t r ≡ b → b ≡ false
    not_before true k = absurd (cc (before_split t s r k h.0, e))
    not_before false k = refl

insert_row-IsSorted : (r : Row) (log : Log) → IsSorted log → IsSorted (insert_row r log)
unfolding insert_row
insert_row-IsSorted r [] h = (tt, tt)
insert_row-IsSorted r (s ∷ ss) h = elim (Bool-cases (before s r)) [
  | inl e ↦ rw e (
    insert_row-All (λ t. before t s ≡ false) r ss (before_asym r s e) h.0,
    insert_row-IsSorted r ss h.1,
  )
  | inr e ↦ rw e ((e, later r s ss e h.0), (h.0, h.1))
]

in_order-IsSorted : (log : Log) → IsSorted (in_order log)
unfolding in_order
in_order-IsSorted [] = tt
in_order-IsSorted (r ∷ rs) = insert_row-IsSorted r (in_order rs) (in_order-IsSorted rs)

-- all_events returns the record of each row exactly once, in an order of the rows in which none
-- stands after one that it precedes by time and then by event id.
pub all_events_lem :
    (log : Log) → (rows : Log) × (all_events log ≡ records rows) × Perm rows log × IsSorted rows
unfolding all_events
all_events_lem log = (in_order log, refl, in_order-Perm log, in_order-IsSorted log)
