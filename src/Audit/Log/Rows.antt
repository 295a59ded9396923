-- ===== src/Audit/Log/Rows.antt =====
-- Properties of all rows, through the operations on rows.
use agent_trust_fabric.Prelude.{◌≡◌, Option, some, [], ◌∷◌, ◌++◌, String, arith, All, Any, inl, inr}
use agent_trust_fabric.Audit.Log.Columns.{Row, Log}
use agent_trust_fabric.Audit.Log.{find_row, replace_row}

pub All-last :
    (P : Row → Type 0) (log : Log) (row : Row) → All P log → P row → All P (log ++ row ∷ [])
All-last P [] row h p = (p, tt)
All-last P (r ∷ rs) row h p = (h.0, All-last P rs row h.1 p)

-- A property of every row, when one is replaced.
pub All-replace :
    (P : Row → Type 0) (id : Option String) (new : Row) (log : Log)
    → P new
    → All P log
    → All P (replace_row id new log)
All-replace P id new [] p h = tt
All-replace P id new (r ∷ rs) p h = ground (arith, All-replace P id new rs p h.1)

-- The row that is found has it.
pub All-found :
    (P : Row → Type 0) (id : Option String) (log : Log) (row : Row)
    → All P log
    → find_row id log ≡ some row
    → P row
All-found P id [] row h e = absurd (cc)
All-found P id (r ∷ rs) row h e = ground (arith, All-found P id rs row h.1)

pub Any-last : (P : Row → Type 0) (log : Log) (row : Row) → P row → Any P (log ++ row ∷ [])
Any-last P [] row p = inl p
Any-last P (r ∷ rs) row p = inr (Any-last P rs row p)
