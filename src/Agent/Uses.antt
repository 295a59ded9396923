-- ===== src/Agent/Uses.antt =====
-- Which events `verify_delegation` takes for a use of a token's jti.
use agent_trust_fabric.Prelude.{
  ◌≡◌, refl, ap, Bool, true, false, ◌||◌, some, [], ◌∷◌, String, if◌then◌else◌, All, Any, inl, inr,
  eq_refl,
}
use agent_trust_fabric.Errors.{Result, ok, ◌>>◌}
use agent_trust_fabric.Json
use agent_trust_fabric.Json.{
  Json, Fields, null, str, obj, lookup, subscript, get, or_else, is_str, py_eq,
}
use agent_trust_fabric.Audit.Log.Columns.{Row, Log, before, insert_row, in_order}
use agent_trust_fabric.Audit.Log.{records, all_events, hashable}
use agent_trust_fabric.Agent.Delegation.{is_use, any_use}

-- The content of the record is a `dict`, with a type that can be hashed.
pub record IsReadable (r : Row) : Type 0 where
  pub fs : Fields
  pub content_read : subscript r.record_ "content" ≡ ok (obj fs)
  pub type_hashed : hashable (or_else (lookup "type" fs) null) ≡ ok tt

-- The record is of the start of a delegation with this jti.
pub record IsUse (j : String) (r : Row) : Type 0 where
  pub fs : Fields
  pub content_read : subscript r.record_ "content" ≡ ok (obj fs)
  pub jti_read : lookup "token_jti" fs ≡ some (str j)
  pub started : lookup "type" fs ≡ some (str "delegation.started")

decided :
    (c b : Bool) (m : Result (Unit {0}))
    → m ≡ ok tt
    → (d : Bool) × ((if c then (m >> ok b) else ok false) ≡ ok d)
decided true b m h = (b, rw h refl)
decided false b m h = (false, refl)

is_use-IsReadable :
    (jti : Json) (r : Row) → IsReadable r → (b : Bool) × (is_use jti r.record_ ≡ ok b)
unfolding is_use
is_use-IsReadable jti r h = rw h.content_read (decided _ _ _ h.type_hashed)

is_use-IsUse : (j : String) (r : Row) → IsUse j r → is_use (str j) r.record_ ≡ ok true
unfolding is_use agent_trust_fabric.Json.py_eq hashable
is_use-IsUse j r u = rw (u.content_read, u.jti_read, u.started, eq_refl j)

any_use-IsReadable :
    (jti : Json) (log : Log) → All IsReadable log → (b : Bool) × (any_use jti (records log) ≡ ok b)
unfolding any_use
any_use-IsReadable jti [] h = (false, refl)
any_use-IsReadable jti (r ∷ rs) h =
    let (b, e) = is_use-IsReadable jti r h.0 in
    let (c, d) = any_use-IsReadable jti rs h.1 in (b || c, rw (e, d))

any_use-IsUse :
    (j : String) (log : Log)
    → All IsReadable log
    → Any (IsUse j) log
    → any_use (str j) (records log) ≡ ok true
unfolding any_use
any_use-IsUse j [] h u = absurd u
any_use-IsUse j (r ∷ rs) h (inl here) =
    let (c, d) = any_use-IsReadable (str j) rs h.1 in rw (is_use-IsUse j r here, d)
any_use-IsUse j (r ∷ rs) h (inr there) =
    let (b, e) = is_use-IsReadable (str j) r h.0 in
    rw (e, any_use-IsUse j rs h.1 there) (ap ok (or_true b))
  where
    or_true : (b : Bool) → (b || true) ≡ true
    or_true true = refl
    or_true false = refl

either : (Q : Log → Type 0) (b : Bool) (xs ys : Log) → Q xs → Q ys → Q (if b then xs else ys)
either Q true xs ys p q = p
either Q false xs ys p q = q

module _ (P : Row → Type 0) where
  insert_row-All : (r : Row) (log : Log) → P r → All P log → All P (insert_row r log)
  unfolding insert_row
  insert_row-All r [] p h = (p, tt)
  insert_row-All r (s ∷ ss) p h =
      either (All P) (before s r) (s ∷ insert_row r ss) (r ∷ s ∷ ss)
        (h.0, insert_row-All r ss p h.1) (p, h)

  pub in_order-All : (log : Log) → All P log → All P (in_order log)
  unfolding in_order
  in_order-All [] h = tt
  in_order-All (r ∷ rs) h = insert_row-All r (in_order rs) h.0 (in_order-All rs h.1)

  insert_row-here : (r : Row) (log : Log) → P r → Any P (insert_row r log)
  unfolding insert_row
  insert_row-here r [] p = inl p
  insert_row-here r (s ∷ ss) p =
      either (Any P) (before s r) (s ∷ insert_row r ss) (r ∷ s ∷ ss) (inr (insert_row-here r ss p))
        (inl p)

  insert_row-there : (r : Row) (log : Log) → Any P log → Any P (insert_row r log)
  unfolding insert_row
  insert_row-there r [] h = absurd h
  insert_row-there r (s ∷ ss) (inl here) =
      either (Any P) (before s r) (s ∷ insert_row r ss) (r ∷ s ∷ ss) (inl here) (inr (inl here))
  insert_row-there r (s ∷ ss) (inr there) =
      either (Any P) (before s r) (s ∷ insert_row r ss) (r ∷ s ∷ ss)
        (inr (insert_row-there r ss there)) (inr (inr there))

  in_order-Any : (log : Log) → Any P log → Any P (in_order log)
  unfolding in_order
  in_order-Any [] h = h
  in_order-Any (r ∷ rs) (inl here) = insert_row-here r (in_order rs) here
  in_order-Any (r ∷ rs) (inr there) = insert_row-there r (in_order rs) (in_order-Any rs there)

-- A use that stands in a readable log is found, in whatever order the rows are read.
pub all_events-IsUse :
    (j : String) (log : Log)
    → All IsReadable log
    → Any (IsUse j) log
    → any_use (str j) (all_events log) ≡ ok true
unfolding all_events
all_events-IsUse j log h u =
    any_use-IsUse j (in_order log) (in_order-All IsReadable log h) (in_order-Any (IsUse j) log u)
