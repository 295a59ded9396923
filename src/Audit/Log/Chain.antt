-- ===== src/Audit/Log/Chain.antt =====
-- The hash chain: it is unbroken while events come in the order of their `(ts, event_id)`, and
-- forks as soon as one does not.
use agent_trust_fabric.Prelude.{
  ◌≡◌, refl, ap, sym, ◌∙◌, Bool, true, false, Option, some, [], ◌∷◌, ◌++◌, String, arith, All,
  if◌then◌else◌,
}
use agent_trust_fabric.Errors.{ok}
use Prim.Native.String.{◌++◌ as ◌++ˢ◌}
use agent_trust_fabric.Json.{Json, canonical_json}
use agent_trust_fabric.Json.Bytes.{canonical_json-sort_keys}
use agent_trust_fabric.Runtime.{Runtime}
use agent_trust_fabric.Signing.{codes}
use agent_trust_fabric.Audit.Event.{AuditEvent, genesis_hash, chain_hash}
use agent_trust_fabric.Audit.Log.Columns.{Row, Log, before, newest, newer, bind_integer}
use agent_trust_fabric.Prelude.Int.{ℤ, ◌<ℤ◌, ltb_ℤ}
use agent_trust_fabric.Audit.Log.Order.{newest-append}
use agent_trust_fabric.Audit.Log.Inserted.{IsInserted, insert_event→IsInserted}
use agent_trust_fabric.Audit.Log.{latest_hash, insert_event}

-- Each row holds the hash of the row inserted before it.
abbrev pub IsLinked : String → Log → Type 0
IsLinked prev [] = Unit
IsLinked prev (r ∷ rs) = (r.prev_hash ≡ prev) × IsLinked r.chain_hash rs

-- The rows were inserted in the order by which they are read.
abbrev pub IsAscending : Log → Type 0
IsAscending [] = Unit
IsAscending (r ∷ rs) = All (λ s. before r s ≡ true) rs × IsAscending rs

abbrev pub last_hash : String → Log → String
last_hash prev [] = prev
last_hash prev (r ∷ rs) = last_hash r.chain_hash rs

pub record IsChain (log : Log) : Type 0 where
  pub linked : IsLinked genesis_hash log
  pub ascending : IsAscending log

IsLinked-append :
    (prev : String) (log : Log) (row : Row)
    → IsLinked prev log
    → row.prev_hash ≡ last_hash prev log
    → IsLinked prev (log ++ row ∷ [])
IsLinked-append prev [] row h e = (e, tt)
IsLinked-append prev (r ∷ rs) row h e = (h.0, IsLinked-append r.chain_hash rs row h.1 e)

abbrev pub AllBefore : Log → Row → Type 0
AllBefore log row = All (λ r. before r row ≡ true) log

IsAscending-append :
    (log : Log) (row : Row) → IsAscending log → AllBefore log row → IsAscending (log ++ row ∷ [])
IsAscending-append [] row h b = (tt, tt)
IsAscending-append (r ∷ rs) row h b = (AllAfter rs h.0, IsAscending-append rs row h.1 b.1)
  where
    AllAfter :
        (ss : Log) → All (λ s. before r s ≡ true) ss → All (λ s. before r s ≡ true) (ss ++ row ∷ [])
    AllAfter [] k = (b.0, tt)
    AllAfter (s ∷ ss) k = (k.0, AllAfter ss k.1)

abbrev last_row : Row → Log → Row
last_row r [] = r
last_row r (s ∷ ss) = last_row s ss

All-last : (P : Row → Type 0) (r : Row) (rs : Log) → P r → All P rs → P (last_row r rs)
All-last P r [] p h = p
All-last P r (s ∷ ss) p h = All-last P s ss h.0 h.1

last_hash-last_row :
    (prev : String) (r : Row) (rs : Log) → last_hash prev (r ∷ rs) ≡ (last_row r rs).chain_hash
last_hash-last_row prev r [] = refl
last_hash-last_row prev r (s ∷ ss) = last_hash-last_row r.chain_hash s ss

-- In an ascending log the newest row is the last one.
newest-last : (r : Row) (rs : Log) → IsAscending (r ∷ rs) → newest (r ∷ rs) ≡ some (last_row r rs)
unfolding newest
newest-last r [] h = refl
newest-last r (s ∷ ss) h =
    ap (λ (o : Option Row). some (newer r o)) (newest-last s ss h.1)
    ∙ ap some (rw (All-last (λ t. before r t ≡ true) s ss h.0.0 h.0.1))

latest_hash-last : (log : Log) → IsAscending log → latest_hash log ≡ last_hash genesis_hash log
unfolding latest_hash
latest_hash-last [] h = unfold newest in refl
latest_hash-last (r ∷ rs) h =
    rw (newest-last r rs h, latest_hash) (sym (last_hash-last_row genesis_hash r rs))

latest_hash-some : (log : Log) (n : Row) → newest log ≡ some n → latest_hash log ≡ n.chain_hash
unfolding latest_hash
latest_hash-some log n h = rw (h, latest_hash)

choose :
    (b : Bool) (r n : Row)
    → (if b then r else n).chain_hash ≡ (if b then r.chain_hash else n.chain_hash)
choose true r n = refl
choose false r n = refl

module _ ⦃rt : Runtime⦄ {event : AuditEvent} {record_ : Json} {pending : Bool} {log log' : Log}
    (i : IsInserted event record_ pending log log') where
  pub IsInserted-IsChain : IsChain log → AllBefore log i.row → IsChain log'
  IsInserted-IsChain c b = rw i.appended (record {
    linked =
        IsLinked-append genesis_hash log i.row c.linked
          (i.links ∙ latest_hash-last log c.ascending);
    ascending = IsAscending-append log i.row c.ascending b;
  })

  pub prev_hash_next :
      {event' : AuditEvent} {record' : Json} {pending' : Bool} {log'' : Log}
      (j : IsInserted event' record' pending' log' log'') (n : Row)
      → newest log ≡ some n
      → j.row.prev_hash ≡ (if before n i.row then i.row.chain_hash else i.row.prev_hash)
  prev_hash_next j n h =
      j.links
      ∙ ap latest_hash i.appended
      ∙ latest_hash-some _ _ (newest-append log n i.row h)
      ∙ choose (before n i.row) i.row n
      ∙ ap (λ (t : String). if before n i.row then i.row.chain_hash else t)
          (sym (i.links ∙ latest_hash-some log n h))

bind_integer-eq-ok : (z w : ℤ) → bind_integer z ≡ ok w → w ≡ z
bind_integer-eq-ok z w h = unfold bind_integer in ground arith

all_before : (log : Log) (row : Row) → All (λ r. r.ts <ℤ row.ts) log → AllBefore log row
all_before [] row h = tt
all_before (r ∷ rs) row h = (rw (is_less r.ts row.ts h.0), all_before rs row h.1)
  where
    is_less : (a b : ℤ) → a <ℤ b → ltb_ℤ a b ≡ true
    is_less a b k = ground arith

module _ ⦃rt : Runtime⦄ where
  -- The row's hash is SHA-256 over its previous hash, a line feed and the canonical bytes of the
  -- record that it stores.
  abbrev pub HoldsHash : Row → Type 0
  HoldsHash r =
      r.chain_hash
      ≡ "sha256:" ++ˢ rt.sha256_hex (codes r.prev_hash ++ (10 ∷ canonical_json r.record_))

  IsInserted-HoldsHash :
      {event : AuditEvent} {record_ : Json} {pending : Bool} {log log' : Log}
      (i : IsInserted event record_ pending log log')
      → HoldsHash i.row
  unfolding chain_hash
  IsInserted-HoldsHash {record_} i =
      rw (i.hashes, i.links, i.stores, canonical_json-sort_keys record_)

  -- A log that is an unbroken chain of hashes from the genesis hash, in the order in which it is
  -- read, stays so when an event is inserted whose time is later than that of every row. The new
  -- row stands last, and its hash is the SHA-256 over its previous hash, a line feed and the
  -- canonical bytes of the record that it stores.
  pub insert_event-IsChain :
      (event : AuditEvent) (record_ : Json) (pending : Bool) (log log' : Log)
      → IsChain log
      → All (λ r. r.ts <ℤ event.ts) log
      → insert_event event record_ pending log ≡ ok log'
      → IsChain log' × (row : Row) × (log' ≡ log ++ row ∷ []) × HoldsHash row
  insert_event-IsChain event record_ pending log log' c later h =
      let i = insert_event→IsInserted event record_ pending log log' h in
      (
        IsInserted-IsChain i c
            (all_before log i.row (rw (bind_integer-eq-ok event.ts i.row.ts i.ts_bound) later)),
        i.row,
        i.appended,
        IsInserted-HoldsHash i,
      )

  -- Of two events inserted in a row, the second holds the hash of the first exactly if the first
  -- is read after the row that was the newest; otherwise it holds the same previous hash as the
  -- first, and the chain forks.
  pub insert_event_twice :
      (first second : AuditEvent) (r₁ r₂ : Json) (p₁ p₂ : Bool) (log log₁ log₂ : Log) (n : Row)
      → newest log ≡ some n
      → insert_event first r₁ p₁ log ≡ ok log₁
      → insert_event second r₂ p₂ log₁ ≡ ok log₂
      → (x : Row) × (y : Row) × (log₂ ≡ (log ++ x ∷ []) ++ y ∷ [])
        × (x.prev_hash ≡ n.chain_hash)
        × (y.prev_hash ≡ (if before n x then x.chain_hash else x.prev_hash))
  insert_event_twice first second r₁ r₂ p₁ p₂ log log₁ log₂ n is_newest h₁ h₂ =
      let i = insert_event→IsInserted first r₁ p₁ log log₁ h₁ in
      let j = insert_event→IsInserted second r₂ p₂ log₁ log₂ h₂ in
      (
        i.row,
        j.row,
        j.appended ∙ ap (λ l. l ++ j.row ∷ []) i.appended,
        i.links ∙ latest_hash-some log n is_newest,
        prev_hash_next i j n is_newest,
      )
