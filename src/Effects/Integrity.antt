-- ===== src/Effects/Integrity.antt =====
-- The constraints of the two tables, and updates that keep them.
pub mod Statements
use yunxiao_workflow_agent.Base.{
  ℕ, ◌+◌, ◌<◌, String, ◌≡◌, refl, ◌∙◌, Bool, true, false, List, [], ◌∷◌, arith, any, All,
  Bool-cases, inl, inr,
}
use yunxiao_workflow_agent.Runtime.{Time}
use yunxiao_workflow_agent.Effects.{
  World, Call, Choice, exec, Fault, fine, before, after, faulty, lost, deliver, Message,
}
use yunxiao_workflow_agent.Effects.Tables.{
  update_raw, set_status, set_meta, update_event, set_published, set_failed, has_event_id,
  has_dedup_key, has_raw_id, raw_fits, event_fits, event_row, insert_raw_event, update_raw_status,
  update_raw_meta, select_event_id, insert_normalized_event, update_published,
  update_publish_failed,
}
use yunxiao_workflow_agent.Effects.Schema.{
  Database, Reply, done, failed, RawRow, EventRow, RawInsert, EventInsert, StatusUpdate, MetaUpdate,
}

-- No later row of the list has the key of an earlier one.
abbrev pub Distinct {ℓ} : {A K : Type ℓ} → (K → A → Bool) → (A → K) → List A → Type 0
Distinct test key [] = Unit
Distinct test key (x ∷ xs) = (any (test (key x)) xs ≡ false) × Distinct test key xs

abbrev pub HasParent : List RawRow → EventRow → Type 0
HasParent raws e = any (has_raw_id e.raw_event_id) raws ≡ true

-- The primary key of `raw_event` and its sequence, uk_event_id, uk_dedup_key and the foreign key.
pub record IsConsistent (d : Database) : Type 0 where
  pub ids_below : All (λ r. r.id < d.next_raw_id) d.raw_events
  pub ids_distinct : Distinct has_raw_id (λ r. r.id) d.raw_events
  pub event_ids_distinct : Distinct has_event_id (λ e. e.event_id) d.normalized_events
  pub dedup_keys_distinct : Distinct has_dedup_key (λ e. e.dedup_key) d.normalized_events
  pub parents : All (HasParent d.raw_events) d.normalized_events

below_next : (n : ℕ) (rows : List RawRow) → All (λ r. r.id < n) rows → All (λ r. r.id < n + 1) rows
below_next n [] h = tt
below_next n (r ∷ rows) (p, h) = (omega arith, below_next n rows h)

next_is_new :
    (n : ℕ) (rows : List RawRow) → All (λ r. r.id < n) rows → any (has_raw_id n) rows ≡ false
next_is_new n [] h = refl
next_is_new n (r ∷ rows) (p, h) = ground (arith, next_is_new n rows h)

-- Updates that leave the key columns alone.
module _ (f : RawRow → RawRow) (same : (r : RawRow) → (f r).id ≡ r.id) (k : ℕ) where
  any-update_raw :
      (n : ℕ) (rows : List RawRow)
      → any (has_raw_id n) (update_raw f k rows) ≡ any (has_raw_id n) rows
  unfolding update_raw
  any-update_raw n [] = refl
  any-update_raw n (r ∷ rows) = ground (arith, any-update_raw n rows, same r)

  below-update_raw :
      (n : ℕ) (rows : List RawRow)
      → All (λ r. r.id < n) rows
      → All (λ r. r.id < n) (update_raw f k rows)
  unfolding update_raw
  below-update_raw n [] h = tt
  below-update_raw n (r ∷ rows) (p, h) = ground (arith, below-update_raw n rows h, same r)

  Distinct-update_raw :
      (rows : List RawRow)
      → Distinct has_raw_id (λ r. r.id) rows
      → Distinct has_raw_id (λ r. r.id) (update_raw f k rows)
  unfolding update_raw
  Distinct-update_raw [] h = tt
  Distinct-update_raw (r ∷ rows) (p, h) =
      ground (arith, Distinct-update_raw rows h, same r, any-update_raw r.id rows)

  parents-update_raw :
      (raws : List RawRow) (rows : List EventRow)
      → All (HasParent raws) rows
      → All (HasParent (update_raw f k raws)) rows
  parents-update_raw raws [] h = tt
  parents-update_raw raws (e ∷ rows) (p, h) =
      (any-update_raw e.raw_event_id raws ∙ p, parents-update_raw raws rows h)

  update_raw-IsConsistent :
      (d : Database)
      → IsConsistent d
      → IsConsistent (record d { raw_events = update_raw f k d.raw_events })
  update_raw-IsConsistent d h = record {
    ids_below = below-update_raw d.next_raw_id d.raw_events h.ids_below;
    ids_distinct = Distinct-update_raw d.raw_events h.ids_distinct;
    event_ids_distinct = h.event_ids_distinct;
    dedup_keys_distinct = h.dedup_keys_distinct;
    parents = parents-update_raw d.raw_events d.normalized_events h.parents;
  }

pub record SameKeys (f : EventRow → EventRow) : Type 0 where
  pub event_id : (e : EventRow) → (f e).event_id ≡ e.event_id
  pub dedup_key : (e : EventRow) → (f e).dedup_key ≡ e.dedup_key
  pub raw_event_id : (e : EventRow) → (f e).raw_event_id ≡ e.raw_event_id

module _ (f : EventRow → EventRow) (same : SameKeys f) (k : String) where
  any_event_id-update_event :
      (j : String) (rows : List EventRow)
      → any (has_event_id j) (update_event f k rows) ≡ any (has_event_id j) rows
  unfolding update_event
  any_event_id-update_event j [] = refl
  any_event_id-update_event j (e ∷ rows) =
      ground (arith, any_event_id-update_event j rows, same.event_id e)

  any_dedup_key-update_event :
      (j : String) (rows : List EventRow)
      → any (has_dedup_key j) (update_event f k rows) ≡ any (has_dedup_key j) rows
  unfolding update_event
  any_dedup_key-update_event j [] = refl
  any_dedup_key-update_event j (e ∷ rows) =
      ground (arith, any_dedup_key-update_event j rows, same.dedup_key e)

  event_ids-update_event :
      (rows : List EventRow)
      → Distinct has_event_id (λ e. e.event_id) rows
      → Distinct has_event_id (λ e. e.event_id) (update_event f k rows)
  unfolding update_event
  event_ids-update_event [] h = tt
  event_ids-update_event (e ∷ rows) (p, h) = ground (
    arith,
    event_ids-update_event rows h,
    same.event_id e,
    any_event_id-update_event e.event_id rows,
  )

  dedup_keys-update_event :
      (rows : List EventRow)
      → Distinct has_dedup_key (λ e. e.dedup_key) rows
      → Distinct has_dedup_key (λ e. e.dedup_key) (update_event f k rows)
  unfolding update_event
  dedup_keys-update_event [] h = tt
  dedup_keys-update_event (e ∷ rows) (p, h) = ground (
    arith,
    dedup_keys-update_event rows h,
    same.dedup_key e,
    any_dedup_key-update_event e.dedup_key rows,
  )

  parents-update_event :
      (raws : List RawRow) (rows : List EventRow)
      → All (HasParent raws) rows
      → All (HasParent raws) (update_event f k rows)
  unfolding update_event
  parents-update_event raws [] h = tt
  parents-update_event raws (e ∷ rows) (p, h) =
      ground (arith, parents-update_event raws rows h, same.raw_event_id e)

  update_event-IsConsistent :
      (d : Database)
      → IsConsistent d
      → IsConsistent (record d { normalized_events = update_event f k d.normalized_events })
  update_event-IsConsistent d h = record {
    ids_below = h.ids_below;
    ids_distinct = h.ids_distinct;
    event_ids_distinct = event_ids-update_event d.normalized_events h.event_ids_distinct;
    dedup_keys_distinct = dedup_keys-update_event d.normalized_events h.dedup_keys_distinct;
    parents = parents-update_event d.raw_events d.normalized_events h.parents;
  }
