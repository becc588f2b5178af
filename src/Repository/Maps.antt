-- ===== src/Repository/Maps.antt =====
-- What the statements of ingress-service/internal/repository/event_repository.go do to the maps that
-- the tables stand for.
use yunxiao_workflow_agent.Base.{
  String, ◌≡◌, ◌==◌, sym, refl, none, some, List, [], ◌∷◌, any, if◌then◌else◌, Bool-cases, inl, inr,
  arith, eq_iff, ap,
}
use yunxiao_workflow_agent.Effects.{World}
use yunxiao_workflow_agent.Effects.Schema.{EventRow, EventInsert}
use yunxiao_workflow_agent.Effects.Tables.{
  find_by_key, update_event, has_event_id, has_dedup_key, has_raw_id, insert_normalized_event,
  event_fits,
}
use yunxiao_workflow_agent.Repository.{saved_event}
use yunxiao_workflow_agent.Repository.Spec.{is_some, set_status, save_if}
use yunxiao_workflow_agent.Repository.Client.{status_of, view, saved}

-- The tests of the statements, read off the maps.
any-status :
    (id : String) (rows : List EventRow) → any (has_event_id id) rows ≡ is_some (status_of id rows)
any-status id [] = refl
any-status id (row ∷ rows) = ground (arith, any-status id rows)

any-by_key :
    (key : String) (rows : List EventRow)
    → any (has_dedup_key key) rows ≡ is_some (find_by_key key rows)
unfolding find_by_key
any-by_key key [] = refl
any-by_key key (row ∷ rows) = ground (arith, any-by_key key rows)

-- What an update of the rows of one event does to the maps.
module _ (f : EventRow → EventRow) (status : String)
    (same_id : (row : EventRow) → (f row).event_id ≡ row.event_id)
    (same_key : (row : EventRow) → (f row).dedup_key ≡ row.dedup_key)
    (sets : (row : EventRow) → (f row).publish_status ≡ status) where
  by_key-update :
      (id key : String) (rows : List EventRow)
      → find_by_key key (update_event f id rows) ≡ find_by_key key rows
  unfolding find_by_key update_event
  by_key-update id key [] = refl
  by_key-update id key (row ∷ rows) = elim (Bool-cases (row.event_id == id)) [
    | inl hit ↦ rw (hit, same_id, same_key, by_key-update id key rows) refl
    | inr other ↦ rw (other, by_key-update id key rows) refl
  ]

  status-update :
      (id k : String) (rows : List EventRow)
      → status_of k (update_event f id rows) ≡ (
          if id == k
          then (if is_some (status_of k rows) then some status else none)
          else status_of k rows)
  unfolding update_event
  status-update id k [] = ground arith
  status-update id k (row ∷ rows) = elim (Bool-cases (row.event_id == id)) [
    | inl hit ↦
        rw (hit, same_id, sets, ap (λ x. x == k) ((eq_iff row.event_id id).0 hit))
          (elim (Bool-cases (id == k)) [
            | inl asked ↦ rw asked refl
            | inr unasked ↦ rw (unasked, status-update id k rows, unasked) refl
          ])
    | inr other ↦
        rw (other, status-update id k rows)
          (elim (Bool-cases (id == k)) [
            | inl asked ↦
                rw (asked, sym (ap (λ x. row.event_id == x) ((eq_iff id k).0 asked)), other) refl
            | inr unasked ↦ rw unasked refl
          ])
  ]

  pub view-update :
      (id : String) (w : World)
      → view (record w {
        database = record w.database {
          normalized_events = update_event f id w.database.normalized_events;
        };
      })
        ≡ set_status (view w) id status
  view-update id w i = record {
    raw_events = (view w).raw_events;
    by_key = λ key. by_key-update id key w.database.normalized_events i;
    status = λ k. status-update id k w.database.normalized_events i;
  }

-- The INSERT decides as the store does.
pub insert_lem :
    (x : EventInsert) (w : World)
    → (
      saved (saved_event (insert_normalized_event x w.database).0),
      view (record w { database = (insert_normalized_event x w.database).1 }),
    )
      ≡ save_if (event_fits x) x.event_id x.dedup_key x.raw_event_id (view w)
unfolding insert_normalized_event find_by_key
insert_lem x w = elim (Bool-cases (event_fits x)) [
  | inr wide ↦ rw wide refl
  | inl fit ↦
      rw
        (
          fit,
          any-status x.event_id w.database.normalized_events,
          any-by_key x.dedup_key w.database.normalized_events,
        )
        (elim (Bool-cases (is_some (status_of x.event_id w.database.normalized_events))) [
          | inl old ↦ rw old refl
          | inr new_id ↦
              rw new_id
                (elim (Bool-cases
                  (is_some (find_by_key x.dedup_key w.database.normalized_events))) [
                    | inl old ↦ rw old refl
                    | inr new_key ↦
                        rw new_key
                          (elim (Bool-cases
                            (any (has_raw_id x.raw_event_id) w.database.raw_events)) [
                              | inl parent ↦ rw parent refl
                              | inr orphan ↦ rw orphan refl
                            ])
                  ])
        ])
]
