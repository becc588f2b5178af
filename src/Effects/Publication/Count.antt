-- ===== src/Effects/Publication/Count.antt =====
-- How often an event is stored and sent.
use yunxiao_workflow_agent.Base.{
  ℕ, suc, ◌≤◌, String, ◌≡◌, refl, Bool, false, List, [], ◌∷◌, arith, ◌==◌, eq_iff, if◌then◌else◌,
  any,
}
use yunxiao_workflow_agent.Effects.{World, Message}
use yunxiao_workflow_agent.Effects.Tables.{has_event_id, update_event}
use yunxiao_workflow_agent.Effects.Schema.{EventRow}
use yunxiao_workflow_agent.Effects.Integrity.{Distinct, SameKeys}

-- How many elements pass the test.
abbrev pub count_by {ℓ} : {A : Type ℓ} → (A → Bool) → List A → ℕ
count_by p [] = 0
count_by p (x ∷ xs) = if p x then suc (count_by p xs) else count_by p xs

abbrev pub is_about : String → Message → Bool
is_about id m = m.message_id == id

-- The messages with this event's id, and the rows.
abbrev pub sent : String → World → ℕ
sent id w = count_by (is_about id) w.messages

abbrev pub stored : String → World → ℕ
stored id w = count_by (has_event_id id) w.database.normalized_events

none_stored :
    (id : String) (rows : List EventRow)
    → any (has_event_id id) rows ≡ false
    → count_by (has_event_id id) rows ≡ 0
none_stored id [] h = refl
none_stored id (e ∷ rows) h = ground (arith, none_stored id rows)

-- In a consistent table an id is stored once at most.
pub stored_once :
    (id : String) (rows : List EventRow)
    → Distinct has_event_id (λ e. e.event_id) rows
    → count_by (has_event_id id) rows ≤ 1
stored_once id [] h = omega arith
stored_once id (e ∷ rows) (p, h) =
    ground (arith, stored_once id rows h, none_stored id rows, eq_iff e.event_id id)

pub stored-update_event :
    (f : EventRow → EventRow)
    → SameKeys f
    → (k id : String) (rows : List EventRow)
    → count_by (has_event_id id) (update_event f k rows) ≡ count_by (has_event_id id) rows
unfolding update_event
stored-update_event f same k id [] = refl
stored-update_event f same k id (e ∷ rows) =
    ground (arith, stored-update_event f same k id rows, same.event_id e)
