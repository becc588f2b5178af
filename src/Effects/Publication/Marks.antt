-- ===== src/Effects/Publication/Marks.antt =====
-- Ordered requests, interleaved in any order and under any faults, mark an event as published only where its
-- message is in the exchange.
use mathlib.Core.List.{◌++◌}
use yunxiao_workflow_agent.Base.{
  ◌≤◌, String, ◌≡◌, ◌∙◌, refl, ◌==◌, false, List, [], ◌∷◌, arith, All, Bool-cases, inl, inr, eq_iff,
}
use yunxiao_workflow_agent.Effects.{
  World, Call, Answer, Choice, exec, Prog, call, Fault, fine, before, after, faulty, on_database,
  deliver, Message,
}
use yunxiao_workflow_agent.Effects.Schema.{Database, Reply, done, failed, EventInsert, EventRow}
use yunxiao_workflow_agent.Effects.Tables.{
  update_event, set_published, set_failed, insert_raw_event, update_raw_status, update_raw_meta,
  select_event_id, insert_normalized_event, update_published, update_publish_failed,
}
use yunxiao_workflow_agent.Effects.Rows.{
  insert_cases, raw_insert-same, raw_status-same, raw_meta-same,
}
use yunxiao_workflow_agent.Effects.Integrity.Statements.{faulty_keeps}
use yunxiao_workflow_agent.Effects.Discipline.{Phase, idle, armed, delivered, quiet, IsOrdered}
use yunxiao_workflow_agent.Effects.Concurrent.{System, Step, Reach, arrive, advance, here, next}
use yunxiao_workflow_agent.Effects.Publication.Count.{count_by, is_about}

-- The exchange has a message with this id.
abbrev pub IsSent : String → List Message → Type 0
IsSent id messages = 1 ≤ count_by (is_about id) messages

-- A published row has a message.
abbrev pub IsMarked : List Message → EventRow → Type 0
IsMarked messages e = e.publish_status ≡ "published" → IsSent e.event_id messages

abbrev pub AllMarked : List Message → Database → Type 0
AllMarked messages d = All (IsMarked messages) d.normalized_events

IsSent-more : (id : String) (m : Message) (ms : List Message) → IsSent id ms → IsSent id (m ∷ ms)
IsSent-more id m ms h = ground arith

All-more :
    (m : Message) (ms : List Message) (rows : List EventRow)
    → All (IsMarked ms) rows
    → All (IsMarked (m ∷ ms)) rows
All-more m ms [] h = tt
All-more m ms (e ∷ rows) (p, h) = (λ s. IsSent-more e.event_id m ms (p s), All-more m ms rows h)

update_event-Marked :
    (ms : List Message) (f : EventRow → EventRow) (j : String) (rows : List EventRow)
    → ((e : EventRow) → e.event_id ≡ j → IsMarked ms (f e))
    → All (IsMarked ms) rows
    → All (IsMarked ms) (update_event f j rows)
unfolding update_event
update_event-Marked ms f j [] marks h = tt
update_event-Marked ms f j (e ∷ rows) marks (p, h) = elim (Bool-cases (e.event_id == j)) [
  | inl hit ↦
      rw hit (marks e ((eq_iff e.event_id j).0 hit), update_event-Marked ms f j rows marks h)
  | inr other ↦ rw other (p, update_event-Marked ms f j rows marks h)
]

unlike : (s t : String) → (s == t) ≡ false → s ≡ t → ⊥
unlike s t other same = absurd (cc (other, (eq_iff s t).1 same))

inserted_marked :
    (e : EventInsert) (ms : List Message) (d : Database)
    → AllMarked ms d
    → AllMarked ms (insert_normalized_event e d).1
inserted_marked e ms d h = elim (insert_cases e d) [
  | inl new ↦ rw new ((λ s. absurd (unlike "pending" "published" refl s)), h)
  | inr (x, old) ↦ rw old h
]

-- What the phase of a request stands for.
abbrev Backed : Phase → List Message → Type 0
Backed (delivered id) ms = IsSent id ms
Backed ph ms = Unit

Backed-more : (ph : Phase) (m : Message) (ms : List Message) → Backed ph ms → Backed ph (m ∷ ms)
Backed-more idle m ms h = tt
Backed-more (armed id) m ms h = tt
Backed-more (delivered id) m ms h = IsSent-more id m ms h
Backed-more quiet m ms h = tt

module _ {A : Type 0} where
  -- A request whose phase is backed by the exchange.
  abbrev IsBacked : List Message → Prog A → Type 0
  IsBacked ms p = (ph : Phase) × IsOrdered p ph × Backed ph ms

  AllBacked-more :
      (m : Message) (ms : List Message) (ps : List (Prog A))
      → All (IsBacked ms) ps
      → All (IsBacked (m ∷ ms)) ps
  AllBacked-more m ms [] h = tt
  AllBacked-more m ms (p ∷ ps) ((ph, o, b), h) =
      ((ph, o, Backed-more ph m ms b), AllBacked-more m ms ps h)

  -- One thread among the others.
  thread_of :
      (P : Prog A → Type 0) (l r : List (Prog A)) (p : Prog A)
      → All P (l ++ p ∷ r)
      → P p × ((p' : Prog A) → P p' → All P (l ++ p' ∷ r))
  thread_of P [] r p (h, hs) = (h, λ p' h'. (h', hs))
  thread_of P (q ∷ l) r p (h, hs) =
      let (found, put) = thread_of P l r p hs in (found, λ p' h'. (h, put p' h'))

  -- A call of one request, with the answer and the world after it, among the other requests.
  abbrev Goes : {B : Type 0} → (B → Prog A) → List Message → Phase → B × World → Type 0
  Goes k ms ph (r, w') =
      AllMarked w'.messages w'.database
      × IsBacked w'.messages (k r)
      × ((ps : List (Prog A)) → All (IsBacked ms) ps → All (IsBacked w'.messages) ps)

  statement_Goes :
      {B : Type 0} (k : Reply B → Prog A) (statement : Database → Reply B × Database) (f : Fault)
      (w : World) (ph : Phase)
      → AllMarked w.messages (statement w.database).1
      → ((r : Reply B) → IsOrdered (k r) ph)
      → AllMarked w.messages w.database
      → Backed ph w.messages
      → Goes k w.messages ph (on_database w (faulty f statement w.database))
  statement_Goes k statement f w ph after_it h marked backed = (
    faulty_keeps (AllMarked w.messages) statement f w.database marked after_it,
    (ph, h _, backed),
    λ ps hs. hs,
  )

  insert_Goes :
      (e : EventInsert) (k : Reply Unit → Prog A) (f : Fault) (w : World)
      → IsOrdered (call (Call.event_insert e) k) idle
      → AllMarked w.messages w.database
      → Goes k w.messages idle (on_database w (faulty f (insert_normalized_event e) w.database))
  insert_Goes e k f w (h, g) marked = (
    faulty_keeps (AllMarked w.messages) (insert_normalized_event e) f w.database marked
        (inserted_marked e w.messages w.database marked),
    answered _,
    λ ps hs. hs,
  )
    where
      answered : (r : Reply Unit) → IsBacked w.messages (k r)
      answered (done tt) = (armed e.event_id, h, tt)
      answered (failed x) = (idle, g x, tt)

  publish_Goes :
      (m : Message) (k : Reply Unit → Prog A) (f : Fault) (w : World) (id : String)
      → IsOrdered (call (Call.publish m) k) (armed id)
      → AllMarked w.messages w.database
      → Goes k w.messages (armed id) (deliver f m w)
  publish_Goes m k fine w id (same, h, g) marked = (
    All-more m w.messages w.database.normalized_events marked,
    (delivered id, h, ground (arith, eq_iff m.message_id id)),
    AllBacked-more m w.messages,
  )
  publish_Goes m k (before e) w id (same, h, g) marked = (marked, (quiet, g _, tt), λ ps hs. hs)
  publish_Goes m k (after e) w id (same, h, g) marked = (
    All-more m w.messages w.database.normalized_events marked,
    (quiet, g _, tt),
    AllBacked-more m w.messages,
  )

  call_Goes :
      (c : Call) (k : Answer c → Prog A) (ch : Choice) (w : World) (ph : Phase)
      → IsOrdered (call c k) ph
      → AllMarked w.messages w.database
      → Backed ph w.messages
      → Goes k w.messages ph (exec c ch w)
  unfolding exec
  call_Goes (Call.event_insert e) k ch w idle h marked b = insert_Goes e k ch.fault w h marked
  call_Goes (Call.event_insert e) k ch w (armed id) h marked b = absurd h
  call_Goes (Call.event_insert e) k ch w (delivered id) h marked b = absurd h
  call_Goes (Call.event_insert e) k ch w quiet h marked b = absurd h
  call_Goes (Call.publish m) k ch w (armed id) h marked b = publish_Goes m k ch.fault w id h marked
  call_Goes (Call.publish m) k ch w idle h marked b = absurd h
  call_Goes (Call.publish m) k ch w (delivered id) h marked b = absurd h
  call_Goes (Call.publish m) k ch w quiet h marked b = absurd h
  call_Goes (Call.mark_published t j) k ch w (delivered id) (same, h) marked b =
      statement_Goes k (update_published t j) ch.fault w (delivered id)
        (update_event-Marked w.messages (set_published t) j w.database.normalized_events
          (λ e here _. rw (here ∙ same) b) marked)
        h marked b
  call_Goes (Call.mark_published t j) k ch w idle h marked b = absurd h
  call_Goes (Call.mark_published t j) k ch w (armed id) h marked b = absurd h
  call_Goes (Call.mark_published t j) k ch w quiet h marked b = absurd h
  call_Goes (Call.mark_failed j) k ch w ph h marked b =
      statement_Goes k (update_publish_failed j) ch.fault w ph
        (update_event-Marked w.messages set_failed j w.database.normalized_events
          (λ e _ s. absurd (unlike "failed" "published" refl s)) marked)
        h marked b
  call_Goes (Call.raw_insert r) k ch w ph h marked b =
      statement_Goes k (insert_raw_event r) ch.fault w ph (rw raw_insert-same marked) h marked b
  call_Goes (Call.raw_status u) k ch w ph h marked b =
      statement_Goes k (update_raw_status u) ch.fault w ph (rw raw_status-same marked) h marked b
  call_Goes (Call.raw_meta u) k ch w ph h marked b =
      statement_Goes k (update_raw_meta u) ch.fault w ph (rw raw_meta-same marked) h marked b
  call_Goes (Call.find_event_id j) k ch w ph h marked b =
      statement_Goes k (select_event_id j) ch.fault w ph marked h marked b
  call_Goes Call.new_uuid k ch w ph h marked b = (marked, (ph, h ch.uuid, b), λ ps hs. hs)
  call_Goes Call.now k ch w ph h marked b = (marked, (ph, h ch.time, b), λ ps hs. hs)
  call_Goes (Call.write_log l) k ch w ph h marked b = (marked, (ph, h tt, b), λ ps hs. hs)

  abbrev IsSound : System A → Type 0
  IsSound s =
      AllMarked s.world.messages s.world.database × All (IsBacked s.world.messages) s.threads

  abbrev StartsIdle : Prog A → Type 0
  StartsIdle p = IsOrdered p idle

  Step-IsSound : {s t : System A} → Step StartsIdle s t → IsSound s → IsSound t
  Step-IsSound (arrive p a e) (marked, all) = rw e (marked, ((idle, a, tt), all))
  Step-IsSound {s} (advance l r c k ch e f) (marked, all) =
      let ms = s.world.messages in
      let ((ph, ordered, backed), put) = thread_of (IsBacked ms) l r (call c k) (rw e at all) in
      let (marked', backed', others) = call_Goes c k ch s.world ph ordered marked backed in
      rw f (
        marked',
        (thread_of (IsBacked (exec c ch s.world).1.messages) l r (call c k)
              (others (l ++ call c k ∷ r) (rw e at all))).1
            (k (exec c ch s.world).0) backed',
      )

  pub Reach-AllMarked :
      {s t : System A}
      → Reach StartsIdle s t
      → AllMarked s.world.messages s.world.database
      → All (IsBacked s.world.messages) s.threads
      → AllMarked t.world.messages t.world.database
  Reach-AllMarked {s} r marked all = (go r).0
    where
      go : {t : System A} → Reach StartsIdle s t → IsSound t
      go here = (marked, all)
      go (next q st) = Step-IsSound st (go q)
