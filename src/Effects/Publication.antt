-- ===== src/Effects/Publication.antt =====
-- Ordered requests, interleaved in any order and under any faults, publish an event at most once,
-- and only a stored one.
mod Count
mod Phases
pub mod Marks
pub use Count.{sent, stored, stored_once}
use mathlib.Core.List.{◌++◌}
use Count.{count_by}
use Phases.{is_armed, due, step_phase}
use yunxiao_workflow_agent.Base.{ℕ, ◌+◌, ◌≤◌, String, ◌≡◌, refl, List, [], ◌∷◌, arith}
use yunxiao_workflow_agent.Effects.{World, Call, Answer, Choice, exec, Prog, call}
use yunxiao_workflow_agent.Effects.Discipline.{Phase, idle, IsOrdered}
use yunxiao_workflow_agent.Effects.Integrity.{IsConsistent}
use yunxiao_workflow_agent.Effects.Integrity.Statements.{exec-IsConsistent}
use yunxiao_workflow_agent.Effects.Concurrent.{
  System, Step, Reach, Reach-keeps, arrive, advance, here, next,
}

module _ {A : Type 0} where
  -- Each thread is ordered from its phase.
  abbrev AllOrdered : List (Prog A) → List Phase → Type 0
  AllOrdered [] [] = Unit
  AllOrdered (p ∷ ps) (ph ∷ phs) = IsOrdered p ph × AllOrdered ps phs
  AllOrdered _ _ = ⊥

  -- One thread among the others, and what replacing it does to the publications that are due.
  replace_thread :
      (l r : List (Prog A)) (p : Prog A) (phs : List Phase)
      → AllOrdered (l ++ p ∷ r) phs
      → (ph : Phase) × IsOrdered p ph
        × ((p' : Prog A) (ph' : Phase)
            → IsOrdered p' ph'
            → (phs' : List Phase) × AllOrdered (l ++ p' ∷ r) phs'
              × ((id : String)
                  → count_by (is_armed id) phs' + due id ph
                    ≡ count_by (is_armed id) phs + due id ph'))
  replace_thread [] r p [] h = absurd h
  replace_thread [] r p (ph ∷ phs) (h, hs) =
      (ph, h, λ p' ph' h'. (ph' ∷ phs, (h', hs), λ id. ground arith))
  replace_thread (q ∷ l) r p [] h = absurd h
  replace_thread (q ∷ l) r p (ph ∷ phs) (h, hs) =
      let (found, ordered, put) = replace_thread l r p phs hs in
      (
        found,
        ordered,
        λ p' ph' h'.
            let (phs', all, count) = put p' ph' h' in
            (ph ∷ phs', (h, all), λ id. ground (arith, count id)),
      )

  -- The messages sent and due are covered by what is stored.
  abbrev IsCovered : System A → Type 0
  IsCovered s =
      (phs : List Phase) × AllOrdered s.threads phs
      × ((id : String) → sent id s.world + count_by (is_armed id) phs ≤ stored id s.world)

  abbrev StartsIdle : Prog A → Type 0
  StartsIdle p = IsOrdered p idle

  Step-IsCovered : {s t : System A} → Step StartsIdle s t → IsCovered s → IsCovered t
  Step-IsCovered (arrive p a e) (phs, all, cover) = rw e (idle ∷ phs, (a, all), cover)
  Step-IsCovered {s} (advance l r c k ch e f) (phs, all, cover) =
      let (ph, ordered, put) = replace_thread l r (call c k) phs (rw e at all) in
      let (ph', ordered', step) = step_phase c k ch s.world ph ordered in
      let (phs', all', count) = put (k (exec c ch s.world).0) ph' ordered' in
      rw f (phs', all', λ id. omega (arith, cover id, step id, count id))

  Reach-IsCovered : {s t : System A} → Reach StartsIdle s t → IsCovered s → IsCovered t
  Reach-IsCovered here h = h
  Reach-IsCovered (next r st) h = Step-IsCovered st (Reach-IsCovered r h)

  -- From no threads, no messages and consistent tables: in every state that is reached no event is
  -- published twice, and each published event is stored.
  pub published_once :
      {s t : System A}
      → s.threads ≡ []
      → s.world.messages ≡ []
      → IsConsistent s.world.database
      → Reach StartsIdle s t
      → (id : String) → (sent id t.world ≤ stored id t.world) × (stored id t.world ≤ 1)
  published_once {s} {t} none_yet unsent consistent r id =
      let consistent' =
        Reach-keeps StartsIdle (λ w. IsConsistent w.database) exec-IsConsistent r consistent in
      let (phs, all, cover) =
        Reach-IsCovered r ([], rw none_yet tt, λ j. rw unsent (omega arith)) in
      (
        omega (arith, cover id),
        stored_once id t.world.database.normalized_events consistent'.event_ids_distinct,
      )
