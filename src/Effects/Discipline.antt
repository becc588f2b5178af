-- ===== src/Effects/Discipline.antt =====
-- The order of the calls of one request: it publishes at most once, only an event that it has
-- stored itself, stores nothing more after that, and marks only an event as published that the broker has
-- taken.
use yunxiao_workflow_agent.Base.{String, ◌≡◌, Bool, true, false, if◌then◌else◌}
use yunxiao_workflow_agent.Base.Result.{Error, Result, ok, err}
use yunxiao_workflow_agent.Effects.Draws.{Draws}
use yunxiao_workflow_agent.Effects.{Call, Answer, Prog, ret, call, ◌>>=◌}
use yunxiao_workflow_agent.Effects.Schema.{DbError, Reply, done, failed}

-- Nothing stored yet; the event with this id stored, and not published; this one published; nothing more
-- to publish.
pub data Phase : Type 0 where
  idle : Phase
  armed : String → Phase
  delivered : String → Phase
  quiet : Phase

abbrev pub IsOrdered : {A : Type 0} → Prog A → Phase → Type 0
IsOrdered (ret a) ph = Unit
IsOrdered (call (Call.event_insert e) k) idle =
    IsOrdered (k (done tt)) (armed e.event_id) × ((x : DbError) → IsOrdered (k (failed x)) idle)
IsOrdered (call (Call.event_insert e) k) ph = ⊥
IsOrdered (call (Call.publish m) k) (armed id) =
    (m.message_id ≡ id)
    × IsOrdered (k (done tt)) (delivered id)
    × ((x : DbError) → IsOrdered (k (failed x)) quiet)
IsOrdered (call (Call.publish m) k) ph = ⊥
IsOrdered (call (Call.mark_published t j) k) (delivered id) =
    (j ≡ id) × ((r : Reply Unit) → IsOrdered (k r) (delivered id))
IsOrdered (call (Call.mark_published t j) k) ph = ⊥
IsOrdered (call c k) ph = (r : Answer c) → IsOrdered (k r) ph

-- A part that neither stores an event nor publishes may stand before anything.
pub IsOrdered-bind :
    {A B : Type 0} (m : Prog A) (f : A → Prog B) (ph : Phase)
    → IsOrdered m quiet
    → ((a : A) → IsOrdered (f a) ph)
    → IsOrdered (m >>= f) ph
IsOrdered-bind (ret a) f ph h k = k a
IsOrdered-bind (call (Call.event_insert e) g) f ph h k = absurd h
IsOrdered-bind (call (Call.publish m) g) f ph h k = absurd h
IsOrdered-bind (call (Call.mark_published t j) g) f ph h k = absurd h
IsOrdered-bind (call c g) f ph h k = λ r. IsOrdered-bind (g r) f ph (h r) k

pub Draws-IsOrdered : {A : Type 0} (m : Prog A) (ph : Phase) → Draws m → IsOrdered m ph
Draws-IsOrdered (ret a) ph h = tt
Draws-IsOrdered (call Call.new_uuid k) ph h = λ u. Draws-IsOrdered (k u) ph (h u)
Draws-IsOrdered (call c k) ph h = absurd h

-- A branch is ordered when both sides are.
pub IsOrdered-if :
    {A : Type 0} (b : Bool) (m n : Prog A) (ph : Phase)
    → IsOrdered m ph
    → IsOrdered n ph
    → IsOrdered (if b then m else n) ph
IsOrdered-if true m n ph h k = h
IsOrdered-if false m n ph h k = k

module _ {A B : Type 0} (ph : Phase) where
  pub IsOrdered-result :
      (r : Result A) (f : A → Prog B) (g : Error → Prog B)
      → ((a : A) → IsOrdered (f a) ph)
      → ((e : Error) → IsOrdered (g e) ph)
      → IsOrdered (elim r [ ok a ↦ f a | err e ↦ g e ]) ph
  IsOrdered-result (ok a) f g h k = h a
  IsOrdered-result (err e) f g h k = k e
