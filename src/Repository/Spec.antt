-- ===== src/Repository/Spec.antt =====
-- What the ingress service asks of the store of events in
-- ingress-service/internal/repository/event_repository.go, without tables: two maps.
use yunxiao_workflow_agent.Base.{
  String, Bool, true, false, ◌==◌, ◌||◌, Option, none, some, List, [], ◌∷◌, if◌then◌else◌, not, ℕ,
}
use yunxiao_workflow_agent.Model.{NormalizedEvent}

-- The raw events there are, the id of the event with a dedup key, and the publication status of the
-- event with an id.
pub record Store : Type 0 where
  pub raw_events : ℕ → Bool
  pub by_key : String → Option String
  pub status : String → Option String

pub data Op : Type 0 where
  save : NormalizedEvent → ℕ → Op
  find : String → Op
  mark_published mark_failed : String → Op

pub data Out : Type 0 where
  done duplicate missing : Out
  found : String → Out
  -- an error that is none of these
  broken : Out

abbrev pub is_some : Option String → Bool
is_some none = false
is_some (some _) = true

-- A map, changed at one key.
abbrev pub update : (String → Option String) → String → Option String → String → Option String
update m key value k = if key == k then value else m k

-- An event gets this status, if it is stored.
abbrev pub set_status : Store → String → String → Store
set_status s id status = record s {
  status =
      λ k. if id == k then (if is_some (s.status k) then some status else none) else s.status k;
}

abbrev or_missing : Option String → Out
or_missing none = missing
or_missing (some id) = found id

abbrev pub insert : String → String → Store → Store
insert event_id dedup_key s = record s {
  by_key = update s.by_key dedup_key (some event_id);
  status = update s.status event_id (some "pending");
}

-- Saving an event, where the store can hold it or not.
abbrev pub save_if : Bool → String → String → ℕ → Store → Out × Store
save_if holds event_id dedup_key raw_id s =
    if not holds
    then (broken, s)
    else if is_some (s.status event_id) || is_some (s.by_key dedup_key)
    then (duplicate, s)
    else if s.raw_events raw_id
    then (done, insert event_id dedup_key s)
    else (broken, s)

-- One operation, where the store can hold the events of `holds` only.
module _ (holds : NormalizedEvent → Bool) where
  abbrev pub step : Op → Store → Out × Store
  step (save e raw_id) s = save_if (holds e) e.event_id e.dedup_key raw_id s
  step (find key) s = (or_missing (s.by_key key), s)
  step (mark_published id) s = (done, set_status s id "published")
  step (mark_failed id) s = (done, set_status s id "failed")

  -- Any sequence of operations, with what they return.
  unfoldable pub steps : List Op → Store → List Out × Store
  steps [] s = ([], s)
  steps (op ∷ ops) s = let (out, t) = step op s in let (outs, u) = steps ops t in (out ∷ outs, u)
