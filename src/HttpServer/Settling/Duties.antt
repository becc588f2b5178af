-- ===== src/HttpServer/Settling/Duties.antt =====
-- Handlers of ingress-service/internal/httpserver/server.go that give the raw event that they store one process
-- status, which agrees with the answer, and touch no other raw event.
use yunxiao_workflow_agent.Base.{
  ◌∙◌, ap, ℕ, String, ◌≡◌, refl, Bool, true, false, List, [], ◌∷◌, if◌then◌else◌, ◌⊎◌, inl, inr,
  nat_beq, ◌==◌, ◌||◌,
}
use yunxiao_workflow_agent.Base.Text.{one_of}
use yunxiao_workflow_agent.Http.{Response}
use yunxiao_workflow_agent.Effects.{
  World, Call, Answer, exec, Prog, ret, call, ◌>>=◌, Environment, later,
}
use yunxiao_workflow_agent.Effects.Schema.{DbError, Reply, done, failed}
use yunxiao_workflow_agent.Effects.Draws.{Draws}

abbrev pub final_statuses : List String
final_statuses = "invalid_payload" ∷ "ignored" ∷ "normalized" ∷ "failed" ∷ []

-- The status codes of the answers that go with a process status.
abbrev pub agrees : String → ℕ → Bool
agrees status code =
    if status == "invalid_payload"
    then nat_beq code 400
    else if status == "ignored"
    then nat_beq code 202
    else if status == "normalized"
    then nat_beq code 200 || nat_beq code 202
    else if status == "failed"
    then nat_beq code 400 || nat_beq code 500
    else false

-- Nothing stored yet; the raw event with this id stored, without a status; this status given; the raw
-- event not stored, or not known to be.
pub data Duty : Type 0 where
  free : Duty
  owed : ℕ → Duty
  paid : String → Duty
  unsaved : Duty

abbrev pub IsSettling : Prog Response → Duty → Type 0
IsSettling (ret a) free = nat_beq a.status 202 ≡ false
IsSettling (ret a) (owed id) = ⊥
IsSettling (ret a) (paid status) = agrees status a.status ≡ true
IsSettling (ret a) unsaved = a.status ≡ 500
IsSettling (call (Call.raw_insert r) k) free =
    (r.process_status ≡ "received")
    × ((id : ℕ) → IsSettling (k (done id)) (owed id))
    × ((x : DbError) → IsSettling (k (failed x)) unsaved)
IsSettling (call (Call.raw_insert r) k) d = ⊥
IsSettling (call (Call.raw_status u) k) (owed id) =
    (u.id ≡ id)
    × (one_of final_statuses u.status ≡ true)
    × ((r : Reply Unit) → IsSettling (k r) (paid u.status))
IsSettling (call (Call.raw_status u) k) d = ⊥
IsSettling (call (Call.raw_meta u) k) (owed id) =
    (u.id ≡ id) × ((r : Reply Unit) → IsSettling (k r) (owed id))
IsSettling (call (Call.raw_meta u) k) d = ⊥
IsSettling (call c k) d = (r : Answer c) → IsSettling (k r) d

pub Draws-IsSettling :
    {A : Type 0} (m : Prog A) (f : A → Prog Response) (d : Duty)
    → Draws m
    → ((a : A) → IsSettling (f a) d)
    → IsSettling (m >>= f) d
Draws-IsSettling (ret a) f d h k = k a
Draws-IsSettling (call Call.new_uuid g) f d h k = λ u. Draws-IsSettling (g u) f d (h u) k
Draws-IsSettling (call c g) f d h k = absurd h

pub IsSettling-if :
    (b : Bool) (m n : Prog Response) (d : Duty)
    → IsSettling m d
    → IsSettling n d
    → IsSettling (if b then m else n) d
IsSettling-if true m n d h k = h
IsSettling-if false m n d h k = k

-- What a run does to the raw events: the ids that it stores, and the ids whose status it sets, with the
-- status, whether the update takes effect or not.
pub data Move : Type 0 where
  stored : ℕ → Move
  marked : ℕ → String → Move

abbrev noted : Reply ℕ → List Move → List Move
noted (done id) moves = stored id ∷ moves
noted (failed x) moves = moves

unfoldable pub moves : {A : Type 0} → Prog A → Environment → World → List Move
moves (ret a) env w = []
moves (call (Call.raw_insert r) k) env w =
    let (reply, v) = exec (Call.raw_insert r) (env 0) w in
    noted reply (moves (k reply) (later env) v)
moves (call (Call.raw_status u) k) env w =
    let (reply, v) = exec (Call.raw_status u) (env 0) w in
    marked u.id u.status ∷ moves (k reply) (later env) v
moves (call c k) env w = let (reply, v) = exec c (env 0) w in moves (k reply) (later env) v

-- What is left of the moves.
abbrev pub Owes : Duty → List Move → Type 0
Owes free ms =
    (ms ≡ [])
    ⊎ ((id : ℕ) × (status : String) × (ms ≡ stored id ∷ marked id status ∷ [])
        × (one_of final_statuses status ≡ true))
Owes (owed id) ms =
    (status : String) × (ms ≡ marked id status ∷ []) × (one_of final_statuses status ≡ true)
Owes (paid status) ms = ms ≡ []
Owes unsaved ms = ms ≡ []

inserted-Owes :
    (reply : Reply ℕ) (ms : List Move)
    → ((id : ℕ) → reply ≡ done id → Owes (owed id) ms)
    → ((x : DbError) → reply ≡ failed x → Owes unsaved ms)
    → Owes free (noted reply ms)
inserted-Owes (done id) ms h k =
    let (status, same, final) = h id refl in
    inr (id, status, ap (λ rest. stored id ∷ rest) same, final)
inserted-Owes (failed x) ms h k = inl (k x refl)

pub IsSettling-moves :
    (p : Prog Response) (d : Duty) (env : Environment) (w : World)
    → IsSettling p d
    → Owes d (moves p env w)
unfolding moves
IsSettling-moves (ret a) free env w h = inl refl
IsSettling-moves (ret a) (paid status) env w h = refl
IsSettling-moves (ret a) unsaved env w h = refl
IsSettling-moves (ret a) (owed id) env w h = absurd h
IsSettling-moves (call (Call.raw_insert r) k) free env w (_, h, g) =
    let reply = (exec (Call.raw_insert r) (env 0) w).0 in
    let v = (exec (Call.raw_insert r) (env 0) w).1 in
    inserted-Owes reply (moves (k reply) (later env) v)
      (λ id same. IsSettling-moves (k reply) (owed id) (later env) v (rw same (h id)))
      (λ x same. IsSettling-moves (k reply) unsaved (later env) v (rw same (g x)))
IsSettling-moves (call (Call.raw_insert r) k) (owed id) env w h = absurd h
IsSettling-moves (call (Call.raw_insert r) k) (paid status) env w h = absurd h
IsSettling-moves (call (Call.raw_insert r) k) unsaved env w h = absurd h
IsSettling-moves (call (Call.raw_status u) k) (owed id) env w (same, final, h) =
    let reply = (exec (Call.raw_status u) (env 0) w).0 in
    let v = (exec (Call.raw_status u) (env 0) w).1 in
    (
      u.status,
      ap (λ rest. marked u.id u.status ∷ rest)
            (IsSettling-moves (k reply) (paid u.status) (later env) v (h reply))
          ∙ ap (λ i. marked i u.status ∷ []) same,
      final,
    )
IsSettling-moves (call (Call.raw_status u) k) free env w h = absurd h
IsSettling-moves (call (Call.raw_status u) k) (paid status) env w h = absurd h
IsSettling-moves (call (Call.raw_status u) k) unsaved env w h = absurd h
IsSettling-moves (call (Call.raw_meta u) k) (owed id) env w (_, h) =
    IsSettling-moves (k (exec (Call.raw_meta u) (env 0) w).0) (owed id) (later env)
      (exec (Call.raw_meta u) (env 0) w).1 (h (exec (Call.raw_meta u) (env 0) w).0)
IsSettling-moves (call (Call.raw_meta u) k) free env w h = absurd h
IsSettling-moves (call (Call.raw_meta u) k) (paid status) env w h = absurd h
IsSettling-moves (call (Call.raw_meta u) k) unsaved env w h = absurd h
IsSettling-moves (call c k) d env w h =
    IsSettling-moves (k (exec c (env 0) w).0) d (later env) (exec c (env 0) w).1
      (h (exec c (env 0) w).0)
