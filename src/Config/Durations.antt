-- ===== src/Config/Durations.antt =====
-- `getEnvDurationSeconds` of ingress-service/internal/config/config.go: seconds in an `int64` of
-- nanoseconds.
use yunxiao_workflow_agent.Base.{
  ℕ, ◌*◌, ◌%◌, ◌<◌, ◌≤◌, ◌≡◌, ◌↔◌, arith, refl, some, true, false, ltb, inl, inr, Bool-cases,
  String, ap, ◌∙◌, sym,
}
use yunxiao_workflow_agent.Base.Int.{ℤ, pos, mul_int64, two_63, two_64, signed, is_positive}
use yunxiao_workflow_agent.Base.Text.{atoi, is_empty}
use yunxiao_workflow_agent.Mq.Retry.{second}
use yunxiao_workflow_agent.Config.{Getenv, get_env_duration_seconds}

signed_bound : (r y : ℕ) → signed r ≡ pos y → y < two_63
signed_bound r y e = elim (Bool-cases (ltb r two_63)) [
  | inl below ↦ bound below (rw below at e)
  | inr above ↦ absurd (cc (rw above at e))
]
  where
    bound : ltb r two_63 ≡ true → pos r ≡ pos y → y < two_63
    bound below same = ground (arith, below, pos_inj same)
      where
        pos_inj : pos r ≡ pos y → r ≡ y
        pos_inj h = cc h

signed_small : (n : ℕ) → n < two_63 → signed (n % two_64) ≡ pos n
signed_small n h = rw (reduced) (rw (below) refl)
  where
    reduced : n % two_64 ≡ n
    reduced = omega (arith, h)

    below : ltb n two_63 ≡ true
    below = ground (arith, h)

product : (n : ℕ) → n < two_63 → mul_int64 (pos n) (pos second) ≡ signed (n * second % two_64)
unfolding mul_int64
product n h = ap signed (omega (arith, h))

-- What is read as a number is not empty.
number_is_filled : (s : String) (z : ℤ) → atoi s ≡ some z → is_empty s ≡ false
unfolding atoi
number_is_filled String.[] z h = absurd (cc h)
number_is_filled (String.◌∷◌ c s) z h = refl

positive-pos : (n : ℕ) → 1 ≤ n → is_positive (pos n) ≡ true
positive-pos ℕ.zero h = absurd (omega (arith, h))
positive-pos (ℕ.suc n) h = refl

-- Where the variable holds a positive number of seconds, the duration is this many seconds exactly
-- when there are at most 9223372036 of them. A larger number gives another duration.
pub get_env_duration_seconds-exact_iff :
    (getenv : Getenv) (key : String) (fallback : ℤ) (n : ℕ)
    → atoi (getenv key) ≡ some (pos n)
    → 1 ≤ n
    → n < two_63
    → (get_env_duration_seconds getenv key fallback ≡ pos (n * second)) ↔ (n ≤ 9223372036)
unfolding get_env_duration_seconds
get_env_duration_seconds-exact_iff getenv key fallback n number positive fits =
    rw (number_is_filled (getenv key) (pos n) number, number, positive-pos n positive)
      (
        (λ e. omega (arith, signed_bound _ _ (sym (product n fits) ∙ e))),
        (λ small. product n fits ∙ signed_small (n * second) (omega (arith, small))),
      )
