-- ===== src/Mq/Backoff.antt =====
-- The connection loop of `NewRabbitPublisherWithRetry`, ingress-service/internal/mq/publisher.go: how
-- often it tries, and how long it sleeps.
use yunxiao_workflow_agent.Base.{
  zero, suc, [], List, ◌∷◌, length, ℕ, ◌+◌, ◌*◌, ◌%◌, ◌<◌, ◌≡◌, arith, refl, true, ltb, Option, ◌≤◌,
  ◌⊎◌, some, false, if◌then◌else◌, inl, inr, Bool-cases, leb, ap, ◌∙◌,
}
use yunxiao_workflow_agent.Base.Int.{
  pos, add_int64, mul_int64, two_63, two_64, signed, ℤ, negsuc, leb_ℤ,
}
use yunxiao_workflow_agent.Mq.Retry.{next_backoff, Connected, retry_from, slept}
use yunxiao_workflow_agent.Base.Result.{Result, ok, err}

-- Half the range of a duration: about 146 years.
abbrev pub two_62 : ℕ
two_62 = 4611686018427387904

small : (n : ℕ) → n < two_63 → signed (n % two_64) ≡ pos n
small n h = rw (mod_small) (rw (below) refl)
  where
    mod_small : n % two_64 ≡ n
    mod_small = omega (arith, h)

    below : ltb n two_63 ≡ true
    below = ground (arith, h)

add_small : (a b : ℕ) → a + b < two_63 → add_int64 (pos a) (pos b) ≡ pos (a + b)
unfolding add_int64
add_small a b h = rw (same) (small (a + b) h)
  where
    same : (a % two_64 + b % two_64) % two_64 ≡ (a + b) % two_64
    same = omega (arith, h)

double_small : (a : ℕ) → a < two_62 → mul_int64 (pos a) (pos 2) ≡ pos (a * 2)
unfolding mul_int64
double_small a h = rw (same) (small (a * 2) (omega (arith, h)))
  where
    same : a % two_64 * 2 % two_64 ≡ a * 2 % two_64
    same = omega (arith, h)

-- The time slept, and how often. Sleeps are never negative here.
abbrev pub slept_time : List ℤ → ℕ
slept_time [] = 0
slept_time (pos n ∷ ss) = n + slept_time ss
slept_time (negsuc n ∷ ss) = slept_time ss

abbrev pub AllWithin : ℕ → List ℤ → Type 0
AllWithin most [] = Unit
AllWithin most (pos n ∷ ss) = (1 ≤ n) × (n ≤ most) × AllWithin most ss
AllWithin most (negsuc n ∷ ss) = ⊥

next_backoff_lem :
    (b most : ℕ)
    → b < two_62
    → 1 ≤ b
    → 1 ≤ most
    → (n : ℕ) × (next_backoff (pos b) (pos most) ≡ pos n) × (1 ≤ n) × (n ≤ most)
unfolding next_backoff
next_backoff_lem b most small_b positive_b positive_most =
    rw (double_small b small_b) (choose (Bool-cases (ltb most (b * 2))))
  where
    choose :
        (ltb most (b * 2) ≡ true) ⊎ (ltb most (b * 2) ≡ false)
        → (n : ℕ) × ((if ltb most (b * 2) then pos most else pos (b * 2)) ≡ pos n)
          × (1 ≤ n)
          × (n ≤ most)
    choose (inl more) = rw more (most, refl, positive_most, ground arith)
    choose (inr less) = rw less (b * 2, refl, omega (arith, positive_b), ground (arith, less))

module _ {A : Type 0} (connect : ℕ → Result A) (most wait : ℕ) where
  -- The loop, after `attempt` failures and `waited` nanoseconds of sleep, ends: with the result of the
  -- attempt after all the sleeps, having slept less than the limit.
  abbrev pub Settles : ℕ → ℕ → ℕ → Option (Connected A) → Type 0
  Settles longest attempt waited result =
      (c : Connected A) × (result ≡ some c)
      × (c.outcome ≡ connect (attempt + length c.sleeps))
      × (waited + slept_time c.sleeps < wait)
      × AllWithin longest c.sleeps

  -- The limits are positive, and doubling a backoff or adding it to what was slept stays in range.
  module _ (most_positive : 1 ≤ most) (most_small : most < two_62) (wait_small : wait < two_62)
      (longest : ℕ) (most_longest : most ≤ longest) (longest_small : longest < two_62) where
    -- One more attempt, once the rest of the loop is known.
    attempt-Settles :
        (attempt b waited : ℕ) (total : ℤ) (r : Result A) (rest : Option (Connected A))
        → total ≡ pos (waited + b)
        → r ≡ connect attempt
        → 1 ≤ b
        → b ≤ longest
        → waited < wait
        → (waited + b < wait → Settles longest (suc attempt) (waited + b) rest)
        → Settles longest attempt waited (elim r [
          | ok publisher ↦ some (record { outcome = ok publisher; sleeps = [] })
          | err e ↦
              if leb_ℤ (pos wait) total
              then some (record { outcome = err e; sleeps = [] })
              else slept (pos b) rest
        ])
    attempt-Settles attempt b waited total (ok publisher) rest sum same positive within before
          go_on =
        (_, refl, (rw (same) (ap connect (omega arith))), (omega (arith, before)), tt)
    attempt-Settles attempt b waited total (err e) rest sum same positive within before go_on =
        rw sum (elim (Bool-cases (leb wait (waited + b))) [
          | inl over ↦
              rw over (_, refl, (rw (same) (ap connect (omega arith))), (omega (arith, before)), tt)
          | inr under ↦ rw under (
              let (c, settled, outcome, time, all) = go_on (ground (arith, under)) in
              rw settled (
                _,
                refl,
                (outcome ∙ ap connect (omega arith)),
                (omega (arith, time)),
                (positive, within, all),
              ))
        ])

    pub retry_from-Settles :
        (fuel attempt b waited : ℕ)
        → 1 ≤ b
        → b ≤ longest
        → waited < wait
        → wait < fuel + waited
        → Settles longest attempt waited
            (retry_from connect (pos most) (pos wait) fuel attempt (pos b) (pos waited))
    unfolding retry_from
    retry_from-Settles zero attempt b waited positive within before enough =
        absurd (omega (arith, before, enough))
    retry_from-Settles (suc fuel) attempt b waited positive within before enough =
        let (n, next, n_positive, n_most) =
          next_backoff_lem b most (omega (arith, within, longest_small)) positive most_positive in
        let sum = add_small waited b (omega (arith, before, wait_small, within, longest_small)) in
        attempt-Settles attempt b waited _ (connect attempt) _ sum refl positive within before
          (λ under.
            rw (sum, next)
              (retry_from-Settles fuel (suc attempt) n (waited + b) n_positive
                (omega (arith, n_most, most_longest)) under (omega (arith, enough, positive))))
