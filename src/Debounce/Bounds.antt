-- ===== src/Debounce/Bounds.antt =====
-- The moving average and the debounce time.
use bashpp.Prelude.{
  ℕ, ◌+◌, ◌*◌, ◌/◌, ◌≤◌, ◌<◌, ◌≡◌, ◌≢◌, ◌⊎◌, inl, inr, arith, min, max, ltb, Bool-cases,
}
use bashpp.Debounce.{new_average, new_debounce_time}

-- From an average of 0, as for a file that was never parsed again, the new average is the new duration.
-- From any other, unless the sum wraps around, it lies between the old one and the new duration, and is
-- the old one moved by a quarter of the way to the new duration, rounded down.
pub new_average-quarter :
    (previous duration : ℕ)
    → previous ≢ 0
    → previous * 3 + duration < 18446744073709551616
    → (new_average 0 duration ≡ duration)
      × (min previous duration ≤ new_average previous duration)
      × (new_average previous duration ≤ max previous duration)
      × (new_average previous duration * 4 ≤ previous * 3 + duration)
      × (previous * 3 + duration < new_average previous duration * 4 + 4)
unfolding new_average
new_average-quarter previous duration ne h = ground arith

-- For averages below 2^32 milliseconds, the debounce time is 1000 milliseconds from an average of 1.2
-- seconds on, and below that 100 and three quarters of the average's milliseconds, rounded down; so it
-- is never below 100, and a shorter average gives no longer time.
pub new_debounce_time-formula :
    (shorter average : ℕ)
    → shorter ≤ average
    → average < 4294967296000
    → (((1200 ≤ average / 1000) × (new_debounce_time average ≡ 1000))
        ⊎ ((average / 1000 < 1200)
            × (new_debounce_time average * 4 ≤ 400 + 3 * (average / 1000))
            × (400 + 3 * (average / 1000) < new_debounce_time average * 4 + 4)))
      × (100 ≤ new_debounce_time average)
      × (new_debounce_time shorter ≤ new_debounce_time average)
unfolding new_debounce_time
new_debounce_time-formula shorter average le h = (
  elim (Bool-cases (ltb (average / 1000) 1200)) [
    | inl t ↦ inr (ground arith)
    | inr t ↦ inl (ground arith)
  ],
  ground arith,
  ground arith,
)
