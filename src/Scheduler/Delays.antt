-- ===== src/Scheduler/Delays.antt =====
-- src/scheduler/backoff.ts and loops.ts: how long a failing loop waits.
use kubus_node.Base.{
  ℕ, ◌+◌, ◌*◌, ◌≤◌, ◌<◌, String, ◌≡◌, refl, Bool, false, arith, if-both, text_key, number_key,
  string_key,
}
use kubus_node.Scheduler.{
  Backoff, exponential, failure, Described, is_action_lock_contention, Loop, Round, Ticked, tells,
  tick_failed, tick, threw, loop_max_backoff_ms,
}

-- The rounded product with a factor between 0.75 and 1.25.
abbrev pub IsJitter : (ℕ → ℕ) → ℕ → Type 0
IsJitter scale x = (3 * x ≤ 4 * scale x + 2) × (4 * scale x ≤ 5 * x + 2)

exponential-max : (backoff : Backoff) → exponential backoff ≤ backoff.max_ms
unfolding exponential
exponential-max backoff = omega arith

tick_failed-delay :
    (includes : String → String → Bool) (interval : ℕ) (round : Round) (described : Described)
    (loop : Loop)
    → (tick_failed includes interval round described loop).delay_ms
      ≡ round.scale (exponential (record loop.backoff { attempt = loop.backoff.attempt + 1 }))
unfolding tick_failed failure
tick_failed-delay includes interval round described loop =
    if-both
      (λ (t : Ticked).
        t.delay_ms
        ≡ round.scale (exponential (record loop.backoff { attempt = loop.backoff.attempt + 1 })))
      (tells includes interval (loop.consecutive_failures + 1) round.now loop) refl refl

-- A loop whose interval is 90 seconds or more waits less after a failure than after a success: the
-- ceiling of the back-off is one minute whatever the interval. (The random factor of the back-off is
-- between 0.75 and 1.25, the interval's is not below 0.85, and the error is no contention.)
pub tick_failed_sooner :
    (includes : String → String → Bool) (summary interval_ms : ℕ) (round : Round)
    (described : Described) (loop : Loop)
    → is_action_lock_contention includes described ≡ false
    → loop.backoff.max_ms ≡ loop_max_backoff_ms
    → 90000 ≤ interval_ms
    → 85 * interval_ms ≤ 100 * round.healthy_ms + 100
    → ((x : ℕ) → IsJitter round.scale x)
    → (tick includes summary round (threw described) loop).delay_ms < round.healthy_ms
unfolding tick
tick_failed_sooner includes summary interval_ms round described loop failure_of ceiling long healthy
      jitter =
    let next : Backoff = record loop.backoff { attempt = loop.backoff.attempt + 1 } in
    let low : exponential next ≤ loop.backoff.max_ms = exponential-max next in
    let factor : 4 * round.scale (exponential next) ≤ 5 * exponential next + 2 =
      (jitter (exponential next)).1 in
    let waits : (tick_failed includes summary round described loop).delay_ms
        ≡ round.scale (exponential next) =
      tick_failed-delay includes summary round described loop in
    rw (failure_of, tick, waits) (omega arith)
