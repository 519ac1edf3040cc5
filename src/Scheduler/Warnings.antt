-- ===== src/Scheduler/Warnings.antt =====
-- src/scheduler/loops.ts: how often a failing loop writes a warning.
use kubus_node.Base.{
  ℕ, ◌+◌, ◌≤◌, ◌<◌, String, ◌≡◌, refl, inl, inr, Bool, true, false, List, [], ◌∷◌, ◌++◌, arith,
  Bool-cases, any, All, text_key, number_key, string_key,
}
use kubus_node.Scheduler.{
  failure, Described, is_action_lock_contention, TaskEnd, done, threw, LogLine, recovered, skipped,
  warned, Loop, Round, tells, tick_failed, tick, run_loop,
}

abbrev pub is_warning : LogLine → Bool
is_warning (warned described consecutive_failures next_retry_ms) = true
is_warning (recovered consecutive_failures) = false
is_warning (skipped described) = false

abbrev pub IsThrow : TaskEnd → Type 0
IsThrow done = ⊥
IsThrow (threw described) = Unit

-- The loop is failing, and has written a warning at the time.
abbrev pub Failing : ℕ → Loop → Type 0
Failing at loop = (1 ≤ loop.consecutive_failures) × (loop.last_failure_logged_at ≡ at)

module _ (includes : String → String → Bool) (interval at : ℕ) where
  tick-quiet :
      (round : Round) (described : Described) (loop : Loop)
      → round.now < at + interval
      → Failing at loop
      → (any is_warning (tick includes interval round (threw described) loop).logged ≡ false)
        × Failing at (tick includes interval round (threw described) loop).loop
  unfolding tick tick_failed failure
  tick-quiet round described loop early (failing, logged) =
      elim (Bool-cases (is_action_lock_contention includes described)) [
        | inl held ↦ rw (held, tick) (refl, (failing, logged))
        | inr other ↦
            elim (Bool-cases
              (tells includes interval (loop.consecutive_failures + 1) round.now loop)) [
                | inl told ↦ absurd (ground arith)
                | inr silent ↦ rw (other, silent, tick, tick_failed) (refl, (omega arith, logged))
              ]
      ]

any-append :
    (test : LogLine → Bool) (xs ys : List LogLine)
    → any test xs ≡ false
    → any test ys ≡ false
    → any test (xs ++ ys) ≡ false
any-append test [] ys h k = k
any-append test (x ∷ xs) ys h k = ground (arith, any-append test xs ys)

-- Once a failing loop has written a warning, it writes none before the summary interval is over,
-- however many rounds fail or find the lock taken in between; and it counts as failing all the while.
pub run_loop-quiet :
    (includes : String → String → Bool) (interval at : ℕ) (rounds : List (Round × TaskEnd))
    (loop : Loop)
    → All (λ r. (r.0.now < at + interval) × IsThrow r.1) rounds
    → 1 ≤ loop.consecutive_failures
    → loop.last_failure_logged_at ≡ at
    → (any is_warning (run_loop includes interval rounds loop).1 ≡ false)
      × Failing at (run_loop includes interval rounds loop).0
unfolding run_loop
run_loop-quiet includes interval at [] loop h failing logged = (refl, (failing, logged))
run_loop-quiet includes interval at ((round, done) ∷ rounds) loop h failing logged = absurd h.0.1
run_loop-quiet includes interval at ((round, threw described) ∷ rounds) loop h failing logged =
    let (silent, still) =
      tick-quiet includes interval at round described loop h.0.0 (failing, logged) in
    let rest =
      run_loop-quiet includes interval at rounds
        (tick includes interval round (threw described) loop).loop h.1 still.0 still.1 in
    (
      any-append is_warning (tick includes interval round (threw described) loop).logged
          (run_loop includes interval rounds
            (tick includes interval round (threw described) loop).loop).1
          silent rest.0,
      rest.1,
    )
