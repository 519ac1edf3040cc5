-- ===== src/Scheduler/Tests.antt =====
-- src/scheduler: runs of a loop, and the theorems at concrete rounds.
use kubus_node.Base.{
  ℕ, ◌<◌, String, str_eq, ◌≡◌, refl, Bool, false, none, some, List, [], ◌∷◌, arith, any, text_key,
  number_key, string_key,
}
use kubus_node.Scheduler.{
  exponential, failure, Described, describe_loop_error, TaskEnd, threw, Loop, new_loop, Round, tick,
  tick_failed, run_loop, loop_max_backoff_ms, loop_failure_summary_interval_ms, start_action,
}
use kubus_node.Scheduler.Warnings.{is_warning, Failing, run_loop-quiet}
use kubus_node.Scheduler.Delays.{tick_failed_sooner}

loops : Unit {0}
unfolding exponential failure tick tick_failed run_loop
loops = tt

abbrev includes : String → String → Bool
includes text part = str_eq text part

abbrev offline : Described
offline =
    describe_loop_error ""
      (record { code = none; status = none; status_code = some 503; message = "offline" })

abbrev held : Described
held = record { code = none; status = some 409; message = "Action already running" }

abbrev round_at : ℕ → Round
round_at now = record { healthy_ms = 5000; scale = λ x. x; now = now }

abbrev failing_loop : Loop
failing_loop =
    (run_loop includes loop_failure_summary_interval_ms ((round_at 100000, threw offline) ∷ [])
      (new_loop 5000 60000)).0

abbrev rounds : List (Round × TaskEnd)
rounds =
    (round_at 110000, threw offline)
    ∷ (round_at 120000, threw held)
    ∷ (round_at 130000, threw offline)
    ∷ []

-- Three failures in a row, and a taken lock that does not count.
counted :
    ((run_loop includes loop_failure_summary_interval_ms rounds failing_loop).0.consecutive_failures
      ≡ 3)
    × ((tick includes 60000 (round_at 0) (threw offline) failing_loop).delay_ms ≡ 10000)
    × (start_action "repair" 1 (record { current_action = some "sync"; started_at = some 0 })
        ≡ none)
unfolding loops
counted = (refl, refl, refl)

run_loop-quiet_example :
    (any is_warning (run_loop includes loop_failure_summary_interval_ms rounds failing_loop).1
      ≡ false)
    × Failing 100000 (run_loop includes loop_failure_summary_interval_ms rounds failing_loop).0
unfolding loops
run_loop-quiet_example =
    run_loop-quiet includes loop_failure_summary_interval_ms 100000 rounds failing_loop
      ((omega arith, tt), ((omega arith, tt), ((omega arith, tt), tt))) (omega arith) refl

abbrev slow_round : Round
slow_round = record { healthy_ms = 300000; scale = λ x. x; now = 1000000 }

tick_failed_sooner_example :
    (tick includes 60000 slow_round (threw offline) (new_loop 300000 loop_max_backoff_ms)).delay_ms
    < 300000
tick_failed_sooner_example =
    tick_failed_sooner includes 60000 300000 slow_round offline
      (new_loop 300000 loop_max_backoff_ms) refl refl (omega arith) (omega arith)
      (λ x. (omega arith, omega arith))
