-- ===== src/Scheduler.antt =====
-- src/scheduler/backoff.ts, src/scheduler/loops.ts (`runResilientLoop`) and
-- src/runtime/actionLock.ts: the loops that keep the node going, and the lock that they share.
pub mod Delays
pub mod Warnings
pub mod Tests
use kubus_node.Base.{
  ℕ, zero, suc, ◌+◌, ◌-◌, ◌*◌, ◌/◌, ◌%◌, ◌^◌, ◌≤◌, ◌<◌, min, max, bit_and, bit_or, bit_xor, String,
  str_eq, starts_with, eq_iff, eq_refl, ◌≡◌, refl, sym, ap, ap₂, ◌∙◌, subst, ◌≡⟨◌⟩◌, ◌∎, ◌≢◌, ◌↔◌,
  ◌⊎◌, inl, inr, Bool, true, false, not, ◌&&◌, ◌||◌, Option, none, some, List, [], ◌∷◌, ◌++◌, map,
  map-append, append-nil, append_assoc, arith, ltb, leb, ◌==◌, if◌then◌else◌, if-both, ltb→lt,
  lt→ltb, le→ltb, leb→le, ==_iff, Bool-cases, Option-cases, is_some, length, get_or, take, drop,
  concat, every, any, All, length-append, length-take, length-drop, take-append-drop, take-append,
  drop-append, All-append, drop-drop, concat-append, Text, units, same_text, same_text_iff,
  begins_with, is_space, holds_unit, cut_unique, text_key, number_key, string_key, Dict, Key, get,
  put, remove, has, get-put, get-put_self, get-put_ne, get-remove, get-remove_self, get-remove_ne,
  length-put, length-remove, Values, Values-put, Values-remove, Values-get,
}

-- Back-off: `attempt` counts the failures since the last success.
pub record Backoff : Type 0 where
  pub attempt : ℕ
  pub base_ms : ℕ
  pub max_ms : ℕ

abbrev pub new_backoff : ℕ → ℕ → Backoff
new_backoff base_ms max_ms = record { attempt = 0; base_ms = base_ms; max_ms = max_ms }

abbrev pub success : Backoff → Backoff
success backoff = record backoff { attempt = 0 }

-- The delay before the random factor, at an attempt.
unfoldable pub exponential : Backoff → ℕ
exponential backoff = min backoff.max_ms (backoff.base_ms * 2 ^ min (backoff.attempt - 1) 8)

-- `scale x` is `Math.round(x * (0.75 + Math.random() * 0.5))`.
unfoldable pub failure : (ℕ → ℕ) → Backoff → Backoff × ℕ
unfolding exponential
failure scale backoff =
    let next = record backoff { attempt = backoff.attempt + 1 } in (next, scale (exponential next))

abbrev pub loop_max_backoff_ms : ℕ
loop_max_backoff_ms = 60000

abbrev pub loop_failure_summary_interval_ms : ℕ
loop_failure_summary_interval_ms = 60000

-- What a loop reads of an error.
pub record LoopError : Type 0 where
  pub code : Option String
  pub status : Option ℕ
  pub status_code : Option ℕ
  pub message : String

pub record Described : Type 0 where
  pub code : Option String
  pub status : Option ℕ
  pub message : String

abbrev pub either_status : Option ℕ → Option ℕ → Option ℕ
either_status (some status) status_code = some status
either_status none status_code = status_code

-- An empty message is falsy; `fallback` is the text of the error itself.
abbrev pub describe_loop_error : String → LoopError → Described
describe_loop_error fallback error = record {
  code = error.code;
  status = either_status error.status error.status_code;
  message = if str_eq error.message "" then fallback else error.message;
}

abbrev pub is_conflict : Option ℕ → Bool
is_conflict none = false
is_conflict (some status) = status == 409

-- `includes` is `String.prototype.includes`.
abbrev pub is_action_lock_contention : (String → String → Bool) → Described → Bool
is_action_lock_contention includes described =
    is_conflict described.status && includes described.message "Action already running"

-- How a task ends: well, or with a described error.
pub data TaskEnd : Type 0 where
  done : TaskEnd
  threw : Described → TaskEnd

pub data LogLine : Type 0 where
  recovered : (consecutive_failures : ℕ) → LogLine
  skipped : Described → LogLine
  warned : Described → (consecutive_failures next_retry_ms : ℕ) → LogLine

-- The variables of the loop.
pub record Loop : Type 0 where
  pub backoff : Backoff
  pub consecutive_failures : ℕ
  pub last_failure_logged_at : ℕ

abbrev pub new_loop : ℕ → ℕ → Loop
new_loop interval_ms max_backoff_ms = record {
  backoff = new_backoff interval_ms max_backoff_ms;
  consecutive_failures = 0;
  last_failure_logged_at = 0;
}

-- The clock and the random numbers of one round: `healthy_ms` is `jitterMs(intervalMs)`.
pub record Round : Type 0 where
  pub healthy_ms : ℕ
  pub scale : ℕ → ℕ
  pub now : ℕ

-- What a round leaves: the variables, the delay of its `sleep` and what it logged.
pub record Ticked : Type 0 where
  pub loop : Loop
  pub delay_ms : ℕ
  pub logged : List LogLine

module _ (includes : String → String → Bool) (failure_summary_interval_ms : ℕ) where
  -- A failure is told of when it is the first of its row, or a summary is due.
  abbrev pub tells : ℕ → ℕ → Loop → Bool
  tells consecutive now loop =
      consecutive == 1 || leb (loop.last_failure_logged_at + failure_summary_interval_ms) now

  unfoldable pub tick_failed : Round → Described → Loop → Ticked
  unfolding failure
  tick_failed round described loop =
      let consecutive = loop.consecutive_failures + 1 in
      let failed = failure round.scale loop.backoff in
      if tells consecutive round.now loop
      then record {
        loop = record {
          backoff = failed.0;
          consecutive_failures = consecutive;
          last_failure_logged_at = round.now;
        };
        delay_ms = failed.1;
        logged = warned described consecutive failed.1 ∷ [];
      }
      else record {
        loop = record loop { backoff = failed.0; consecutive_failures = consecutive };
        delay_ms = failed.1;
        logged = [];
      }

  -- One round of the `while` loop.
  unfoldable pub tick : Round → TaskEnd → Loop → Ticked
  unfolding tick_failed
  tick round done loop = record {
    loop = record {
      backoff = success loop.backoff;
      consecutive_failures = 0;
      last_failure_logged_at = 0;
    };
    delay_ms = round.healthy_ms;
    logged =
        if ltb 0 loop.consecutive_failures then recovered loop.consecutive_failures ∷ [] else [];
  }
  tick round (threw described) loop =
      if is_action_lock_contention includes described
      then record { loop = loop; delay_ms = round.healthy_ms; logged = skipped described ∷ [] }
      else tick_failed round described loop

  -- Rounds in order, with all that they log.
  unfoldable pub run_loop : List (Round × TaskEnd) → Loop → Loop × List LogLine
  unfolding tick
  run_loop [] loop = (loop, [])
  run_loop ((round, ended) ∷ rounds) loop =
      let ticked = tick round ended loop in
      let rest = run_loop rounds ticked.loop in (rest.0, ticked.logged ++ rest.1)

-- `ActionLock`.
pub record ActionLock : Type 0 where
  pub current_action : Option String
  pub started_at : Option ℕ

abbrev pub is_busy : Option String → Bool
is_busy none = false
is_busy (some label) = not (str_eq label "")

-- The start of `run`; `none` where it throws 409. An empty label is falsy and locks nothing.
abbrev pub start_action : String → ℕ → ActionLock → Option ActionLock
start_action label now lock =
    if is_busy lock.current_action
    then none
    else some (record { current_action = some label; started_at = some now })

-- The `finally` of `run`.
abbrev pub end_action : ActionLock
end_action = record { current_action = none; started_at = none }
