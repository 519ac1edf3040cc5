-- ===== src/RuntimeLease/Tests.antt =====
-- Tests of the runtime lease (src/runtime/runtimeLease.ts), and the properties at concrete runs.
use kubus_node.Base.{
  ℕ, ◌≡◌, refl, ap, Bool, true, false, not, ◌&&◌, none, some, List, [], ◌∷◌, arith, ◌==◌,
  if◌then◌else◌, text_key, number_key, string_key,
}
use kubus_node.RuntimeLease.{System, Owner, stopped, proven_stopped, signalled, no_such_process}
use kubus_node.RuntimeLease.Machine.{
  Phase, holding, releasing, ended, World, Event, starts, acts, releases, crashes, step, run,
  fresh_world,
}
use kubus_node.RuntimeLease.Truth.{IsTruthful}
use kubus_node.RuntimeLease.Exclusive.{IsCalm, IsCalmRun, run-IsExclusive}

machine : Unit {0}
unfolding run stopped proven_stopped
machine = tt

abbrev owner_of : ℕ → Owner
owner_of q = record {
  pid = q;
  host = "node";
  namespace = "pid:[1]";
  boot = some "boot";
  process_start = some "100";
}

abbrev system : System
system = record {
  owner = owner_of;
  probe = λ alive pid. if alive pid then signalled else no_such_process;
  live_start = λ alive pid. some "100";
}

system-IsTruthful : IsTruthful system
system-IsTruthful alive p q lives same =
    (refl, λ here. (rw lives (λ (e : signalled ≡ no_such_process). ground (e, arith)), refl))

-- The lease of process 9, which is dead, is left.
abbrev left_over : World
left_over = record fresh_world { lease = some 9; alive = λ p. not (p == 9) }

-- Process 1 reclaims it and links its own; process 2 then finds it taken.
abbrev reclaimed : List Event
reclaimed =
    starts 1
    ∷ acts 1
    ∷ acts 1
    ∷ acts 1
    ∷ acts 1
    ∷ acts 1
    ∷ acts 1
    ∷ acts 1
    ∷ acts 1
    ∷ acts 1
    ∷ starts 2
    ∷ acts 2
    ∷ acts 2
    ∷ acts 2
    ∷ []

abbrev is_releasing : Phase → Bool
is_releasing releasing = true
is_releasing _ = false

-- A run in which no step unlinks the caller's own lease is calm.
abbrev keeps : World → Event → Bool
keeps w (acts p) = not (is_releasing (w.phase p))
keeps w _ = true

abbrev all_keep : World → List Event → Bool
all_keep w [] = true
all_keep w (event ∷ events) = keeps w event && all_keep (step system w event) events

keeps-IsCalm : (w : World) (event : Event) → keeps w event ≡ true → IsCalm w event
keeps-IsCalm w (acts p) h = λ r n lives at now. ground (arith, h, ap is_releasing now)
keeps-IsCalm w (starts p) h = tt
keeps-IsCalm w (releases p) h = tt
keeps-IsCalm w (crashes p) h = tt

all_keep-IsCalmRun :
    (w : World) (events : List Event) → all_keep w events ≡ true → IsCalmRun system w events
all_keep-IsCalmRun w [] h = tt
all_keep-IsCalmRun w (event ∷ events) h = (
  keeps-IsCalm w event (ground (arith, h)),
  all_keep-IsCalmRun (step system w event) events (ground (arith, h)),
)

taken :
    ((run system left_over reclaimed).phase 1 ≡ holding)
    × ((run system left_over reclaimed).phase 2 ≡ ended)
    × ((run system left_over reclaimed).reaper ≡ none)
unfolding machine
taken = (refl, refl, refl)

-- A lease that a reaper has read is released by its holder, who exits; a third process links its own
-- before the reaper has judged what it read, and loses it.
abbrev replaced : List Event
replaced =
    starts 2
    ∷ acts 2
    ∷ acts 2
    ∷ acts 2
    ∷ starts 1
    ∷ acts 1
    ∷ acts 1
    ∷ acts 1
    ∷ acts 1
    ∷ acts 1
    ∷ acts 1
    ∷ acts 1
    ∷ acts 1
    ∷ acts 1
    ∷ acts 2
    ∷ acts 2
    ∷ releases 1
    ∷ acts 1
    ∷ crashes 1
    ∷ starts 3
    ∷ acts 3
    ∷ acts 2
    ∷ acts 2
    ∷ starts 4
    ∷ acts 4
    ∷ []

stolen :
    ((run system left_over replaced).phase 3 ≡ holding)
    × ((run system left_over replaced).phase 4 ≡ holding)
    × ((run system left_over replaced).alive 3 ≡ true)
    × ((run system left_over replaced).alive 4 ≡ true)
unfolding machine
stolen = (refl, refl, refl, refl)

run-IsExclusive_example : (◌≡◌ {A = ℕ} 1 1) × ((run system left_over reclaimed).lease ≡ some 1)
unfolding machine
run-IsExclusive_example =
    run-IsExclusive system system-IsTruthful left_over reclaimed (λ p. refl)
      (all_keep-IsCalmRun left_over reclaimed refl) 1 1 refl refl refl refl
