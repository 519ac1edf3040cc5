-- ===== src/RuntimeLease/Exclusive.antt =====
-- src/runtime/runtimeLease.ts: one live process holds the lease.
use kubus_node.Base.{
  ℕ, zero, suc, ◌≡◌, refl, sym, ◌∙◌, subst, ◌≢◌, true, some, List, [], ◌∷◌, ◌==◌, if◌then◌else◌,
  text_key, number_key, string_key,
}
use mathlib.Core.Option.{some-injective}
use kubus_node.RuntimeLease.{System, stopped}
use kubus_node.RuntimeLease.Machine.{
  Phase, aborting, idle, holding, releasing, ended, trying, found, claiming, inspecting, unlinking,
  leaving, judging, checking, World, go, proceed, Event, starts, acts, releases, crashes,
  begin_acquire, begin_release, step, run,
}
use kubus_node.RuntimeLease.Claims.{Holds, IsSound, go-IsSound}
use kubus_node.RuntimeLease.Truth.{IsTruthful, stopped_sound}
use kubus_node.RuntimeLease.Changes.{
  option-both, bool-both, try_link-IsSound, try_claim-IsSound, leave-IsSound, unlink_stale-IsSound,
  release-IsSound, crash-IsSound,
}

-- No process is about to unlink the lease that a live reaper has read and now judges.
abbrev pub IsCalm : World → Event → Type 0
IsCalm w (acts p) = (r n : ℕ) → w.alive r ≡ true → w.phase r ≡ checking n p → w.phase p ≢ releasing
IsCalm w (starts p) = Unit
IsCalm w (releases p) = Unit
IsCalm w (crashes p) = Unit

module _ (system : System) where
  -- Every world of a run is calm for the event that follows.
  abbrev pub IsCalmRun : World → List Event → Type 0
  IsCalmRun w [] = Unit
  IsCalmRun w (event ∷ events) = IsCalm w event × IsCalmRun (step system w event) events

module _ (system : System) (truthful : IsTruthful system) where
  proceed-IsSound :
      (w : World) (p : ℕ) (phase : Phase)
      → w.phase p ≡ phase
      → w.alive p ≡ true
      → IsCalm w (acts p)
      → IsSound w
      → Holds w p phase
      → IsSound (proceed system p phase w)
  proceed-IsSound w p idle now lives calm sound h = sound
  proceed-IsSound w p holding now lives calm sound h = sound
  proceed-IsSound w p ended now lives calm sound h = sound
  proceed-IsSound w p (trying zero) now lives calm sound h = go-IsSound w p ended sound tt
  proceed-IsSound w p (trying (suc n)) now lives calm sound h = try_link-IsSound w p sound n
  proceed-IsSound w p (found n) now lives calm sound h =
      option-both IsSound w.lease (go p ended w) (λ q. go p (judging n q) w)
        (λ e. go-IsSound w p ended sound tt) (λ q e. go-IsSound w p (judging n q) sound tt)
  proceed-IsSound w p (judging n q) now lives calm sound h =
      bool-both IsSound (stopped system w.alive p q) (go p (claiming n) w) (go p ended w)
        (λ e. go-IsSound w p (claiming n) sound tt) (λ e. go-IsSound w p ended sound tt)
  proceed-IsSound w p (claiming n) now lives calm sound h = try_claim-IsSound w p sound n
  proceed-IsSound w p (inspecting n) now lives calm sound h =
      option-both IsSound w.lease (go p (leaving n) w) (λ q. go p (checking n q) w)
        (λ e. go-IsSound w p (leaving n) sound h)
        (λ q e. go-IsSound w p (checking n q) sound (h, e))
  proceed-IsSound w p (checking n q) now lives calm sound h =
      bool-both IsSound (stopped system w.alive p q) (go p (unlinking n) w) (go p (leaving n) w)
        (λ e.
          go-IsSound w p (unlinking n) sound
            (h.0, q, h.1, stopped_sound system w.alive p q truthful e))
        (λ e. go-IsSound w p (leaving n) sound h.0)
  proceed-IsSound w p (unlinking n) now lives calm sound h =
      unlink_stale-IsSound w p sound n h.1 h.0 h.2 h.3
  proceed-IsSound w p (leaving n) now lives calm sound h = leave-IsSound w p sound h (trying n) tt
  proceed-IsSound w p aborting now lives calm sound h = leave-IsSound w p sound h ended tt
  proceed-IsSound w p releasing now lives calm sound h =
      release-IsSound w p sound lives h (λ r n living at. calm r n living at now)

  starts-IsSound :
      (w : World) (p : ℕ) (phase : Phase) → IsSound w → IsSound (begin_acquire system p phase w)
  starts-IsSound w p idle sound = go-IsSound w p (trying 3) sound tt
  starts-IsSound w p holding sound = sound
  starts-IsSound w p ended sound = sound
  starts-IsSound w p releasing sound = sound
  starts-IsSound w p aborting sound = sound
  starts-IsSound w p (trying n) sound = sound
  starts-IsSound w p (found n) sound = sound
  starts-IsSound w p (claiming n) sound = sound
  starts-IsSound w p (inspecting n) sound = sound
  starts-IsSound w p (unlinking n) sound = sound
  starts-IsSound w p (leaving n) sound = sound
  starts-IsSound w p (judging n q) sound = sound
  starts-IsSound w p (checking n q) sound = sound

  releases-IsSound :
      (w : World) (p : ℕ) (phase : Phase)
      → IsSound w
      → Holds w p phase
      → IsSound (begin_release system p phase w)
  releases-IsSound w p holding sound h =
      option-both IsSound w.lease (go p ended w)
        (λ q. if q == p then go p releasing w else go p ended w)
        (λ e. go-IsSound w p ended sound tt)
        (λ q e.
          bool-both IsSound (q == p) (go p releasing w) (go p ended w)
            (λ b. go-IsSound w p releasing sound h) (λ b. go-IsSound w p ended sound tt))
  releases-IsSound w p idle sound h = sound
  releases-IsSound w p ended sound h = sound
  releases-IsSound w p releasing sound h = sound
  releases-IsSound w p aborting sound h = sound
  releases-IsSound w p (trying n) sound h = sound
  releases-IsSound w p (found n) sound h = sound
  releases-IsSound w p (claiming n) sound h = sound
  releases-IsSound w p (inspecting n) sound h = sound
  releases-IsSound w p (unlinking n) sound h = sound
  releases-IsSound w p (leaving n) sound h = sound
  releases-IsSound w p (judging n q) sound h = sound
  releases-IsSound w p (checking n q) sound h = sound

  step-IsSound :
      (w : World) (event : Event) → IsCalm w event → IsSound w → IsSound (step system w event)
  step-IsSound w (starts p) calm sound =
      bool-both IsSound (w.alive p) (begin_acquire system p (w.phase p) w) w
        (λ lives. starts-IsSound w p (w.phase p) sound) (λ dead. sound)
  step-IsSound w (acts p) calm sound =
      bool-both IsSound (w.alive p) (proceed system p (w.phase p) w) w
        (λ lives. proceed-IsSound w p (w.phase p) refl lives calm sound (sound p lives))
        (λ dead. sound)
  step-IsSound w (releases p) calm sound =
      bool-both IsSound (w.alive p) (begin_release system p (w.phase p) w) w
        (λ lives. releases-IsSound w p (w.phase p) sound (sound p lives)) (λ dead. sound)
  step-IsSound w (crashes p) calm sound = crash-IsSound w p sound

  run-IsSound :
      (w : World) (events : List Event)
      → IsCalmRun system w events
      → IsSound w
      → IsSound (run system w events)
  unfolding run
  run-IsSound w [] calm sound = sound
  run-IsSound w (event ∷ events) calm sound =
      run-IsSound (step system w event) events calm.1 (step-IsSound w event calm.0 sound)

  -- Whatever the calls of `acquireRuntimeLease` and `release` do, in whatever order, and whichever
  -- processes die on the way: two live processes that hold the lease are one, and the file names it.
  -- (No call has begun before; the two files may be left over. The system tells the truth of live
  -- processes, and no holder is about to unlink its lease while a live reaper, having read it under
  -- the guard, judges it.)
  pub run-IsExclusive :
      (w : World) (events : List Event)
      → ((p : ℕ) → w.phase p ≡ idle)
      → IsCalmRun system w events
      → (p r : ℕ) → (run system w events).alive p ≡ true
      → (run system w events).alive r ≡ true
      → (run system w events).phase p ≡ holding
      → (run system w events).phase r ≡ holding
      → (p ≡ r) × ((run system w events).lease ≡ some p)
  run-IsExclusive w events fresh calm p r here there mine theirs =
      let sound =
        run-IsSound w events calm (λ a lives. subst {A = Phase} (Holds w a) (sym (fresh a)) tt) in
      let own : (run system w events).lease ≡ some p =
        subst {A = Phase} (Holds (run system w events) p) mine (sound p here) in
      let other : (run system w events).lease ≡ some r =
        subst {A = Phase} (Holds (run system w events) r) theirs (sound r there) in
      (some-injective _ _ (sym own ∙ other), own)
