-- ===== src/RuntimeLease/Machine.antt =====
-- src/runtime/runtimeLease.ts, `acquireRuntimeLease` and `release`: the steps of each process on the
-- lease file and on the directory that guards a reclamation.
use kubus_node.Base.{
  ℕ, zero, suc, Bool, true, false, Option, none, some, List, [], ◌∷◌, ◌==◌, if◌then◌else◌, text_key,
  number_key, string_key,
}
use kubus_node.RuntimeLease.{System, stopped}

-- Where a process stands. A number is the attempts that are left, a second one the owner it read.
pub data Phase : Type 0 where
  idle holding releasing aborting ended : Phase
  trying found claiming inspecting unlinking leaving : (attempts : ℕ) → Phase
  judging checking : (attempts owner : ℕ) → Phase

pub record World : Type 0 where
  pub lease : Option ℕ
  pub reaper : Option ℕ
  pub phase : ℕ → Phase
  pub alive : ℕ → Bool

abbrev pub update {ℓ} : {A : Type ℓ} → ℕ → A → (ℕ → A) → ℕ → A
update p value f r = if r == p then value else f r

abbrev pub go : ℕ → Phase → World → World
go p phase w = record w { phase = update p phase w.phase }

-- `link`: fails where the file exists.
abbrev pub try_link : ℕ → ℕ → World → World
try_link p n w = elim w.lease [
  | none ↦ go p holding (record w { lease = some p })
  | some q ↦ go p (found n) w
]

-- `mkdir` of the guard: fails where it exists.
abbrev pub try_claim : ℕ → ℕ → World → World
try_claim p n w = elim w.reaper [
  | none ↦ go p (inspecting n) (record w { reaper = some p })
  | some q ↦ go p ended w
]

abbrev pub read_existing : ℕ → ℕ → World → World
read_existing p n w = elim w.lease [ none ↦ go p ended w | some q ↦ go p (judging n q) w ]

abbrev pub read_actual : ℕ → ℕ → World → World
read_actual p n w = elim w.lease [ none ↦ go p (leaving n) w | some q ↦ go p (checking n q) w ]

-- `release` reads the owner, and goes on if it is its own.
abbrev pub start_release : ℕ → World → World
start_release p w = elim w.lease [
  | none ↦ go p ended w
  | some q ↦ if q == p then go p releasing w else go p ended w
]

-- `unlink` of a reaper: fails where the file is gone.
abbrev pub unlink_stale : ℕ → ℕ → World → World
unlink_stale p n w = elim w.lease [
  | none ↦ go p aborting w
  | some q ↦ go p (leaving n) (record w { lease = none })
]

pub data Event : Type 0 where
  starts acts releases crashes : (process : ℕ) → Event

module _ (system : System) where
  -- The next step of a process, by where it stands.
  abbrev pub proceed : ℕ → Phase → World → World
  proceed p idle w = w
  proceed p holding w = w
  proceed p ended w = w
  proceed p (trying zero) w = go p ended w
  proceed p (trying (suc n)) w = try_link p n w
  proceed p (found n) w = read_existing p n w
  proceed p (judging n q) w =
      if stopped system w.alive p q then go p (claiming n) w else go p ended w
  proceed p (claiming n) w = try_claim p n w
  proceed p (inspecting n) w = read_actual p n w
  proceed p (checking n q) w =
      if stopped system w.alive p q then go p (unlinking n) w else go p (leaving n) w
  proceed p (unlinking n) w = unlink_stale p n w
  proceed p (leaving n) w = go p (trying n) (record w { reaper = none })
  proceed p aborting w = go p ended (record w { reaper = none })
  proceed p releasing w = go p ended (record w { lease = none })

  abbrev pub begin_acquire : ℕ → Phase → World → World
  begin_acquire p idle w = go p (trying 3) w
  begin_acquire p _ w = w

  abbrev pub begin_release : ℕ → Phase → World → World
  begin_release p holding w = start_release p w
  begin_release p _ w = w

  -- Only a process that is alive does anything.
  abbrev pub step : World → Event → World
  step w (starts p) = if w.alive p then begin_acquire p (w.phase p) w else w
  step w (acts p) = if w.alive p then proceed p (w.phase p) w else w
  step w (releases p) = if w.alive p then begin_release p (w.phase p) w else w
  step w (crashes p) = record w { alive = update p false w.alive }

  unfoldable pub run : World → List Event → World
  run w [] = w
  run w (event ∷ events) = run (step w event) events

abbrev pub fresh_world : World
fresh_world = record { lease = none; reaper = none; phase = λ p. idle; alive = λ p. true }
