-- ===== src/RuntimeLease/Changes.antt =====
-- src/runtime/runtimeLease.ts: each operation on the lease file and on the guard, and the death of a
-- process, keep what the live processes count on.
use kubus_node.Base.{
  ℕ, ◌≡◌, refl, subst, ◌≢◌, inl, inr, Bool, true, false, Option, none, some, arith, ◌==◌,
  if◌then◌else◌, if-both, Bool-cases, text_key, number_key, string_key,
}
use kubus_node.RuntimeLease.Machine.{
  Phase, aborting, idle, holding, releasing, ended, trying, found, claiming, inspecting, unlinking,
  leaving, judging, checking, World, update, go, try_link, try_claim, unlink_stale,
}
use kubus_node.RuntimeLease.Claims.{
  Holds, IsSound, same_files, others_kept, go-IsSound, after_link, after_claim, after_unlink,
  after_leave, after_release,
}

pub option-both {ℓ} :
    {A : Type ℓ} {B : Type 0} (P : B → Type 0) (x : Option A) (b : B) (f : A → B)
    → (x ≡ none → P b)
    → ((v : A) → x ≡ some v → P (f v))
    → P (elim x [ none ↦ b | some v ↦ f v ])
option-both P none b f h k = h refl
option-both P (some v) b f h k = k v refl

pub bool-both :
    {B : Type 0} (P : B → Type 0) (b : Bool) (x y : B)
    → (b ≡ true → P x)
    → (b ≡ false → P y)
    → P (if b then x else y)
bool-both P true x y h k = h refl
bool-both P false x y h k = k refl

module _ (w : World) (p : ℕ) (sound : IsSound w) where
  pub try_link-IsSound : (n : ℕ) → IsSound (try_link p n w)
  try_link-IsSound n =
      option-both IsSound w.lease (go p holding (record w { lease = some p }))
        (λ q. go p (found n) w)
        (λ free.
          others_kept w (go p holding (record w { lease = some p })) p holding refl refl sound refl
            (λ r apart lives h.
              same_files (record w { lease = some p }) (go p holding (record w { lease = some p }))
                r (w.phase r) refl refl refl (after_link w p r (w.phase r) free h)))
        (λ q here. go-IsSound w p (found n) sound tt)

  pub try_claim-IsSound : (n : ℕ) → IsSound (try_claim p n w)
  try_claim-IsSound n =
      option-both IsSound w.reaper (go p (inspecting n) (record w { reaper = some p }))
        (λ q. go p ended w)
        (λ free.
          others_kept w (go p (inspecting n) (record w { reaper = some p })) p (inspecting n) refl
            refl sound refl
            (λ r apart lives h.
              same_files (record w { reaper = some p })
                (go p (inspecting n) (record w { reaper = some p })) r (w.phase r) refl refl refl
                (after_claim w p r (w.phase r) free h)))
        (λ q here. go-IsSound w p ended sound tt)

  pub leave-IsSound :
      w.reaper ≡ some p
      → (phase : Phase) → Holds (go p phase (record w { reaper = none })) p phase
      → IsSound (go p phase (record w { reaper = none }))
  leave-IsSound guard phase own =
      others_kept w (go p phase (record w { reaper = none })) p phase refl refl sound own
        (λ r apart lives h.
          same_files (record w { reaper = none }) (go p phase (record w { reaper = none })) r
            (w.phase r) refl refl refl (after_leave w p r (w.phase r) apart guard h))

  pub unlink_stale-IsSound :
      (n q : ℕ)
      → w.reaper ≡ some p
      → w.lease ≡ some q
      → w.alive q ≡ false
      → IsSound (unlink_stale p n w)
  unlink_stale-IsSound n q guard here dead =
      option-both IsSound w.lease (go p aborting w)
        (λ o. go p (leaving n) (record w { lease = none })) (λ gone. absurd (ground (arith, here)))
        (λ o there.
          others_kept w (go p (leaving n) (record w { lease = none })) p (leaving n) refl refl sound
            guard
            (λ r apart lives h.
              same_files (record w { lease = none }) (go p (leaving n) (record w { lease = none }))
                r (w.phase r) refl refl refl
                (after_unlink w p r (w.phase r) q apart lives guard here dead h)))

  pub release-IsSound :
      w.alive p ≡ true
      → w.lease ≡ some p
      → ((r n : ℕ) → w.alive r ≡ true → w.phase r ≢ checking n p)
      → IsSound (go p ended (record w { lease = none }))
  release-IsSound lives mine calm =
      others_kept w (go p ended (record w { lease = none })) p ended refl refl sound tt
        (λ r apart living h.
          same_files (record w { lease = none }) (go p ended (record w { lease = none })) r
            (w.phase r) refl refl refl
            (after_release w p r (w.phase r) apart lives mine
              (λ n q at same.
                calm r n living (subst {A = ℕ} (λ o. w.phase r ≡ checking n o) same at))
              h))

alive-update : (p r : ℕ) (alive : ℕ → Bool) → update p false alive r ≡ true → alive r ≡ true
alive-update p r alive h = elim (Bool-cases (r == p)) [
  | inl here ↦ ground (arith, subst {A = Bool} (λ b. (if b then false else alive r) ≡ true) here h)
  | inr apart ↦ subst {A = Bool} (λ b. (if b then false else alive r) ≡ true) apart h
]

update-dead : (p q : ℕ) (alive : ℕ → Bool) → alive q ≡ false → update p false alive q ≡ false
update-dead p q alive h = if-both (λ b. b ≡ false) (q == p) refl h

-- The death of a process leaves the others what they count on.
crash-Holds :
    (w : World) (p r : ℕ) (phase : Phase)
    → Holds w r phase
    → Holds (record w { alive = update p false w.alive }) r phase
crash-Holds w p r (unlinking n) h = (h.0, h.1, h.2, update-dead p h.1 w.alive h.3)
crash-Holds w p r holding h = h
crash-Holds w p r releasing h = h
crash-Holds w p r (inspecting n) h = h
crash-Holds w p r (checking n q) h = h
crash-Holds w p r (leaving n) h = h
crash-Holds w p r aborting h = h
crash-Holds w p r idle h = tt
crash-Holds w p r ended h = tt
crash-Holds w p r (trying n) h = tt
crash-Holds w p r (found n) h = tt
crash-Holds w p r (judging n q) h = tt
crash-Holds w p r (claiming n) h = tt

pub crash-IsSound :
    (w : World) (p : ℕ) → IsSound w → IsSound (record w { alive = update p false w.alive })
crash-IsSound w p sound r lives =
    crash-Holds w p r (w.phase r) (sound r (alive-update p r w.alive lives))
