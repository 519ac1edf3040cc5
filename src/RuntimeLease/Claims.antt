-- ===== src/RuntimeLease/Claims.antt =====
-- src/runtime/runtimeLease.ts: what a live process counts on, and what each change of the files leaves
-- of that to the others.
use kubus_node.Base.{
  ℕ, ◌≡◌, refl, sym, ap, ◌∙◌, subst, ◌≢◌, inl, inr, Bool, true, false, none, some, arith, ◌==◌,
  ==_iff, Bool-cases, text_key, number_key, string_key,
}
use mathlib.Core.Option.{some-injective}
use kubus_node.RuntimeLease.Machine.{
  Phase, aborting, idle, holding, releasing, ended, trying, found, claiming, inspecting, unlinking,
  leaving, judging, checking, World, update, go,
}

-- What a live process in a phase may count on.
abbrev pub Holds : World → ℕ → Phase → Type 0
Holds w p holding = w.lease ≡ some p
Holds w p releasing = w.lease ≡ some p
Holds w p (inspecting n) = w.reaper ≡ some p
Holds w p (checking n q) = (w.reaper ≡ some p) × (w.lease ≡ some q)
Holds w p (unlinking n) = (w.reaper ≡ some p) × (q : ℕ) × (w.lease ≡ some q) × (w.alive q ≡ false)
Holds w p (leaving n) = w.reaper ≡ some p
Holds w p aborting = w.reaper ≡ some p
Holds w p idle = Unit
Holds w p ended = Unit
Holds w p (trying n) = Unit
Holds w p (found n) = Unit
Holds w p (judging n q) = Unit
Holds w p (claiming n) = Unit

abbrev pub IsSound : World → Type 0
IsSound w = (p : ℕ) → w.alive p ≡ true → Holds w p (w.phase p)

pub same_files :
    (w u : World) (r : ℕ) (phase : Phase)
    → u.lease ≡ w.lease
    → u.reaper ≡ w.reaper
    → u.alive ≡ w.alive
    → Holds w r phase
    → Holds u r phase
same_files w u r holding l g a h = l ∙ h
same_files w u r releasing l g a h = l ∙ h
same_files w u r (inspecting n) l g a h = g ∙ h
same_files w u r (checking n q) l g a h = (g ∙ h.0, l ∙ h.1)
same_files w u r (unlinking n) l g a h =
    (g ∙ h.0, h.1, l ∙ h.2, ap (λ (v : ℕ → Bool). v h.1) a ∙ h.3)
same_files w u r (leaving n) l g a h = g ∙ h
same_files w u r aborting l g a h = g ∙ h
same_files w u r idle l g a h = tt
same_files w u r ended l g a h = tt
same_files w u r (trying n) l g a h = tt
same_files w u r (found n) l g a h = tt
same_files w u r (judging n q) l g a h = tt
same_files w u r (claiming n) l g a h = tt

-- A move of one process: its phase, and the two files.
pub others_kept :
    (w u : World) (p : ℕ) (phase : Phase)
    → u.phase ≡ update p phase w.phase
    → u.alive ≡ w.alive
    → IsSound w
    → Holds u p phase
    → ((r : ℕ) → r ≢ p → w.alive r ≡ true → Holds w r (w.phase r) → Holds u r (w.phase r))
    → IsSound u
others_kept w u p phase phases same sound own kept r alive = elim (Bool-cases (r == p)) [
  | inl here ↦
      let e : r ≡ p = (==_iff r p).0 here in
      let now : u.phase r ≡ phase = ap (λ f. f r) phases ∙ rw here refl in
      subst {A = Phase} (Holds u r) (sym now) (subst {A = ℕ} (λ v. Holds u v phase) (sym e) own)
  | inr apart ↦
      let e : r ≢ p = λ v. ground (arith, ==_iff r p) in
      let now : u.phase r ≡ w.phase r = ap (λ f. f r) phases ∙ rw apart refl in
      let lives : w.alive r ≡ true = ap (λ f. f r) (sym same) ∙ alive in
      subst {A = Phase} (Holds u r) (sym now) (kept r e lives (sound r lives))
]

-- A process that goes on without a change to the files.
pub go-IsSound :
    (w : World) (p : ℕ) (phase : Phase) → IsSound w → Holds w p phase → IsSound (go p phase w)
go-IsSound w p phase sound own =
    others_kept w (go p phase w) p phase refl refl sound
      (same_files w (go p phase w) p phase refl refl refl own)
      (λ r apart lives h. same_files w (go p phase w) r (w.phase r) refl refl refl h)

module _ (w : World) (p : ℕ) where
  pub after_link :
      (r : ℕ) (phase : Phase)
      → w.lease ≡ none
      → Holds w r phase
      → Holds (record w { lease = some p }) r phase
  after_link r holding free h = absurd (ground arith)
  after_link r releasing free h = absurd (ground arith)
  after_link r (inspecting n) free h = h
  after_link r (checking n q) free h = absurd (ground arith)
  after_link r (unlinking n) free h = absurd (ground (arith, h.2))
  after_link r (leaving n) free h = h
  after_link r aborting free h = h
  after_link r idle free h = tt
  after_link r ended free h = tt
  after_link r (trying n) free h = tt
  after_link r (found n) free h = tt
  after_link r (judging n q) free h = tt
  after_link r (claiming n) free h = tt

  pub after_claim :
      (r : ℕ) (phase : Phase)
      → w.reaper ≡ none
      → Holds w r phase
      → Holds (record w { reaper = some p }) r phase
  after_claim r holding free h = h
  after_claim r releasing free h = h
  after_claim r (inspecting n) free h = absurd (ground arith)
  after_claim r (checking n q) free h = absurd (ground arith)
  after_claim r (unlinking n) free h = absurd (ground (arith, h.0))
  after_claim r (leaving n) free h = absurd (ground arith)
  after_claim r aborting free h = absurd (ground arith)
  after_claim r idle free h = tt
  after_claim r ended free h = tt
  after_claim r (trying n) free h = tt
  after_claim r (found n) free h = tt
  after_claim r (judging n q) free h = tt
  after_claim r (claiming n) free h = tt

  -- A second process cannot hold the guard.
  only_reaper {ℓ} : {A : Type ℓ} (r : ℕ) → r ≢ p → w.reaper ≡ some p → w.reaper ≡ some r → A
  only_reaper r apart mine theirs = absurd (apart (some-injective _ _ (sym theirs ∙ mine)))

  stale : (r q : ℕ) → w.alive r ≡ true → w.lease ≡ some q → w.alive q ≡ false → w.lease ≢ some r
  stale r q lives here dead h =
      let same : q ≡ r = some-injective _ _ (sym here ∙ h) in ground (arith, ap w.alive same)

  pub after_unlink :
      (r : ℕ) (phase : Phase) (q : ℕ)
      → r ≢ p
      → w.alive r ≡ true
      → w.reaper ≡ some p
      → w.lease ≡ some q
      → w.alive q ≡ false
      → Holds w r phase
      → Holds (record w { lease = none }) r phase
  after_unlink r holding q apart lives guard here dead h = absurd (stale r q lives here dead h)
  after_unlink r releasing q apart lives guard here dead h = absurd (stale r q lives here dead h)
  after_unlink r (inspecting n) q apart lives guard here dead h = h
  after_unlink r (checking n o) q apart lives guard here dead h = only_reaper r apart guard h.0
  after_unlink r (unlinking n) q apart lives guard here dead h = only_reaper r apart guard h.0
  after_unlink r (leaving n) q apart lives guard here dead h = h
  after_unlink r aborting q apart lives guard here dead h = h
  after_unlink r idle q apart lives guard here dead h = tt
  after_unlink r ended q apart lives guard here dead h = tt
  after_unlink r (trying n) q apart lives guard here dead h = tt
  after_unlink r (found n) q apart lives guard here dead h = tt
  after_unlink r (judging n o) q apart lives guard here dead h = tt
  after_unlink r (claiming n) q apart lives guard here dead h = tt

  pub after_leave :
      (r : ℕ) (phase : Phase)
      → r ≢ p
      → w.reaper ≡ some p
      → Holds w r phase
      → Holds (record w { reaper = none }) r phase
  after_leave r holding apart guard h = h
  after_leave r releasing apart guard h = h
  after_leave r (inspecting n) apart guard h = only_reaper r apart guard h
  after_leave r (checking n o) apart guard h = only_reaper r apart guard h.0
  after_leave r (unlinking n) apart guard h = only_reaper r apart guard h.0
  after_leave r (leaving n) apart guard h = only_reaper r apart guard h
  after_leave r aborting apart guard h = only_reaper r apart guard h
  after_leave r idle apart guard h = tt
  after_leave r ended apart guard h = tt
  after_leave r (trying n) apart guard h = tt
  after_leave r (found n) apart guard h = tt
  after_leave r (judging n o) apart guard h = tt
  after_leave r (claiming n) apart guard h = tt

  -- A release by the holder: no one else counts on the lease, if its owner is not being judged.
  pub after_release :
      (r : ℕ) (phase : Phase)
      → r ≢ p
      → w.alive p ≡ true
      → w.lease ≡ some p
      → ((n q : ℕ) → phase ≡ checking n q → q ≢ p)
      → Holds w r phase
      → Holds (record w { lease = none }) r phase
  after_release r holding apart lives mine calm h =
      absurd (apart (some-injective _ _ (sym h ∙ mine)))
  after_release r releasing apart lives mine calm h =
      absurd (apart (some-injective _ _ (sym h ∙ mine)))
  after_release r (inspecting n) apart lives mine calm h = h
  after_release r (checking n o) apart lives mine calm h =
      absurd (calm n o refl (some-injective _ _ (sym h.1 ∙ mine)))
  after_release r (unlinking n) apart lives mine calm h = absurd (stale p h.1 lives h.2 h.3 mine)
  after_release r (leaving n) apart lives mine calm h = h
  after_release r aborting apart lives mine calm h = h
  after_release r idle apart lives mine calm h = tt
  after_release r ended apart lives mine calm h = tt
  after_release r (trying n) apart lives mine calm h = tt
  after_release r (found n) apart lives mine calm h = tt
  after_release r (judging n o) apart lives mine calm h = tt
  after_release r (claiming n) apart lives mine calm h = tt
