-- ===== src/Pins/Release.antt =====
-- src/ipfs/managedPins.ts, `release`, `referenced`, `releaseUnreferenced` and `reconcile`.
use kubus_node.Base.{
  ℕ, String, str_eq, ◌⊎◌, inl, inr, Bool, true, false, not, ◌&&◌, ◌||◌, Option, none, some, List,
  [], ◌∷◌, if◌then◌else◌, any, Text, begins_with, text_key, number_key, string_key, Dict, get,
  remove, has,
}
use kubus_node.Pins.{
  Ownership, created, preexisting, unknown, PinState, release_pending, releasing, release_uncertain,
  retained, released, ManagedPinRecord, Pins, PinError, invalid_content_identifier,
  invalid_pin_owner, release_requires_review, kubo_failed, is_release_pending, is_owner, in_review,
  change,
}

-- The other parts of the local state that may name a CID.
pub record SpatialRecord : Type 0 where
  pub manifest_cid : Option String
  pub variant_cids : List (Option String)

pub record PrivateComputeCid : Type 0 where
  pub cid : String
  pub has_pin_owner : Bool
  pub is_released : Bool

pub record InputCleanup : Type 0 where
  pub input_cid : Option String
  pub has_pin_owner : Bool
  pub pin_release_pending : Option Bool

pub record References : Type 0 where
  pub desired_cids : List String
  pub spatial : List SpatialRecord
  pub private_compute_cids : List PrivateComputeCid
  pub remote_cleanups : List InputCleanup

pub data Removal : Type 0 where
  removed : Removal
  -- An uncertain outcome, or no complete response.
  uncertain : Removal
  -- A complete refusal; the flag tells that it says "not pinned".
  refused : (not_pinned : Bool) → Removal

pub record PinReleaseResult : Type 0 where
  pub owner_released : Bool
  pub pin_removed : Bool
  pub reason : Option String

-- The pins after the call, whether Kubo was asked to remove the pin, and the answer.
pub record Released : Type 0 where
  pub pins : Pins
  pub asked : Bool
  pub result : PinReleaseResult ⊎ PinError

abbrev pub answered : Pins → Bool → Bool → Option String → Released
answered pins owner_released pin_removed reason = record {
  pins = pins;
  asked = pin_removed;
  result =
      inl (record { owner_released = owner_released; pin_removed = pin_removed; reason = reason });
}

abbrev pub failed_with : Pins → Bool → PinError → Released
failed_with pins asked e = record { pins = pins; asked = asked; result = inr e }

-- `inputPinReleasePending === false`.
abbrev pub is_let_go : Option Bool → Bool
is_let_go none = false
is_let_go (some flag) = not flag

module _ (canonical : String → Option String) where
  -- `same`: a text whose canonical form is the CID.
  abbrev pub same_cid : String → Option String → Bool
  same_cid cid none = false
  same_cid cid (some raw) = elim (canonical raw) [ none ↦ false | some c ↦ str_eq c cid ]

  -- Every kind of reference, in the order of the source.
  unfoldable pub referenced : String → References → Bool
  referenced cid refs =
      any (λ raw. same_cid cid (some raw)) refs.desired_cids
      || (any (λ r. same_cid cid r.manifest_cid || any (same_cid cid) r.variant_cids) refs.spatial
          || (any (λ r. not r.has_pin_owner && (not r.is_released && same_cid cid (some r.cid)))
                refs.private_compute_cids
              || any
                  (λ r.
                    not r.has_pin_owner
                    && (not (is_let_go r.pin_release_pending) && same_cid cid r.input_cid))
                  refs.remote_cleanups))

abbrev pub is_created : Ownership → Bool
is_created created = true
is_created preexisting = false
is_created unknown = false

abbrev pub set_state : PinState → Option String → ManagedPinRecord → ManagedPinRecord
set_state state reason current = record current { state = state; reason = reason }

abbrev pub released_at : ℕ → ManagedPinRecord → ManagedPinRecord
released_at now current = record current { state = released; reason = none; updated_at = now }

abbrev pub no_owners : Dict Text ℕ → Bool
no_owners [] = true
no_owners (o ∷ owners) = false

-- `releasing` is written before Kubo is asked, so that a crash in between is seen.
abbrev pub settle_removal : String → Removal → ℕ → Pins → Released
settle_removal cid removed now pins = answered (change cid (released_at now) pins) true true none
settle_removal cid (refused true) now pins =
    answered (change cid (released_at now) pins) true true none
settle_removal cid uncertain now pins =
    failed_with
      (change cid (set_state release_uncertain (some "pin_release_outcome_requires_review")) pins)
      true kubo_failed
settle_removal cid (refused false) now pins =
    failed_with (change cid (set_state release_pending (some "pin_release_retry_required")) pins)
      true kubo_failed

module _ (canonical : String → Option String) (allow_unpin : Bool) where
  abbrev release_record : String → References → Removal → ℕ → ManagedPinRecord → Pins → Released
  release_record cid refs removal now current pins =
      if not (no_owners current.owners) || referenced canonical cid refs
      then answered pins true false (some "other_references")
      else if not (is_created current.ownership)
      then answered (change cid (set_state retained (some "preexisting_or_unknown_pin")) pins) true
          false (some "preexisting_or_unknown_pin")
      else if not allow_unpin
      then answered
          (change cid (set_state release_pending (some "pin_release_activation_required")) pins)
          true false (some "pin_release_activation_required")
      else settle_removal cid removal now
          (change cid (set_state releasing (some "pin_release_in_flight")) pins)

  unfoldable pub release_unreferenced : String → References → Removal → ℕ → Pins → Released
  release_unreferenced cid refs removal now pins = elim (get pins cid) [
    | none ↦ answered pins false false (some "ownership_unknown")
    | some current ↦ release_record cid refs removal now current pins
  ]

  abbrev pub drop_owner : Text → ℕ → ManagedPinRecord → ManagedPinRecord
  drop_owner owner now current = record current {
    owners = remove current.owners owner;
    last_released_owner = some owner;
    state = if no_owners (remove current.owners owner) then release_pending else current.state;
    updated_at = now;
  }

  abbrev release_held :
      String → Text → References → Removal → ℕ → ManagedPinRecord → Pins → Released
  release_held cid owner refs removal now current pins =
      if not (has current.owners owner) && not (is_release_pending current.state)
      then answered pins false false (some "owner_not_registered")
      else release_unreferenced cid refs removal now (change cid (drop_owner owner now) pins)

  unfoldable pub release : String → Text → References → Removal → ℕ → Pins → Released
  release raw owner refs removal now pins = elim (canonical raw) [
    | none ↦ failed_with pins false invalid_content_identifier
    | some cid ↦
        if not (is_owner owner)
        then failed_with pins false invalid_pin_owner
        else if in_review (get pins cid)
        then failed_with pins false release_requires_review
        else elim (get pins cid) [
          | none ↦ answered pins false false (some "owner_not_registered")
          | some current ↦ release_held cid owner refs removal now current pins
        ]
  ]

  -- An empty prefix is falsy and filters nothing.
  abbrev matches_prefix : Option Text → Option Text → Bool
  matches_prefix none last = true
  matches_prefix (some []) last = true
  matches_prefix (some (c ∷ prefix)) none = false
  matches_prefix (some (c ∷ prefix)) (some last) = begins_with last (c ∷ prefix)

  -- The loop of `reconcile` over the entries that it found at its start; `removal` answers for each
  -- CID. The first failure is thrown at the end.
  unfoldable pub reconcile_entries :
      Option Text → References → (String → Removal) → ℕ → Pins → Pins → Pins × Option PinError
  reconcile_entries prefix refs removal now [] pins = (pins, none)
  reconcile_entries prefix refs removal now ((cid, current) ∷ entries) pins =
      let done = release_unreferenced cid refs (removal cid) now pins in
      let rest = reconcile_entries prefix refs removal now entries done.pins in
      let skipped = reconcile_entries prefix refs removal now entries pins in
      if is_release_pending current.state && matches_prefix prefix current.last_released_owner
      then (rest.0, elim done.result [ inl answer ↦ rest.1 | inr e ↦ some e ])
      else skipped

  unfoldable pub reconcile :
      Option Text → References → (String → Removal) → ℕ → Pins → Pins × Option PinError
  unfolding reconcile_entries
  reconcile prefix refs removal now pins = reconcile_entries prefix refs removal now pins pins
