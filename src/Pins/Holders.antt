-- ===== src/Pins/Holders.antt =====
-- src/ipfs/managedPins.ts: what acquiring and releasing do to the holders of a pin.
use kubus_node.Base.{
  ℕ, String, ◌≡◌, refl, ◌≢◌, inl, inr, Bool, true, false, not, ◌&&◌, ◌||◌, Option, some, [], ◌∷◌,
  arith, Bool-cases, Text, text_key, number_key, string_key, Dict, get, remove, has, get-remove_ne,
}
use kubus_node.Pins.{
  ManagedPinRecord, Pins, needs_review, is_release_pending, is_owner, change, acquire, Listing,
}
use kubus_node.Pins.Release.{
  References, Removal, no_owners, release_unreferenced, drop_owner, release,
}
use kubus_node.Pins.Safe.{get-change_self}

has-no_owners :
    (owners : Dict Text ℕ) (other : Text) → has owners other ≡ true → no_owners owners ≡ false
unfolding has get
has-no_owners [] other h = absurd (ground arith)
has-no_owners (o ∷ owners) other h = refl

has-drop_owner :
    (owner other : Text) (now : ℕ) (current : ManagedPinRecord)
    → owner ≢ other
    → has current.owners other ≡ true
    → has (remove current.owners owner) other ≡ true
unfolding has
has-drop_owner owner other now current apart h = rw (get-remove_ne current.owners owner apart) h

module _ (canonical : String → Option String) (allow_unpin : Bool) where
  -- While another owner holds a pin, a release of one owner never asks Kubo to remove it, and the
  -- other owner still holds it afterwards.
  pub release_keeps_holder :
      (raw cid : String) (owner other : Text) (refs : References) (outcome : Removal) (now : ℕ)
      (pins : Pins) (current : ManagedPinRecord)
      → canonical raw ≡ some cid
      → get pins cid ≡ some current
      → has current.owners other ≡ true
      → owner ≢ other
      → ((release canonical allow_unpin raw owner refs outcome now pins).asked ≡ false)
        × ((after : ManagedPinRecord) × (get
                (release canonical allow_unpin raw owner refs outcome now pins).pins
                cid
              ≡ some after)
            × (has after.owners other ≡ true))
  unfolding release release_unreferenced
  release_keeps_holder raw cid owner other refs outcome now pins current form found holds apart =
      elim (Bool-cases (
        is_owner owner
        && not (needs_review current.state)
        && (has current.owners owner || is_release_pending current.state))) [
          | inl goes ↦ (
            ground (arith, form, found, kept, dropped),
            (
              drop_owner canonical allow_unpin owner now current,
              ground (arith, form, found, kept, dropped),
              has-drop_owner owner other now current apart holds,
            ),
          )
          | inr stays ↦ (ground (arith, form, found), (current, ground (arith, form, found), holds))
        ]
    where
      kept : no_owners (remove current.owners owner) ≡ false
      kept = has-no_owners _ other (has-drop_owner owner other now current apart holds)

      dropped :
          get (change cid (drop_owner canonical allow_unpin owner now) pins) cid
          ≡ some (drop_owner canonical allow_unpin owner now current)
      dropped = get-change_self cid (drop_owner canonical allow_unpin owner now) pins found

  -- Once the outcome of a removal is in doubt, neither an acquisition nor a release of the CID
  -- changes the stored pins or asks Kubo to remove anything.
  pub review_blocks :
      (raw cid : String) (owner : Text) (listing : Listing) (pins_ok : Bool) (refs : References)
      (outcome : Removal) (now later : ℕ) (pins : Pins) (current : ManagedPinRecord)
      → canonical raw ≡ some cid
      → get pins cid ≡ some current
      → needs_review current.state ≡ true
      → ((acquire canonical raw owner listing pins_ok now later pins).0 ≡ pins)
        × ((release canonical allow_unpin raw owner refs outcome now pins).pins ≡ pins)
        × ((release canonical allow_unpin raw owner refs outcome now pins).asked ≡ false)
  unfolding acquire release
  review_blocks raw cid owner listing pins_ok refs outcome now later pins current form found
        review =
      (ground (arith, form, found), ground (arith, form, found), ground (arith, form, found))
