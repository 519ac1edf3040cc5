-- ===== src/Pins/Safe.antt =====
-- src/ipfs/managedPins.ts: when Kubo is asked to remove a pin.
use kubus_node.Base.{
  String, ◌≡◌, ◌≢◌, inl, inr, Bool, true, false, Option, some, Option-cases, Text, text_key,
  number_key, string_key, get, remove, get-put_self, get-put_ne,
}
use kubus_node.Pins.{created, ManagedPinRecord, Pins, needs_review, change}
use kubus_node.Pins.Release.{References, referenced, no_owners}

-- The record of a CID after a change of it, and after a change of another.
pub get-change_self :
    (cid : String) (f : ManagedPinRecord → ManagedPinRecord) (pins : Pins)
    {current : ManagedPinRecord}
    → get pins cid ≡ some current
    → get (change cid f pins) cid ≡ some (f current)
unfolding change
get-change_self cid f pins {current} found = rw (found, change) (get-put_self pins cid (f current))

pub get-change_ne :
    (cid : String) (f : ManagedPinRecord → ManagedPinRecord) (pins : Pins) {other : String}
    → cid ≢ other
    → get (change cid f pins) other ≡ get pins other
unfolding change
get-change_ne cid f pins {other} apart = elim (Option-cases (get pins cid)) [
  | inl missing ↦ rw (missing, change)
  | inr (current, found) ↦ rw (found, change) (get-put_ne pins cid (f current) apart)
]

-- The conditions under which a pin may be taken off.
pub record IsRemovable (canonical : String → Option String) (allow_unpin : Bool) (cid : String)
    (refs : References) (current : ManagedPinRecord) : Type 0 where
  pub unowned : no_owners current.owners ≡ true
  pub unreferenced : referenced canonical cid refs ≡ false
  pub ours : current.ownership ≡ created
  pub allowed : allow_unpin ≡ true

-- What a release that asks Kubo has found: a record not under review, whose owners without the one
-- that lets go are none, and which is removable.
pub record IsLastRelease (canonical : String → Option String) (allow_unpin : Bool) (raw : String)
    (owner : Text) (refs : References) (pins : Pins) : Type 0 where
  pub cid : String
  pub current : ManagedPinRecord
  pub canonical_form : canonical raw ≡ some cid
  pub known : get pins cid ≡ some current
  pub settled : needs_review current.state ≡ false
  pub last : no_owners (remove current.owners owner) ≡ true
  pub unreferenced : referenced canonical cid refs ≡ false
  pub ours : current.ownership ≡ created
  pub allowed : allow_unpin ≡ true
