-- ===== src/Pins/Tests.antt =====
-- src/ipfs/managedPins.ts: runs of the pins, and the theorems at concrete calls.
use kubus_node.Base.{
  ℕ, String, ◌≡◌, refl, ◌≢◌, true, false, Option, none, some, [], ◌∷◌, arith, Text, units, text_key,
  number_key, string_key, Dict, get, put, remove, has,
}
use kubus_node.Pins.{
  created, PinState, pinned, release_pending, release_uncertain, ManagedPinRecord, Pins, is_owner,
  change, acquire, register, keys, probe_ownership,
}
use kubus_node.Pins.Release.{References, uncertain, referenced, release_unreferenced, release}
use kubus_node.Pins.Holders.{release_keeps_holder}

abbrev nothing : References
nothing = record {
  desired_cids = [];
  spatial = [];
  private_compute_cids = [];
  remote_cleanups = [];
}

abbrev same_form : String → Option String
same_form raw = some raw

abbrev archive : Text
archive = units "archive:a"

abbrev manual : Text
manual = units "manual:b"

abbrev record_of : PinState → Dict Text ℕ → ManagedPinRecord
record_of state owners = record {
  cid = "x";
  ownership = created;
  owners = owners;
  state = state;
  updated_at = 0;
  reason = none;
  last_released_owner = none;
}

abbrev held_twice : Pins
held_twice = ("x", record_of pinned ((archive, 1) ∷ (manual, 2) ∷ [])) ∷ []

abbrev held_once : Pins
held_once = ("x", record_of pinned ((archive, 1) ∷ [])) ∷ []

abbrev unheld : Pins
unheld = ("x", record_of release_pending []) ∷ []

abbrev doubted : Pins
doubted = ("x", record_of release_uncertain []) ∷ []

acquires : acquire same_form "x" archive (keys []) true 1 0 [] ≡ (held_once, none)
unfolding acquire register probe_ownership change is_owner get put has
acquires = refl

unfoldable releases :
    (release same_form true "x" archive nothing uncertain 5 held_once).asked ≡ true
unfolding release release_unreferenced change is_owner referenced get put has remove
releases = refl

release_keeps_holder_example :
    (release same_form true "x" archive nothing uncertain 5 held_twice).asked ≡ false
unfolding get has
release_keeps_holder_example =
    (release_keeps_holder same_form true "x" "x" archive manual nothing uncertain 5 held_twice
      (record_of pinned ((archive, 1) ∷ (manual, 2) ∷ [])) refl refl refl apart).0
  where
    apart : archive ≢ manual
    apart = ground arith
