-- ===== src/Pins.antt =====
-- src/ipfs/managedPins.ts: who holds a pin of the local IPFS node, and when it may be taken off.
-- What Kubo answers is an argument of the call. Calls of one CID run one after the other.
pub mod Release
pub mod Safe
pub mod Holders
pub mod Tests
use kubus_node.Base.{
  ℕ, zero, suc, ◌+◌, ◌-◌, ◌*◌, ◌/◌, ◌%◌, ◌^◌, ◌≤◌, ◌<◌, min, max, bit_and, bit_or, bit_xor, String,
  str_eq, starts_with, eq_iff, eq_refl, ◌≡◌, refl, sym, ap, ap₂, ◌∙◌, subst, ◌≡⟨◌⟩◌, ◌∎, ◌≢◌, ◌↔◌,
  ◌⊎◌, inl, inr, Bool, true, false, not, ◌&&◌, ◌||◌, Option, none, some, List, [], ◌∷◌, ◌++◌, map,
  map-append, append-nil, append_assoc, arith, ltb, leb, ◌==◌, if◌then◌else◌, ltb→lt, lt→ltb,
  le→ltb, leb→le, ==_iff, Bool-cases, Option-cases, is_some, length, get_or, take, drop, concat,
  every, any, All, length-append, length-take, length-drop, take-append-drop, take-append,
  drop-append, All-append, drop-drop, concat-append, Text, units, same_text, same_text_iff,
  begins_with, is_space, holds_unit, cut_unique, text_key, number_key, string_key, Dict, Key, get,
  put, remove, has, get-put, get-put_self, get-put_ne, get-remove, get-remove_self, get-remove_ne,
  length-put, length-remove, Values, Values-put, Values-remove, Values-get,
}

pub data Ownership : Type 0 where
  created preexisting unknown : Ownership

pub data PinState : Type 0 where
  pending pinned release_pending releasing release_uncertain retained released : PinState

pub record ManagedPinRecord : Type 0 where
  pub cid : String
  pub ownership : Ownership
  pub owners : Dict Text ℕ
  pub state : PinState
  pub updated_at : ℕ
  pub reason : Option String
  pub last_released_owner : Option Text

abbrev pub Pins : Type 0
Pins = Dict String ManagedPinRecord

pub data PinError : Type 0 where
  invalid_content_identifier invalid_pin_owner release_requires_review : PinError
  kubo_failed : PinError

-- `releasing` or `release_uncertain`: the outcome of a removal is not known.
abbrev pub needs_review : PinState → Bool
needs_review releasing = true
needs_review release_uncertain = true
needs_review pending = false
needs_review pinned = false
needs_review release_pending = false
needs_review retained = false
needs_review released = false

abbrev pub is_release_pending : PinState → Bool
is_release_pending release_pending = true
is_release_pending pending = false
is_release_pending pinned = false
is_release_pending releasing = false
is_release_pending release_uncertain = false
is_release_pending retained = false
is_release_pending released = false

-- A record in these states says nothing about who made the pin.
abbrev pub needs_probe : PinState → Bool
needs_probe released = true
needs_probe pending = true
needs_probe pinned = false
needs_probe release_pending = false
needs_probe releasing = false
needs_probe release_uncertain = false
needs_probe retained = false

abbrev pub owner_unit : ℕ → Bool
owner_unit c =
    leb b'A' c && leb c b'Z'
    || leb b'a' c && leb c b'z'
    || leb b'0' c && leb c b'9'
    || c == b'-'
    || c == b'.'
    || c == b'_'
    || c == b':'

abbrev owner_after : Text → Text → Bool
owner_after owner prefix =
    begins_with owner prefix
    && (leb 1 (length (drop (length prefix) owner))
        && (leb (length (drop (length prefix) owner)) 480
            && every owner_unit (drop (length prefix) owner)))

-- `checkOwner`.
unfoldable pub is_owner : Text → Bool
is_owner owner = any (owner_after owner) (
    units "archive:"
    ∷ units "spatial:"
    ∷ units "requester-input:"
    ∷ units "provider-input:"
    ∷ units "manual:"
    ∷ [])

-- The answer of `pinLs`: the pinned CIDs in canonical form, an answer of another shape, or a failure.
pub data Listing : Type 0 where
  keys : List String → Listing
  malformed failed : Listing

unfoldable pub probe_ownership : Listing → String → Ownership
probe_ownership malformed cid = unknown
probe_ownership failed cid = unknown
probe_ownership (keys cids) cid = if any (λ c. str_eq c cid) cids then preexisting else created

abbrev blank : String → Ownership → ℕ → ManagedPinRecord
blank cid ownership now = record {
  cid = cid;
  ownership = ownership;
  owners = [];
  state = pending;
  updated_at = now;
  reason = none;
  last_released_owner = none;
}

abbrev record_or_blank : Option ManagedPinRecord → String → Ownership → ℕ → ManagedPinRecord
record_or_blank none cid ownership now = blank cid ownership now
record_or_blank (some previous) cid ownership now = previous

-- `owners[owner] ??= …` keeps an older entry.
abbrev pub add_owner : Text → ℕ → Dict Text ℕ → Dict Text ℕ
add_owner owner now owners = if has owners owner then owners else put owners owner now

abbrev pub claim : Text → Ownership → ℕ → ManagedPinRecord → ManagedPinRecord
claim owner ownership now current = record current {
  ownership = ownership;
  owners = add_owner owner now current.owners;
  state = pending;
  reason = none;
  updated_at = now;
}

abbrev pub ownership_for : Option ManagedPinRecord → Listing → String → Ownership
ownership_for none listing cid = probe_ownership listing cid
ownership_for (some previous) listing cid =
    if needs_probe previous.state then probe_ownership listing cid else previous.ownership

abbrev pub in_review : Option ManagedPinRecord → Bool
in_review none = false
in_review (some previous) = needs_review previous.state

-- The first transaction of `acquire`, before the pin is asked for.
unfoldable pub register : String → Text → Listing → ℕ → Pins → Pins
register cid owner listing now pins =
    let ownership = ownership_for (get pins cid) listing cid in
    put pins cid (claim owner ownership now (record_or_blank (get pins cid) cid ownership now))

unfoldable pub change : String → (ManagedPinRecord → ManagedPinRecord) → Pins → Pins
change cid f pins = elim (get pins cid) [ none ↦ pins | some current ↦ put pins cid (f current) ]

abbrev pub pin_done : ℕ → ManagedPinRecord → ManagedPinRecord
pin_done now current = record current { state = pinned; updated_at = now }

abbrev pub pin_failed : ManagedPinRecord → ManagedPinRecord
pin_failed current = record current { reason = some "pin_acquisition_retry_required" }

-- `acquire`; `canonical` is `canonicalPinCid`, `none` where it throws, and `pins_ok` whether Kubo
-- made the pin.
unfoldable pub acquire :
    (String → Option String)
    → String
    → Text
    → Listing
    → Bool
    → ℕ
    → ℕ
    → Pins
    → Pins × Option PinError
acquire canonical raw owner listing pins_ok now later pins = elim (canonical raw) [
  | none ↦ (pins, some invalid_content_identifier)
  | some cid ↦
      if not (is_owner owner)
      then (pins, some invalid_pin_owner)
      else if in_review (get pins cid)
      then (pins, some release_requires_review)
      else if pins_ok
      then (change cid (pin_done later) (register cid owner listing now pins), none)
      else (change cid pin_failed (register cid owner listing now pins), some kubo_failed)
]
