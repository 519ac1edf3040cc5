-- ===== src/Channel/Cancelled.antt =====
-- src/webrtc/channelServer.ts: what the handler of a cancelled request still does to the channel.
use kubus_node.Base.{
  ℕ, ◌≡◌, refl, sym, ap, ◌∙◌, ◌≢◌, inl, inr, true, false, none, some, arith, Option-cases, is_some,
  text_key, number_key, string_key, get, put, remove, has, get-put_self, get-put_ne,
  get-remove_self, get-remove_ne,
}
use mathlib.Core.Option.{some-injective}
use kubus_node.Frame.{KubusFrame}
use kubus_node.Identity.{NodeIdentity}
use kubus_node.Channel.{Platform, ChannelServer, InFlight, pending, Outcome, cancelled_by_peer}
use kubus_node.Channel.Handlers.{on_request_head, new_entry}
use kubus_node.Channel.Steps.{
  lookup_entry, drop_id, cancel_entry, on_request_chunk, on_cancel, end_request,
}
use kubus_node.Channel.Slots.{Slots}
use kubus_node.Channel.Moves.{entry_id}
use kubus_node.Channel.Heads.{
  length-remove_present, IsOpenHead, started_entry, with_request, on_request_head-open,
  cancelled_state, on_cancel-held,
}

-- The end of a handler whose request was cancelled.
end_request-cancelled :
    (p : Platform) (serial : ℕ) (outcome : Outcome) (s : ChannelServer) (entry : InFlight)
    → has s.running serial ≡ true
    → get s.entries serial ≡ some (cancel_entry cancelled_by_peer entry)
    → end_request p serial outcome s
      ≡ drop_id entry.id (record s { running = remove s.running serial })
unfolding end_request has
end_request-cancelled p serial outcome s entry active found =
    elim (Option-cases (get s.running serial)) [
      | inl missing ↦ absurd (ground arith)
      | inr (request, here) ↦ rw (here, found, end_request) refl
    ]

module _ (p : Platform) (identity : NodeIdentity) (head : KubusFrame) (outcome : Outcome)
    (s : ChannelServer) (serial : ℕ) (entry : InFlight) where
  -- The request of a serial is cancelled, its id is used again, and its handler ends.
  abbrev pub cancel_and_reuse : ChannelServer
  cancel_and_reuse =
      end_request p serial outcome (on_request_head p identity head (on_cancel head.request_id s))

  abbrev after_cancel : ChannelServer
  after_cancel = cancelled_state head.request_id serial entry s

  abbrev after_reuse : ChannelServer
  after_reuse = with_request p head after_cancel

  abbrev after_end : ChannelServer
  after_end = drop_id entry.id (record after_reuse { running = remove after_reuse.running serial })

  module _ (slots : Slots s) (here : get s.in_flight head.request_id ≡ some serial)
      (found : get s.entries serial ≡ some entry) where
    older : s.next_serial ≢ serial
    older = let below = slots.fresh serial (ap (λ e. is_some (entry_id e)) found) in omega arith

    own_id : entry.id ≡ head.request_id
    own_id =
        some-injective _ _ (sym (ap entry_id found) ∙ (slots.held head.request_id serial here).0)

    reused : IsOpenHead p head → on_request_head p identity head after_cancel ≡ after_reuse
    reused open_head =
        let room = length-remove_present s.in_flight head.request_id (ap is_some here) in
        on_request_head-open p identity head after_cancel open_head
          (get-remove_self s.in_flight head.request_id) (ground (arith, slots.bounded))

    ended : end_request p serial outcome after_reuse ≡ after_end
    unfolding has
    ended =
        end_request-cancelled p serial outcome after_reuse entry
          (ap is_some (get-put_ne s.running s.next_serial _ older)
            ∙ (slots.held head.request_id serial here).1)
          (get-put_ne (put after_cancel.entries s.next_serial (new_entry p head after_cancel))
              s.next_serial _ older
            ∙ get-put_ne after_cancel.entries s.next_serial _ older
            ∙ get-put_self s.entries serial (cancel_entry cancelled_by_peer entry))

    cancel_and_reuse-after_end : IsOpenHead p head → cancel_and_reuse ≡ after_end
    cancel_and_reuse-after_end open_head =
        ap (λ v. end_request p serial outcome (on_request_head p identity head v))
          (on_cancel-held s head.request_id serial entry here found)
        ∙ ap (end_request p serial outcome) (reused open_head)
        ∙ ended

-- A chunk for an id that is in no entry.
on_request_chunk-gone :
    (p : Platform) (chunk : KubusFrame) (t : ChannelServer)
    → get t.in_flight chunk.request_id ≡ none
    → on_request_chunk p chunk t ≡ t
unfolding on_request_chunk lookup_entry
on_request_chunk-gone p chunk t missing = rw (missing, on_request_chunk, lookup_entry) refl

-- The id is in no entry of the table, while the handler of the serial still waits for a body.
abbrev pub IsStranded : ℕ → ℕ → ChannelServer → Type 0
IsStranded request_id serial t =
    (get t.in_flight request_id ≡ none)
    × (has t.running serial ≡ true)
    × (entry : InFlight) × (get t.entries serial ≡ some entry)
    × (entry.body_promise ≡ pending)
    × (entry.cancelled ≡ false)

-- A handler that ends frees the id of its request, whose ever the id is by then: after a request is
-- cancelled and its id used again by a request that has a body, the end of the first handler takes
-- the second request out of the table. The second handler still waits for its body, every chunk of
-- which is passed over.
pub cancel_and_reuse-IsStranded :
    (p : Platform) (identity : NodeIdentity) (head chunk : KubusFrame) (outcome : Outcome)
    (s : ChannelServer) (serial : ℕ) (entry : InFlight)
    → Slots s
    → get s.in_flight head.request_id ≡ some serial
    → get s.entries serial ≡ some entry
    → IsOpenHead p head
    → IsStranded head.request_id s.next_serial
        (cancel_and_reuse p identity head outcome s serial entry)
      × (on_request_chunk p
            (record chunk { request_id = head.request_id })
            (cancel_and_reuse p identity head outcome s serial entry)
          ≡ cancel_and_reuse p identity head outcome s serial entry)
unfolding has
cancel_and_reuse-IsStranded p identity head chunk outcome s serial entry slots here found
      open_head =
    let e =
      cancel_and_reuse-after_end p identity head outcome s serial entry slots here found
        open_head in
    let after = after_end p identity head outcome s serial entry in
    let apart : serial ≢ s.next_serial =
      λ same. older p identity head outcome s serial entry slots here found (sym same) in
    let gone : get after.in_flight head.request_id ≡ none =
      ap
        (λ id.
          get (remove (put (remove s.in_flight head.request_id) head.request_id s.next_serial) id)
            head.request_id)
        (own_id p identity head outcome s serial entry slots here found)
      ∙ get-remove_self (put (remove s.in_flight head.request_id) head.request_id s.next_serial)
          head.request_id in
    rw e (
      (
        gone,
        ap is_some (
              get-remove_ne (after_reuse p identity head outcome s serial entry).running serial
                apart)
            ∙ ap is_some (get-put_self s.running s.next_serial _),
        started_entry p head (after_cancel p identity head outcome s serial entry),
        get-put_self _ s.next_serial _,
        refl,
        refl,
      ),
      on_request_chunk-gone p (record chunk { request_id = head.request_id }) after gone,
    )
