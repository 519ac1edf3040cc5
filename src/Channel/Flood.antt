-- ===== src/Channel/Flood.antt =====
-- src/webrtc/channelServer.ts: how many handlers one peer can keep running.
use kubus_node.Base.{
  ℕ, zero, suc, ◌+◌, ◌<◌, ◌≡◌, refl, ap, ◌∙◌, subst, inl, inr, none, arith, Bool-cases, length,
  text_key, number_key, string_key, get, put, has, get-put_self, length-put,
}
use kubus_node.Frame.{KubusFrame}
use kubus_node.Identity.{NodeIdentity}
use kubus_node.Channel.{Platform, ChannelServer}
use kubus_node.Channel.Handlers.{on_request_head, new_entry, local_request}
use kubus_node.Channel.Steps.{on_cancel}
use kubus_node.Channel.Moves.{on_cancel-Move}
use kubus_node.Channel.Events.{on_request_head-Move}
use kubus_node.Channel.Slots.{Slots, Move-Slots}
use kubus_node.Channel.Heads.{
  IsOpenHead, with_request, on_request_head-open, remove-put, cancelled_state, on_cancel-held,
  started_entry,
}

module _ (p : Platform) (identity : NodeIdentity) (head : KubusFrame) where
  -- The peer opens a request and cancels it.
  abbrev pub open_and_cancel : ChannelServer → ChannelServer
  open_and_cancel s = on_cancel head.request_id (on_request_head p identity head s)

  abbrev pub flood : ℕ → ChannelServer → ChannelServer
  flood zero s = s
  flood (suc n) s = flood n (open_and_cancel s)

  module _ (open_head : IsOpenHead p head) where
    abbrev after_round : ChannelServer → ChannelServer
    after_round s =
        cancelled_state head.request_id s.next_serial (started_entry p head s)
          (with_request p head s)

    open_and_cancel-after_round :
        (s : ChannelServer)
        → get s.in_flight head.request_id ≡ none
        → length s.in_flight < s.max_concurrent_requests
        → open_and_cancel s ≡ after_round s
    open_and_cancel-after_round s free room =
        ap (on_cancel head.request_id) (on_request_head-open p identity head s open_head free room)
        ∙ on_cancel-held (with_request p head s) head.request_id s.next_serial
            (started_entry p head s) (get-put_self s.in_flight head.request_id s.next_serial)
            (get-put_self (put s.entries s.next_serial (new_entry p head s)) s.next_serial
              (started_entry p head s))

    one_more :
        (s : ChannelServer)
        → Slots s
        → length (put s.running s.next_serial (local_request p (new_entry p head s) s))
          ≡ length s.running + 1
    one_more s slots = elim (Bool-cases (has s.running s.next_serial)) [
      | inl there ↦ let below = slots.recent s.next_serial there in absurd (omega arith)
      | inr new ↦
          rw (length-put s.running s.next_serial (local_request p (new_entry p head s) s), new) refl
    ]

-- A peer that opens a request and cancels it, again and again, leaves one handler running for
-- each round, from any state that the channel reaches and with the table as it was: the limit on
-- concurrent requests does not bound the handlers. (The id is free, the table is below the limit
-- and the request is an ordinary one with a body to come.)
pub flood_runs :
    (p : Platform) (identity : NodeIdentity) (head : KubusFrame) (n : ℕ) (s : ChannelServer)
    → IsOpenHead p head
    → Slots s
    → get s.in_flight head.request_id ≡ none
    → length s.in_flight < s.max_concurrent_requests
    → (length (flood p identity head n s).running ≡ length s.running + n)
      × ((flood p identity head n s).in_flight ≡ s.in_flight)
flood_runs p identity head zero s open_head slots free room = (omega arith, refl)
flood_runs p identity head (suc n) s open_head slots free room =
    let e = open_and_cancel-after_round p identity head open_head s free room in
    let table : (after_round p identity head open_head s).in_flight ≡ s.in_flight =
      remove-put s.in_flight head.request_id s.next_serial free in
    let slots' : Slots (after_round p identity head open_head s) = subst Slots e (
      Move-Slots _ _ (on_cancel-Move head.request_id (on_request_head p identity head s))
        (Move-Slots s _ (on_request_head-Move p identity head s) slots)) in
    let rest =
      flood_runs p identity head n (after_round p identity head open_head s) open_head slots'
        (ap (λ v. get v head.request_id) table ∙ free) (rw table room) in
    let next = after_round p identity head open_head s in
    let opened : flood p identity head (suc n) s ≡ flood p identity head n next =
      ap (flood p identity head n) e in
    let more : length next.running ≡ length s.running + 1 =
      one_more p identity head open_head s slots in
    let runs : length (flood p identity head n next).running ≡ length next.running + n = rest.0 in
    (
      ap {A = ChannelServer} (λ v. length v.running) opened ∙ runs ∙ omega arith,
      ap {A = ChannelServer} (λ v. v.in_flight) opened ∙ rest.1 ∙ table,
    )
