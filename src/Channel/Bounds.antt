-- ===== src/Channel/Bounds.antt =====
-- src/webrtc/channelServer.ts: what holds of the table of requests after any events.
use kubus_node.Base.{
  ℕ, ◌≤◌, String, ◌≡◌, refl, ap, ◌∙◌, subst, List, [], ◌∷◌, arith, ==_iff, length, text_key,
  number_key, string_key, Dict, get, has,
}
use kubus_node.Identity.{NodeIdentity}
use kubus_node.Channel.{Platform, ChannelServer, new_server}
use kubus_node.Channel.Steps.{Event, step, run}
use kubus_node.Channel.Moves.{Move, keeps, admits, frees, finishes, shuts}
use kubus_node.Channel.Events.{step-Move}
use kubus_node.Channel.Slots.{Slots, Held, Move-Slots}

pub run-Slots :
    (p : Platform) (identity : NodeIdentity) (events : List Event) (s : ChannelServer)
    → Slots s
    → Slots (run p identity s events)
unfolding run
run-Slots p identity [] s slots = slots
run-Slots p identity (event ∷ events) s slots =
    run-Slots p identity events (step p identity s event)
      (Move-Slots s (step p identity s event) (step-Move p identity s event) slots)

pub new_server-Slots :
    (session_id : String) (max_requests max_bytes : ℕ)
    → Slots (new_server session_id max_requests max_bytes)
unfolding get has
new_server-Slots session_id max_requests max_bytes = record {
  bounded = omega arith;
  fresh = λ serial known. absurd (ground arith);
  held = λ id serial here. absurd (ground arith);
  recent = λ serial active. absurd (ground arith);
}

Move-limit :
    (s t : ChannelServer) → Move s t → t.max_concurrent_requests ≡ s.max_concurrent_requests
Move-limit s t (keeps runs table) = runs.2
Move-limit s t (frees id runs table) = runs.2
Move-limit s t (shuts runs table) = runs.2
Move-limit s t (admits id request free room table runs next limit new old) = limit
Move-limit s t (finishes serial id known table runs next limit ids) = limit

run-limit :
    (p : Platform) (identity : NodeIdentity) (events : List Event) (s : ChannelServer)
    → (run p identity s events).max_concurrent_requests ≡ s.max_concurrent_requests
unfolding run
run-limit p identity [] s = refl
run-limit p identity (event ∷ events) s =
    run-limit p identity events (step p identity s event)
    ∙ Move-limit s (step p identity s event) (step-Move p identity s event)

-- After any events on a new channel the table of requests holds no more than the limit, and every
-- id in it is that of an entry whose handler has not ended.
pub run-Held :
    (p : Platform) (identity : NodeIdentity) (session_id : String) (max_requests max_bytes : ℕ)
    (events : List Event)
    → (length (run p identity (new_server session_id max_requests max_bytes) events).in_flight
        ≤ max_requests)
      × Held (run p identity (new_server session_id max_requests max_bytes) events)
run-Held p identity session_id max_requests max_bytes events =
    let start = new_server session_id max_requests max_bytes in
    let slots =
      run-Slots p identity events start (new_server-Slots session_id max_requests max_bytes) in
    (
      subst (λ n. length (run p identity start events).in_flight ≤ n)
          (run-limit p identity events start) slots.bounded,
      slots.held,
    )

Held-idle : (s : ChannelServer) → Held s → s.running ≡ [] → s.in_flight ≡ []
unfolding get has
Held-idle s held idle = first s.in_flight refl
  where
    first : (table : Dict ℕ ℕ) → s.in_flight ≡ table → s.in_flight ≡ []
    first [] e = e
    first ((id, serial) ∷ table) e = absurd (
        ground
          (arith, ==_iff id id, ap (λ v. get v id) e, held id serial, ap (λ v. get v serial) idle))

-- When every handler of a channel has ended, its table is empty: no slot is lost to a request that
-- was cancelled, broke off or reused an id.
idle_table_empty :
    (p : Platform) (identity : NodeIdentity) (session_id : String) (max_requests max_bytes : ℕ)
    (events : List Event)
    → (run p identity (new_server session_id max_requests max_bytes) events).running ≡ []
    → (run p identity (new_server session_id max_requests max_bytes) events).in_flight ≡ []
idle_table_empty p identity session_id max_requests max_bytes events =
    Held-idle (run p identity (new_server session_id max_requests max_bytes) events)
      (run-Held p identity session_id max_requests max_bytes events).1
