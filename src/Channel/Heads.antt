-- ===== src/Channel/Heads.antt =====
-- src/webrtc/channelServer.ts: the state after the head of a request, and after its cancellation.
use kubus_node.Base.{
  ℕ, ◌+◌, ◌<◌, str_eq, ◌≡◌, refl, true, false, none, some, [], ◌∷◌, arith, leb, ==_iff, is_some,
  length, text_key, number_key, string_key, Dict, get, put, remove, has, length-remove,
}
use kubus_node.Json.{member}
use kubus_node.Frame.{KubusFrame}
use kubus_node.Frame.Receive.{is_final_frame}
use kubus_node.Identity.{NodeIdentity}
use kubus_node.Channel.{
  Platform, ChannelServer, InFlight, cancelled_by_peer, identity_challenge_path,
}
use kubus_node.Channel.Bodies.{text_or}
use kubus_node.Channel.Handlers.{
  on_request_head, admit, run_request, local_request, new_entry, or_no_fields,
}
use kubus_node.Channel.Steps.{lookup_entry, drop_id, update_entry, cancel_entry, on_cancel}

pub length-remove_present {κ} :
    {V : Type κ} (table : Dict ℕ V) (key : ℕ)
    → is_some (get table key) ≡ true
    → length (remove table key) < length table
unfolding get remove
length-remove_present [] key here = absurd (ground arith)
length-remove_present ((at, value) ∷ table) key here =
    ground (arith, length-remove table key, length-remove_present table key)

pub remove-put {κ} :
    {V : Type κ} (table : Dict ℕ V) (key : ℕ) (value : V)
    → get table key ≡ none
    → remove (put table key value) key ≡ table
unfolding get remove put
remove-put [] key value missing = ground (arith, ==_iff key key)
remove-put ((at, old) ∷ table) key value missing =
    ground (arith, remove-put table key value, ==_iff at key)

-- The head of an ordinary request that has a body to come.
abbrev pub IsOpenHead : Platform → KubusFrame → Type 0
IsOpenHead p head =
    (is_final_frame head ≡ false)
    × (str_eq (text_or p "" (member "path" (or_no_fields head.metadata))) identity_challenge_path
        ≡ false)

abbrev pub started_entry : Platform → KubusFrame → ChannelServer → InFlight
started_entry p head s = record (new_entry p head s) { started = true }

-- The server after such a head.
abbrev pub with_request : Platform → KubusFrame → ChannelServer → ChannelServer
with_request p head s = record s {
  entries =
      put (put s.entries s.next_serial (new_entry p head s)) s.next_serial (started_entry p head s);
  next_serial = s.next_serial + 1;
  in_flight = put s.in_flight head.request_id s.next_serial;
  running = put s.running s.next_serial (local_request p (new_entry p head s) s);
}

pub on_request_head-open :
    (p : Platform) (identity : NodeIdentity) (head : KubusFrame) (s : ChannelServer)
    → IsOpenHead p head
    → get s.in_flight head.request_id ≡ none
    → length s.in_flight < s.max_concurrent_requests
    → on_request_head p identity head s ≡ with_request p head s
unfolding on_request_head admit run_request has local_request
on_request_head-open p identity head s (more, ordinary) free room =
    let below : leb s.max_concurrent_requests (length s.in_flight) ≡ false = ground arith in
    rw (free, ordinary, below, more, on_request_head, admit, run_request) refl

pub lookup_entry-held :
    (s : ChannelServer) (request_id serial : ℕ) (entry : InFlight)
    → get s.in_flight request_id ≡ some serial
    → get s.entries serial ≡ some entry
    → lookup_entry s request_id ≡ some (serial, entry)
unfolding lookup_entry
lookup_entry-held s request_id serial entry here found = rw (here, found, lookup_entry) refl

abbrev pub cancelled_state : ℕ → ℕ → InFlight → ChannelServer → ChannelServer
cancelled_state request_id serial entry s =
    drop_id request_id (update_entry serial (cancel_entry cancelled_by_peer entry) s)

pub on_cancel-held :
    (s : ChannelServer) (request_id serial : ℕ) (entry : InFlight)
    → get s.in_flight request_id ≡ some serial
    → get s.entries serial ≡ some entry
    → on_cancel request_id s ≡ cancelled_state request_id serial entry s
unfolding on_cancel
on_cancel-held s request_id serial entry here found =
    rw (lookup_entry-held s request_id serial entry here found, on_cancel) refl
