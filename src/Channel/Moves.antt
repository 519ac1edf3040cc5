-- ===== src/Channel/Moves.antt =====
-- src/webrtc/channelServer.ts: the moves of the table of requests, and those of chunks, cancellation and the end of the channel.
use kubus_node.Base.{
  ℕ, ◌+◌, ◌<◌, String, ◌≡◌, refl, sym, ap, ◌∙◌, subst, ◌≢◌, inl, inr, Option, none, some, [], ◌∷◌,
  arith, if-both, Bool-cases, Option-cases, length, text_key, number_key, string_key, Dict, get,
  put, remove, get-put,
}
use mathlib.Core.Option.{some-injective}
use kubus_node.Frame.{KubusFrame}
use kubus_node.Frame.Stream.{StreamError, append, verify}
use kubus_node.Frame.Receive.{is_final_frame}
use kubus_node.Request.{LocalRequest}
use kubus_node.Channel.{Platform, ChannelServer, InFlight, cancelled_by_peer, channel_closed}
use kubus_node.Channel.Replies.{send_error, error_frame}
use kubus_node.Channel.Sent.{SentOnly, send-SentOnly}
use kubus_node.Channel.Steps.{
  lookup_entry, update_entry, drop_id, break_body, receive_body, on_request_chunk, cancel_entry,
  on_cancel, cancel_all, close,
}

abbrev pub entry_id : Option InFlight → Option ℕ
entry_id none = none
entry_id (some entry) = some entry.id

-- The request id of a serial.
abbrev pub id_of : ChannelServer → ℕ → Option ℕ
id_of server serial = entry_id (get server.entries serial)

abbrev pub SameIds : Dict ℕ InFlight → Dict ℕ InFlight → Type 0
SameIds entries entries' =
    (serial : ℕ) → entry_id (get entries' serial) ≡ entry_id (get entries serial)

-- The handlers and the limit are as they were.
abbrev pub SameRuns : ChannelServer → ChannelServer → Type 0
SameRuns s t =
    (t.running ≡ s.running)
    × (t.next_serial ≡ s.next_serial)
    × (t.max_concurrent_requests ≡ s.max_concurrent_requests)
    × SameIds s.entries t.entries

-- What one event does to the table: nothing, a request let in under a free id and below the limit,
-- an id freed while its handler runs, a handler that ends, or the end of the channel.
pub data Move (s t : ChannelServer) : Type 0 where
  keeps : SameRuns s t → t.in_flight ≡ s.in_flight → Move s t
  admits :
      (id : ℕ) (request : LocalRequest)
      → get s.in_flight id ≡ none
      → length s.in_flight < s.max_concurrent_requests
      → t.in_flight ≡ put s.in_flight id s.next_serial
      → t.running ≡ put s.running s.next_serial request
      → t.next_serial ≡ s.next_serial + 1
      → t.max_concurrent_requests ≡ s.max_concurrent_requests
      → id_of t s.next_serial ≡ some id
      → ((serial : ℕ) → s.next_serial ≢ serial → id_of t serial ≡ id_of s serial)
      → Move s t
  frees : (id : ℕ) → SameRuns s t → t.in_flight ≡ remove s.in_flight id → Move s t
  finishes :
      (serial id : ℕ)
      → id_of s serial ≡ some id
      → t.in_flight ≡ remove s.in_flight id
      → t.running ≡ remove s.running serial
      → t.next_serial ≡ s.next_serial
      → t.max_concurrent_requests ≡ s.max_concurrent_requests
      → SameIds s.entries t.entries
      → Move s t
  shuts : SameRuns s t → t.in_flight ≡ [] → Move s t

lookup_entry-some :
    (server : ChannelServer) (request_id : ℕ) {found : ℕ × InFlight}
    → lookup_entry server request_id ≡ some found
    → get server.entries found.0 ≡ some found.1
unfolding lookup_entry
lookup_entry-some server request_id {found} e =
    elim (Option-cases (get server.in_flight request_id)) [
      | inl missing ↦ absurd (ground arith)
      | inr (serial, here) ↦ elim (Option-cases (get server.entries serial)) [
        | inl missing ↦ absurd (ground arith)
        | inr (entry, there) ↦
            let same : (serial, entry) ≡ found =
              some-injective _ _ (rw (here, there, lookup_entry) at e) in
            subst {A = ℕ × InFlight} (λ v. get server.entries v.0 ≡ some v.1) same there
      ]
    ]

-- An entry that is written back under its serial with its id.
put-SameIds :
    (entries : Dict ℕ InFlight) (serial : ℕ) (entry entry' : InFlight)
    → get entries serial ≡ some entry
    → entry'.id ≡ entry.id
    → SameIds entries (put entries serial entry')
put-SameIds entries serial entry entry' found same other =
    ground (arith, get-put entries serial entry' other)

cancel_all-SameIds :
    (table : Dict ℕ ℕ) (entries : Dict ℕ InFlight) → SameIds entries (cancel_all table entries)
unfolding cancel_all
cancel_all-SameIds [] entries other = refl
cancel_all-SameIds ((id, serial) ∷ table) entries other = elim (Option-cases (get entries serial)) [
  | inl missing ↦ rw (missing, cancel_all) (cancel_all-SameIds table entries other)
  | inr (entry, found) ↦
      rw (found, cancel_all)
        (cancel_all-SameIds table (put entries serial (cancel_entry channel_closed entry)) other
          ∙ put-SameIds entries serial entry (cancel_entry channel_closed entry) found refl other)
]

pub same : (s : ChannelServer) → SameRuns s s
same s = (refl, refl, refl, λ serial. refl)

pub SentOnly-keeps : (s t : ChannelServer) → SentOnly s t → Move s t
SentOnly-keeps s t (frames, e) = rw e (keeps (same s) refl)

pub close-Move : (s t : ChannelServer) → SameRuns s t → t.in_flight ≡ s.in_flight → Move s (close t)
unfolding close
close-Move s t runs table = if-both (Move s) t.closed (keeps runs table) (
    shuts
      (
        runs.0,
        runs.1,
        runs.2,
        λ serial. cancel_all-SameIds t.in_flight t.entries serial ∙ runs.3 serial,
      )
      refl)

send_error-drop-Move :
    (p : Platform) (request_id : ℕ) (text : String) (s t : ChannelServer)
    → SameRuns s t
    → t.in_flight ≡ s.in_flight
    → Move s (drop_id request_id (send_error p request_id text t))
send_error-drop-Move p request_id text s t runs table =
    let (frames, e) = send-SentOnly p (error_frame request_id text) t in
    subst {A = ChannelServer} (λ v. Move s (drop_id request_id v)) (sym e)
      (frees request_id runs (ap (λ table. remove table request_id) table))

receive_body-Move :
    (p : Platform) (frame : KubusFrame) (serial : ℕ) (entry : InFlight) (s : ChannelServer)
    → get s.entries serial ≡ some entry
    → Move s (receive_body p frame serial entry s)
unfolding receive_body
receive_body-Move p frame serial entry s found =
    elim (Option-cases (append entry.reassembler frame.payload).1) [
      | inr (e, bad) ↦ rw (bad, receive_body) (broken e)
      | inl fine ↦ elim (Bool-cases (is_final_frame frame)) [
        | inr more ↦ rw (fine, more, receive_body) (updated _ refl)
        | inl final ↦
            elim (Option-cases (verify (append entry.reassembler frame.payload).0 frame.metadata)) [
              | inr (e, bad) ↦ rw (fine, final, bad, receive_body) (broken e)
              | inl whole ↦ rw (fine, final, whole, receive_body) (updated _ refl)
            ]
      ]
    ]
  where
    current : InFlight
    current = record entry { reassembler = (append entry.reassembler frame.payload).0 }

    updated : (entry' : InFlight) → entry'.id ≡ entry.id → Move s (update_entry serial entry' s)
    updated entry' same =
        keeps (refl, refl, refl, put-SameIds s.entries serial entry entry' found same) refl

    broken : (e : StreamError) → Move s (break_body p frame.request_id serial current e s)
    broken e =
        send_error-drop-Move p frame.request_id "request_body_invalid" s _
          (refl, refl, refl, put-SameIds s.entries serial entry _ found refl) refl

pub on_request_chunk-Move :
    (p : Platform) (frame : KubusFrame) (s : ChannelServer) → Move s (on_request_chunk p frame s)
unfolding on_request_chunk
on_request_chunk-Move p frame s = elim (Option-cases (lookup_entry s frame.request_id)) [
  | inl missing ↦ rw (missing, on_request_chunk) (keeps (same s) refl)
  | inr (found, e) ↦
      rw (e, on_request_chunk)
        (if-both (Move s) found.1.cancelled (keeps (same s) refl)
          (receive_body-Move p frame found.0 found.1 s (lookup_entry-some s frame.request_id e)))
]

pub on_cancel-Move : (request_id : ℕ) (s : ChannelServer) → Move s (on_cancel request_id s)
unfolding on_cancel
on_cancel-Move request_id s = elim (Option-cases (lookup_entry s request_id)) [
  | inl missing ↦ rw (missing, on_cancel) (keeps (same s) refl)
  | inr (found, e) ↦
      rw (e, on_cancel)
        (frees request_id
          (
            refl,
            refl,
            refl,
            put-SameIds s.entries found.0 found.1 (cancel_entry cancelled_by_peer found.1)
                (lookup_entry-some s request_id e) refl,
          )
          refl)
]
