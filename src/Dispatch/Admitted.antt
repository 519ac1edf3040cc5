-- ===== src/Dispatch/Admitted.antt =====
-- src/localApi/dispatch.ts, `AdmissionLimiter`: how many challenges it lets in.
use kubus_node.Base.{
  ℕ, ◌+◌, ◌≤◌, ◌<◌, ◌≡◌, refl, sym, ap, ◌∙◌, subst, inl, inr, Bool, true, false, ◌&&◌, some, List,
  [], ◌∷◌, arith, leb, if◌then◌else◌, if-both, lt→ltb, Bool-cases, length, All, Text, same_text,
  same_text_iff, text_key, number_key, string_key, get, put, get-put, length-put,
}
use kubus_node.Pairing.Limiter.{Attempts, global_is_over}
use kubus_node.Dispatch.Admission.{
  AdmissionLimiter, bucket_of, room_for, admit_client, assert_admitted,
}

-- How many of the challenges, each of a client at a time, are let in.
abbrev pub admissions : List (Text × ℕ) → AdmissionLimiter → ℕ
admissions [] limiter = 0
admissions ((client, now) ∷ calls) limiter =
    (if (assert_admitted client now limiter).1 then 1 else 0)
    + admissions calls (assert_admitted client now limiter).0

-- How many of them are of one client and let in.
abbrev pub admissions_of : Text → List (Text × ℕ) → AdmissionLimiter → ℕ
admissions_of own [] limiter = 0
admissions_of own ((client, now) ∷ calls) limiter =
    (if same_text client own && (assert_admitted client now limiter).1 then 1 else 0)
    + admissions_of own calls (assert_admitted client now limiter).0

-- One call inside the window of all clients.
record IsCounted (start : ℕ) (before after : AdmissionLimiter) (allowed : Bool) : Type 0 where
  pub same_window : after.global_window_started_at ≡ some start
  pub same_length : after.window_ms ≡ before.window_ms
  pub same_limit : after.max_global ≡ before.max_global
  pub counted : after.global_count ≡ (if allowed then 1 else 0) + before.global_count
  pub bounded : before.global_count ≤ before.max_global → after.global_count ≤ before.max_global

assert_admitted-IsCounted :
    (client : Text) (now start : ℕ) (limiter : AdmissionLimiter)
    → limiter.global_window_started_at ≡ some start
    → now < start + limiter.window_ms
    → IsCounted start limiter
        (assert_admitted client now limiter).0
        (assert_admitted client now limiter).1
unfolding assert_admitted admit_client
assert_admitted-IsCounted client now start limiter window inside = record {
  same_window = ground arith;
  same_length = ground arith;
  same_limit = ground arith;
  counted = ground arith;
  bounded = λ h. ground arith;
}

-- However many challenges ask for a proof of identity within one window of all clients, and whoever
-- sends them, no more than `maxGlobal` are let in, those counted before included. (The count so far
-- is within the ceiling.)
pub admissions_bound :
    (calls : List (Text × ℕ)) (start : ℕ) (limiter : AdmissionLimiter)
    → limiter.global_window_started_at ≡ some start
    → All (λ call. call.1 < start + limiter.window_ms) calls
    → limiter.global_count ≤ limiter.max_global
    → admissions calls limiter + limiter.global_count ≤ limiter.max_global
admissions_bound [] start limiter window inside room = omega arith
admissions_bound ((client, now) ∷ calls) start limiter window (first, inside) room =
    let next = (assert_admitted client now limiter).0 in
    let c = assert_admitted-IsCounted client now start limiter window first in
    let within : All (λ call. call.1 < start + next.window_ms) calls =
      subst (λ w. All (λ call. call.1 < start + w) calls) (sym c.same_length) inside in
    let rest =
      admissions_bound calls start next c.same_window within
        (ground (arith, c.same_limit, c.bounded room)) in
    ground (arith, rest, c.same_limit, c.counted)

-- One call inside the window of a client, with room in the table for its key.
record IsTallied (own : Text) (start count : ℕ) (before after : AdmissionLimiter) (let_in : Bool)
    : Type 0 where
  pub same_length : after.window_ms ≡ before.window_ms
  pub same_limit : after.max_per_client ≡ before.max_per_client
  pub same_room : after.max_tracked_keys ≡ before.max_tracked_keys
  pub grown : length after.clients ≤ length before.clients + 1
  pub tallied :
      get after.clients own
      ≡ some (record { window_started_at = start; count = (if let_in then 1 else 0) + count })
  pub bounded :
      count ≤ before.max_per_client → (if let_in then 1 else 0) + count ≤ before.max_per_client

unchanged-IsTallied :
    (own : Text) (start count : ℕ) (limiter : AdmissionLimiter) (same : Bool)
    → get limiter.clients own ≡ some (record { window_started_at = start; count = count })
    → IsTallied own start count limiter limiter (same && false)
unchanged-IsTallied own start count limiter same found = record {
  same_length = refl;
  same_limit = refl;
  same_room = refl;
  grown = omega arith;
  tallied = ground (arith, found);
  bounded = λ h. ground (arith, h);
}

room_for-roomy :
    (client : Text) (limiter : AdmissionLimiter)
    → length limiter.clients < limiter.max_tracked_keys
    → room_for client limiter ≡ limiter.clients
unfolding room_for
room_for-roomy client limiter room = ground (arith, room)

-- The client's own bucket, inside its window.
bucket_of-own :
    (own client : Text) (now start count : ℕ) (limiter : AdmissionLimiter)
    → get limiter.clients own ≡ some (record { window_started_at = start; count = count })
    → now < start + limiter.window_ms
    → same_text client own ≡ true
    → bucket_of limiter.window_ms now (get limiter.clients client)
      ≡ record { window_started_at = start; count = count }
bucket_of-own own client now start count limiter found inside mine =
    let e : own ≡ client = sym ((same_text_iff client own).0 mine) in
    let known : get limiter.clients client
        ≡ some (record { window_started_at = start; count = count }) =
      subst {A = Text}
        (λ k. get limiter.clients k ≡ some (record { window_started_at = start; count = count })) e
        found in
    rw (known, lt→ltb now (start + limiter.window_ms) inside) refl

admitted-IsTallied :
    (own client : Text) (now start count : ℕ) (limiter : AdmissionLimiter)
    → get limiter.clients own ≡ some (record { window_started_at = start; count = count })
    → now < start + limiter.window_ms
    → let bucket = bucket_of limiter.window_ms now (get limiter.clients client) in
      leb limiter.max_per_client bucket.count ≡ false
      → IsTallied own start count limiter
          (record limiter {
            clients = put limiter.clients client (record bucket { count = bucket.count + 1 });
            global_count = limiter.global_count + 1;
          })
          (same_text client own && true)
admitted-IsTallied own client now start count limiter found inside below =
    let bucket = bucket_of limiter.window_ms now (get limiter.clients client) in
    let written = get-put limiter.clients client (record bucket { count = bucket.count + 1 }) own in
    let size = length-put limiter.clients client (record bucket { count = bucket.count + 1 }) in
    elim (Bool-cases (same_text client own)) [
      | inl mine ↦
          let same = bucket_of-own own client now start count limiter found inside mine in
          record {
            same_length = refl;
            same_limit = refl;
            same_room = refl;
            grown = ground (arith, size);
            tallied = written ∙ rw (mine, same) (ap some (ground arith));
            bounded = λ h. rw mine (ground (arith, below, ap {A = Attempts} (λ a. a.count) same));
          }
      | inr other ↦ record {
        same_length = refl;
        same_limit = refl;
        same_room = refl;
        grown = ground (arith, size);
        tallied =
            written
            ∙ rw other (
                found
                ∙ ap {A = ℕ} (λ n. some (record { window_started_at = start; count = n }))
                    (omega arith));
        bounded = λ h. rw other (omega (arith, h));
      }
    ]

admit_client-IsTallied :
    (own client : Text) (now start count : ℕ) (limiter : AdmissionLimiter)
    → get limiter.clients own ≡ some (record { window_started_at = start; count = count })
    → now < start + limiter.window_ms
    → length limiter.clients < limiter.max_tracked_keys
    → IsTallied own start count limiter
        (admit_client client now limiter).0
        (same_text client own && (admit_client client now limiter).1)
unfolding admit_client
admit_client-IsTallied own client now start count limiter found inside room =
    let bucket = bucket_of limiter.window_ms now (get limiter.clients client) in
    elim (Bool-cases (leb limiter.max_per_client bucket.count)) [
      | inl over ↦ rw (over, admit_client) (unchanged-IsTallied own start count limiter _ found)
      | inr below ↦ elim (Bool-cases (leb limiter.max_global limiter.global_count)) [
        | inl full ↦
            rw (below, full, admit_client) (unchanged-IsTallied own start count limiter _ found)
        | inr free ↦
            rw (below, free, room_for-roomy client limiter room, admit_client)
              (admitted-IsTallied own client now start count limiter found inside below)
      ]
    ]

assert_admitted-IsTallied :
    (own client : Text) (now start count : ℕ) (limiter : AdmissionLimiter)
    → get limiter.clients own ≡ some (record { window_started_at = start; count = count })
    → now < start + limiter.window_ms
    → length limiter.clients < limiter.max_tracked_keys
    → IsTallied own start count limiter
        (assert_admitted client now limiter).0
        (same_text client own && (assert_admitted client now limiter).1)
unfolding assert_admitted
assert_admitted-IsTallied own client now start count limiter found inside room =
    if-both
      (λ (l : AdmissionLimiter).
        IsTallied own start count limiter (admit_client client now l).0
          (same_text client own && (admit_client client now l).1))
      (global_is_over limiter.window_ms now limiter.global_window_started_at)
      (let t =
          admit_client-IsTallied own client now start count
            (record limiter { global_window_started_at = some now; global_count = 0 }) found inside
            room in
        record {
          same_length = t.same_length;
          same_limit = t.same_limit;
          same_room = t.same_room;
          grown = t.grown;
          tallied = t.tallied;
          bounded = t.bounded;
        })
      (admit_client-IsTallied own client now start count limiter found inside room)

-- However many challenges come within the window of a client, from whoever, no more than
-- `maxPerClient` of the client's own are let in, those counted before included. (The table has room
-- for a key of each call, so that the client's entry is not pushed out, and the client's count so far
-- is within the ceiling.)
pub admissions_of_bound :
    (own : Text) (calls : List (Text × ℕ)) (start count : ℕ) (limiter : AdmissionLimiter)
    → get limiter.clients own ≡ some (record { window_started_at = start; count = count })
    → All (λ call. call.1 < start + limiter.window_ms) calls
    → length limiter.clients + length calls ≤ limiter.max_tracked_keys
    → count ≤ limiter.max_per_client
    → admissions_of own calls limiter + count ≤ limiter.max_per_client
admissions_of_bound own [] start count limiter found inside room low = omega arith
admissions_of_bound own ((client, now) ∷ calls) start count limiter found (first, inside) room low =
    let next = (assert_admitted client now limiter).0 in
    let let_in = same_text client own && (assert_admitted client now limiter).1 in
    let t =
      assert_admitted-IsTallied own client now start count limiter found first (omega arith) in
    let within : All (λ call. call.1 < start + next.window_ms) calls =
      subst (λ w. All (λ call. call.1 < start + w) calls) (sym t.same_length) inside in
    let rest =
      admissions_of_bound own calls start ((if let_in then 1 else 0) + count) next t.tallied within
        (omega (arith, t.grown, t.same_room)) (rw t.same_limit (t.bounded low)) in
    omega (arith, rest, t.same_limit)
