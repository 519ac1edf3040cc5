-- ===== src/Channel/Slots.antt =====
-- src/webrtc/channelServer.ts: the table holds running requests only, and no more than the limit.
use kubus_node.Base.{
  ℕ, ◌+◌, ◌≤◌, ◌<◌, ◌≡◌, sym, ap, ◌∙◌, ◌≢◌, ◌⊎◌, inl, inr, true, some, [], arith, ◌==◌, ==_iff,
  Bool-cases, is_some, length, text_key, number_key, string_key, Dict, get, put, remove, has,
  get-put, get-put_self, get-put_ne, get-remove, get-remove_ne, length-put, length-remove,
}
use mathlib.Core.Option.{some-injective}
use kubus_node.Request.{LocalRequest}
use kubus_node.Channel.{ChannelServer}
use kubus_node.Channel.Moves.{Move, keeps, admits, frees, finishes, shuts, SameRuns, id_of}

-- Every id in the table is that of an entry whose handler runs.
abbrev pub Held : ChannelServer → Type 0
Held s =
    (id serial : ℕ)
    → get s.in_flight id ≡ some serial
    → (id_of s serial ≡ some id) × (has s.running serial ≡ true)

pub record Slots (s : ChannelServer) : Type 0 where
  pub bounded : length s.in_flight ≤ s.max_concurrent_requests
  pub fresh : (serial : ℕ) → is_some (id_of s serial) ≡ true → serial < s.next_serial
  pub held : Held s
  pub recent : (serial : ℕ) → has s.running serial ≡ true → serial < s.next_serial

keeps-Slots :
    (s t : ChannelServer)
    → SameRuns s t
    → length t.in_flight ≤ length s.in_flight
    → ((id serial : ℕ) → get t.in_flight id ≡ some serial → get s.in_flight id ≡ some serial)
    → Slots s
    → Slots t
keeps-Slots s t (runs, next, limit, ids) shorter sub slots = record {
  bounded = rw limit (ground (arith, slots.bounded));
  fresh = λ serial known. rw next (slots.fresh serial (ap is_some (sym (ids serial)) ∙ known));
  held = λ id serial here.
      let was = slots.held id serial (sub id serial here) in
      (ids serial ∙ was.0, ap (λ table. has table serial) runs ∙ was.1);
  recent = λ serial active.
      rw next (slots.recent serial (ap (λ table. has table serial) (sym runs) ∙ active));
}

has-put_self :
    (table : Dict ℕ LocalRequest) (key : ℕ) (request : LocalRequest)
    → has (put table key request) key ≡ true
unfolding has
has-put_self table key request = ap is_some (get-put_self table key request)

has-put_ne :
    (table : Dict ℕ LocalRequest) (key : ℕ) (request : LocalRequest) {other : ℕ}
    → key ≢ other
    → has (put table key request) other ≡ has table other
unfolding has
has-put_ne table key request apart = ap is_some (get-put_ne table key request apart)

has-remove_ne :
    (table : Dict ℕ LocalRequest) (key : ℕ) {other : ℕ}
    → key ≢ other
    → has (remove table key) other ≡ has table other
unfolding has
has-remove_ne table key apart = ap is_some (get-remove_ne table key apart)

-- What an insertion finds is the new entry or an old one.
found_or_old :
    (table : Dict ℕ ℕ) (id new other serial : ℕ)
    → get (put table id new) other ≡ some serial
    → ((id ≡ other) × (new ≡ serial)) ⊎ (get table other ≡ some serial)
found_or_old table id new other serial here = elim (Bool-cases (id == other)) [
  | inl hit ↦
      inl ((==_iff id other).0 hit, some-injective _ _ (ground (arith, get-put table id new other)))
  | inr miss ↦ inr (ground (arith, get-put table id new other))
]

admits-Slots :
    (s t : ChannelServer) (id : ℕ) (request : LocalRequest)
    → Slots s
    → t.in_flight ≡ put s.in_flight id s.next_serial
    → t.running ≡ put s.running s.next_serial request
    → id_of t s.next_serial ≡ some id
    → ((serial : ℕ) → s.next_serial ≢ serial → id_of t serial ≡ id_of s serial)
    → Held t
admits-Slots s t id request slots table runs new old other serial here =
    elim (found_or_old s.in_flight id s.next_serial other serial
      (ap (λ v. get v other) (sym table) ∙ here)) [
        | inl (hit, at) ↦ (
          ap (id_of t) (sym at) ∙ new ∙ ap some hit,
          ap (λ v. has v serial) runs
              ∙ ap (has (put s.running s.next_serial request)) (sym at)
              ∙ has-put_self s.running s.next_serial request,
        )
        | inr was ↦
            let apart = older other serial was in
            let kept = slots.held other serial was in
            (
              old serial apart ∙ kept.0,
              ap (λ v. has v serial) runs
                  ∙ has-put_ne s.running s.next_serial request apart
                  ∙ kept.1,
            )
      ]
  where
    older : (other serial : ℕ) → get s.in_flight other ≡ some serial → s.next_serial ≢ serial
    older other serial was =
        let below = slots.fresh serial (ap is_some (slots.held other serial was).0) in omega arith

admits-fresh :
    (s t : ChannelServer)
    → Slots s
    → t.next_serial ≡ s.next_serial + 1
    → ((serial : ℕ) → s.next_serial ≢ serial → id_of t serial ≡ id_of s serial)
    → (serial : ℕ) → is_some (id_of t serial) ≡ true
    → serial < t.next_serial
admits-fresh s t slots next old serial known = elim (Bool-cases (s.next_serial == serial)) [
  | inl hit ↦ let e = (==_iff s.next_serial serial).0 hit in omega arith
  | inr miss ↦
      let apart : s.next_serial ≢ serial = ground arith in
      let below = slots.fresh serial (ap is_some (sym (old serial apart)) ∙ known) in omega arith
]

admits-recent :
    (s t : ChannelServer) (request : LocalRequest)
    → Slots s
    → t.next_serial ≡ s.next_serial + 1
    → t.running ≡ put s.running s.next_serial request
    → (serial : ℕ) → has t.running serial ≡ true
    → serial < t.next_serial
admits-recent s t request slots next runs serial active =
    elim (Bool-cases (s.next_serial == serial)) [
      | inl hit ↦ let e = (==_iff s.next_serial serial).0 hit in omega arith
      | inr miss ↦
          let apart : s.next_serial ≢ serial = ground arith in
          let below = slots.recent serial (
            sym (has-put_ne s.running s.next_serial request apart)
            ∙ ap (λ v. has v serial) (sym runs)
            ∙ active) in
          omega arith
    ]

has-remove :
    (table : Dict ℕ LocalRequest) (key other : ℕ)
    → has (remove table key) other ≡ true
    → has table other ≡ true
unfolding has
has-remove table key other h = ground (arith, get-remove table key other)

finishes-Held :
    (s t : ChannelServer) (serial id : ℕ)
    → Slots s
    → id_of s serial ≡ some id
    → t.in_flight ≡ remove s.in_flight id
    → t.running ≡ remove s.running serial
    → ((serial : ℕ) → id_of t serial ≡ id_of s serial)
    → Held t
finishes-Held s t serial id slots known table runs ids other rest here =
    elim (Bool-cases (id == other)) [
      | inl hit ↦
          absurd (ground (arith, ap (λ v. get v other) table, get-remove s.in_flight id other))
      | inr miss ↦
          let was : get s.in_flight other ≡ some rest =
            ground (arith, ap (λ v. get v other) table, get-remove s.in_flight id other) in
          let kept = slots.held other rest was in
          let apart : serial ≢ rest =
            λ e. ground (arith, some-injective _ _ (sym known ∙ ap (id_of s) e ∙ kept.0)) in
          (
            ids rest ∙ kept.0,
            ap (λ v. has v rest) runs ∙ has-remove_ne s.running serial apart ∙ kept.1,
          )
    ]

none_left : (id serial : ℕ) → get {V = ℕ} [] id ≢ some serial
unfolding get
none_left id serial = ground arith

pub Move-Slots : (s t : ChannelServer) → Move s t → Slots s → Slots t
unfolding has
Move-Slots s t (keeps runs table) slots =
    keeps-Slots s t runs (ground (arith, ap length table))
      (λ id serial here. ap (λ v. get v id) (sym table) ∙ here) slots
Move-Slots s t (frees id runs table) slots =
    keeps-Slots s t runs (rw table (length-remove s.in_flight id))
      (λ other serial here.
        ground (arith, ap (λ v. get v other) table, get-remove s.in_flight id other))
      slots
Move-Slots s t (shuts runs table) slots =
    keeps-Slots s t runs (rw table (omega arith))
      (λ id serial here. absurd (none_left id serial (ap (λ v. get v id) (sym table) ∙ here))) slots
Move-Slots s t (admits id request free room table runs next limit new old) slots = record {
  bounded = rw (table, limit, length-put s.in_flight id s.next_serial, free) (omega arith);
  fresh = admits-fresh s t slots next old;
  held = admits-Slots s t id request slots table runs new old;
  recent = admits-recent s t request slots next runs;
}
Move-Slots s t (finishes serial id known table runs next limit ids) slots = record {
  bounded = rw (table, limit) (ground (arith, length-remove s.in_flight id, slots.bounded));
  fresh = λ other there. rw next (slots.fresh other (ap is_some (sym (ids other)) ∙ there));
  held = finishes-Held s t serial id slots known table runs ids;
  recent = λ other active. rw next (
      slots.recent other
        (has-remove s.running serial other (ap (λ v. has v other) (sym runs) ∙ active)));
}
