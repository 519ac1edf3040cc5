-- ===== src/RuntimeLease.antt =====
-- src/runtime/runtimeLease.ts: the lease of the one process that may write the node's state.
-- A number stands for one call of `acquireRuntimeLease`: its process, and the nonce of its record.
pub mod Machine
pub mod Truth
pub mod Claims
pub mod Changes
pub mod Exclusive
pub mod Tests
use kubus_node.Base.{
  ℕ, zero, suc, ◌+◌, ◌-◌, ◌*◌, ◌/◌, ◌%◌, ◌^◌, ◌≤◌, ◌<◌, min, max, bit_and, bit_or, bit_xor, String,
  str_eq, starts_with, eq_iff, eq_refl, ◌≡◌, refl, sym, ap, ap₂, ◌∙◌, subst, ◌≡⟨◌⟩◌, ◌∎, ◌≢◌, ◌↔◌,
  ◌⊎◌, inl, inr, Bool, true, false, not, ◌&&◌, ◌||◌, Option, none, some, List, [], ◌∷◌, ◌++◌, map,
  map-append, append-nil, append_assoc, arith, ltb, leb, ◌==◌, if◌then◌else◌, if-both, ltb→lt,
  lt→ltb, le→ltb, leb→le, ==_iff, Bool-cases, Option-cases, is_some, length, get_or, take, drop,
  concat, every, any, All, length-append, length-take, length-drop, take-append-drop, take-append,
  drop-append, All-append, drop-drop, concat-append, Text, units, same_text, same_text_iff,
  begins_with, is_space, holds_unit, cut_unique, text_key, number_key, string_key, Dict, Key, get,
  put, remove, has, get-put, get-put_self, get-put_ne, get-remove, get-remove_self, get-remove_ne,
  length-put, length-remove, Values, Values-put, Values-remove, Values-get,
}

pub record Owner : Type 0 where
  pub pid : ℕ
  pub host : String
  pub namespace : String
  pub boot : Option String
  pub process_start : Option String

-- Two texts that are both given and differ; the empty text is falsy.
abbrev pub are_apart : Option String → Option String → Bool
are_apart none b = false
are_apart (some a) none = false
are_apart (some a) (some b) = not (str_eq a "") && not (str_eq b "") && not (str_eq a b)

-- What `process.kill(pid, 0)` finds.
pub data Probe : Type 0 where
  signalled no_such_process not_permitted : Probe

-- `live_start` is the start of the process that has the owner's pid now.
unfoldable pub proven_stopped : Probe → Option String → Owner → Owner → Bool
proven_stopped probe live_start owner current =
    if not (str_eq owner.host current.host)
    then false
    else if are_apart owner.boot current.boot
    then true
    else if not (str_eq owner.namespace current.namespace)
    then false
    else elim probe [
      | no_such_process ↦ true
      | not_permitted ↦ false
      | signalled ↦ are_apart owner.process_start live_start
    ]

-- What the calls write as their owner, and what the system tells of a pid. The set of the processes
-- that are alive is what the answers depend on.
pub record System : Type 0 where
  pub owner : ℕ → Owner
  pub probe : (ℕ → Bool) → ℕ → Probe
  pub live_start : (ℕ → Bool) → ℕ → Option String

-- `provenStopped` as `p` calls it of the owner that `q` wrote.
unfoldable pub stopped : System → (ℕ → Bool) → ℕ → ℕ → Bool
unfolding proven_stopped
stopped system alive p q =
    let pid = (system.owner q).pid in
    proven_stopped (system.probe alive pid) (system.live_start alive pid) (system.owner q)
      (system.owner p)
