-- ===== src/Ubuntu/Ring.antt =====
-- learning/ubuntu-linux-internals/examples/ring_lifetime_model.py: requests of a ring and the
-- lifetime of their buffers. A request belongs to the ring from its submission to its completion.
pub mod Completion
pub mod Lifetime
use netai_devsecops_runbook.Prelude.{
  ℕ, ℤ, pos, negsuc, String, List, [], ◌∷◌, ◌++◌, Bool, true, false, Option, none, some, Dict,
  lookup, insert, erase, nat_key, nat_beq, Result, ok, err, if◌then◌else◌,
}

pub data State : Type 0 where
  submitted completed cancelled : State

pub record Request : Type 0 where
  pub request_id : ℕ
  pub buffer_name : String
  pub requested_bytes : ℕ
  pub state : State
  pub released : Bool

-- one constructor for each `raise`
pub data RingError : Type 0 where
  already_terminal released_twice released_early duplicate_id unknown_id : RingError

pub data ResultKind : Type 0 where
  errno bytes : ResultKind

abbrev is_submitted : State → Bool
is_submitted submitted = true
is_submitted _ = false

-- `result == -125`
abbrev terminal_state : ℤ → State
terminal_state (negsuc n) = if nat_beq n 124 then cancelled else completed
terminal_state (pos n) = completed

abbrev result_kind : ℤ → ResultKind
result_kind (negsuc n) = errno
result_kind (pos n) = bytes

unfoldable pub finish : Request → ℤ → Result RingError (Request × ResultKind)
finish r result =
    if is_submitted r.state
    then ok (record r { state = terminal_state result }, result_kind result)
    else err already_terminal

unfoldable pub release_once : Request → Result RingError Request
release_once r =
    if r.released
    then err released_twice
    else if is_submitted r.state
    then err released_early
    else ok (record r { released = true })

pub record RingModel : Type 0 where
  pub pending : Dict ℕ Request
  pub release_log : List String

unfoldable pub empty_ring : RingModel
empty_ring = record { pending = []; release_log = [] }

unfoldable pub submit : RingModel → Request → Result RingError (Unit {0}) × RingModel
submit ring request = elim (lookup request.request_id ring.pending) [
  | some _ ↦ (err duplicate_id, ring)
  | none ↦ (ok tt, record ring { pending = insert request.request_id request ring.pending })
]

-- the calls of `complete` on the request that it popped
settle : RingModel → Request → ℤ → Result RingError (Request × ResultKind) × RingModel
unfolding finish release_once
settle ring request result = elim (finish request result) [
  | err e ↦ (err e, ring)
  | ok (finished, kind) ↦ elim (release_once finished) [
    | err e ↦ (err e, ring)
    | ok released ↦ (
      ok (released, kind),
      record ring { release_log = ring.release_log ++ released.buffer_name ∷ [] },
    )
  ]
]

unfoldable pub complete : RingModel → ℕ → ℤ → Result RingError (Request × ResultKind) × RingModel
unfolding settle
complete ring request_id result = elim (lookup request_id ring.pending) [
  | none ↦ (err unknown_id, ring)
  | some request ↦ settle (record ring { pending = erase request_id ring.pending }) request result
]

pub data Call : Type 0 where
  submitting : Request → Call
  completing : ℕ → ℤ → Call

-- calls one after the other, whose callers handle the exceptions
unfoldable pub run : RingModel → List Call → RingModel
unfolding submit complete
run ring [] = ring
run ring (submitting request ∷ calls) = run (submit ring request).1 calls
run ring (completing request_id result ∷ calls) = run (complete ring request_id result).1 calls
