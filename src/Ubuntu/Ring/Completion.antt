-- ===== src/Ubuntu/Ring/Completion.antt =====
-- ring_lifetime_model.py, `complete`: its answer, its buffer and its ID, whatever the ring holds.
use netai_devsecops_runbook.Prelude.{
  nat_beq, if◌then◌else◌, Bool-cases, Option-cases, ℤ, lookup, erase, lookup-erase, Result, ℕ,
  String, ◌≡◌, refl, ◌≢◌, ◌⊎◌, inl, inr, true, false, none, some, List, [], ◌∷◌, ◌++◌, arith, pos,
  negsuc, ok, err, nat_key, nat_beq_iff, ℕ_discrete,
}
use netai_devsecops_runbook.Ubuntu.Ring.{
  State, submitted, completed, cancelled, Request, RingModel, complete, ResultKind, errno, bytes,
  RingError, unknown_id, already_terminal, released_twice, is_submitted, result_kind,
}
use netai_devsecops_runbook.Ubuntu.Ring.Lifetime.{complete_fresh, complete_unknown, settled}

-- how a request ends: -125 is the result of a request that was cancelled
pub data EndsIn : ℤ → State → Type 0 where
  by_cancel : EndsIn (negsuc 124) cancelled
  by_error : {n : ℕ} → n ≢ 124 → EndsIn (negsuc n) completed
  by_transfer : {n : ℕ} → EndsIn (pos n) completed

pub data HasKind : ℤ → ResultKind → Type 0 where
  of_error : {n : ℕ} → HasKind (negsuc n) errno
  of_transfer : {n : ℕ} → HasKind (pos n) bytes

-- the request that is returned, beside the one that was submitted
pub record IsEnded (r : Request) (result : ℤ) (f : Request) : Type 0 where
  pub request_id : f.request_id ≡ r.request_id
  pub buffer_name : f.buffer_name ≡ r.buffer_name
  pub requested_bytes : f.requested_bytes ≡ r.requested_bytes
  pub state : EndsIn result f.state
  pub released : f.released ≡ true

-- the answer of a completion, and the buffers that have been released after it
pub data Completion (ring : RingModel) (id : ℕ) (result : ℤ)
    : Result RingError (Request × ResultKind) → List String → Type 0 where
  unknown :
      lookup id ring.pending ≡ none → Completion ring id result (err unknown_id) ring.release_log
  ended_before :
      (r : Request)
      → lookup id ring.pending ≡ some r
      → r.state ≢ submitted
      → Completion ring id result (err already_terminal) ring.release_log
  released_before :
      (r : Request)
      → lookup id ring.pending ≡ some r
      → r.state ≡ submitted
      → r.released ≡ true
      → Completion ring id result (err released_twice) ring.release_log
  ended :
      (r f : Request) (kind : ResultKind)
      → lookup id ring.pending ≡ some r
      → r.state ≡ submitted
      → r.released ≡ false
      → IsEnded r result f
      → HasKind result kind
      → Completion ring id result (ok (f, kind)) (ring.release_log ++ r.buffer_name ∷ [])

state-cases : (s : State) → (s ≡ submitted) ⊎ ((s ≢ submitted) × (is_submitted s ≡ false))
state-cases submitted = inl refl
state-cases completed = inr (λ e. cc, refl)
state-cases cancelled = inr (λ e. cc, refl)

without : RingModel → ℕ → RingModel
without ring id = record ring { pending = erase id ring.pending }

complete_ended :
    (ring : RingModel) (id : ℕ) (result : ℤ) (r : Request)
    → lookup id ring.pending ≡ some r
    → is_submitted r.state ≡ false
    → complete ring id result ≡ (err already_terminal, without ring id)
unfolding complete without
complete_ended ring id result r h s = rw (h, complete) (ground (arith, s))

complete_released :
    (ring : RingModel) (id : ℕ) (result : ℤ) (r : Request)
    → lookup id ring.pending ≡ some r
    → r.state ≡ submitted
    → r.released ≡ true
    → complete ring id result ≡ (err released_twice, without ring id)
unfolding complete without
complete_released ring id result r h s t = rw (h, complete) (ground (arith, s, t))

complete_found-pending :
    (ring : RingModel) (id : ℕ) (result : ℤ) (r : Request)
    → lookup id ring.pending ≡ some r
    → (complete ring id result).1.pending ≡ erase id ring.pending
unfolding without
complete_found-pending ring id result r found = elim (state-cases r.state) [
  | inr (over, off) ↦ rw (complete_ended ring id result r found off)
  | inl before ↦ elim (Bool-cases r.released) [
    | inl gone ↦ rw (complete_released ring id result r found before gone)
    | inr held ↦ rw (complete_fresh ring id result r (before, held) found)
  ]
]

complete-pending :
    (ring : RingModel) (id other : ℕ) (result : ℤ)
    → lookup other (complete ring id result).1.pending
      ≡ (if nat_beq id other then none else lookup other ring.pending)
complete-pending ring id other result = elim (Option-cases (lookup id ring.pending)) [
  | inl missing ↦
      rw (complete_unknown ring id result missing) (ground (arith, nat_beq_iff id other, missing))
  | inr (r, found) ↦
      rw (complete_found-pending ring id result r found) (lookup-erase id other ring.pending)
]

EndsIn-negsuc : (n : ℕ) → EndsIn (negsuc n) (if nat_beq n 124 then cancelled else completed)
EndsIn-negsuc n = elim (ℕ_discrete n 124) [
  | yes e ↦ rw e by_cancel
  | no other ↦ let off : nat_beq n 124 ≡ false = ground arith in rw off (by_error other)
]

settled-IsEnded : (r : Request) (result : ℤ) → IsEnded r result (settled r result)
settled-IsEnded r (ℤ.pos n) = record {
  request_id = refl;
  buffer_name = refl;
  requested_bytes = refl;
  state = by_transfer;
  released = refl;
}
settled-IsEnded r (ℤ.negsuc n) = record {
  request_id = refl;
  buffer_name = refl;
  requested_bytes = refl;
  state = EndsIn-negsuc n;
  released = refl;
}

result_kind-HasKind : (result : ℤ) → HasKind result (result_kind result)
result_kind-HasKind (ℤ.pos n) = of_transfer
result_kind-HasKind (ℤ.negsuc n) = of_error

complete-Completion :
    (ring : RingModel) (id : ℕ) (result : ℤ)
    → Completion ring id result (complete ring id result).0 (complete ring id result).1.release_log
unfolding without
complete-Completion ring id result = elim (Option-cases (lookup id ring.pending)) [
  | inl missing ↦ rw (complete_unknown ring id result missing) (unknown missing)
  | inr (r, found) ↦ elim (state-cases r.state) [
    | inr (over, off) ↦ rw (complete_ended ring id result r found off) (ended_before r found over)
    | inl before ↦ elim (Bool-cases r.released) [
      | inl gone ↦
          rw (complete_released ring id result r found before gone)
            (released_before r found before gone)
      | inr held ↦ rw (complete_fresh ring id result r (before, held) found) (
          ended r (settled r result) (result_kind result) found before held
            (settled-IsEnded r result) (result_kind-HasKind result))
    ]
  ]
]

-- Whatever the ring holds, a completion answers as the request of its ID says. Without one it
-- raises; where the request has ended or its buffer was released before, it raises too, and no
-- buffer is released; else it returns the request in its terminal state, cancelled for the result
-- -125 and else completed, with the kind of the result, and releases its buffer. Then the ID is
-- free and what is pending under the others is as before, and a second completion raises and
-- changes nothing.
pub complete-IsFinal :
    (ring : RingModel) (id other : ℕ) (result again : ℤ)
    → Completion ring id result (complete ring id result).0 (complete ring id result).1.release_log
      × (lookup other (complete ring id result).1.pending
          ≡ (if nat_beq id other then none else lookup other ring.pending))
      × (complete (complete ring id result).1 id again
          ≡ (err unknown_id, (complete ring id result).1))
complete-IsFinal ring id other result again =
    let free : lookup id (complete ring id result).1.pending ≡ none =
      ground (arith, complete-pending ring id id result) in
    (
      complete-Completion ring id result,
      complete-pending ring id other result,
      complete_unknown (complete ring id result).1 id again free,
    )
