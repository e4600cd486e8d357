-- ===== src/Ubuntu/Ring/Lifetime.antt =====
-- ring_lifetime_model.py: where the buffers are that the ring has accepted.
use netai_devsecops_runbook.Prelude.{
  ◌++◌, ℕ, suc, String, ◌≡◌, refl, [], ◌∷◌, false, none, some, arith, Dict, lookup, insert, erase,
  lookup-insert, lookup-erase, ◌==◌, nat_key, nat_beq_iff, string_key, count, if◌then◌else◌, ℤ,
  List, Bool, ◌+◌, ok, Option-cases, All, true, err, inl, inr, count-append,
}
use netai_devsecops_runbook.Ubuntu.Ring.{
  submitted, Request, RingModel, complete, Call, submit, run, terminal_state, submitting,
  result_kind, completing, duplicate_id, unknown_id,
}

-- as a request is built: submitted, and its buffer not released
abbrev pub IsFresh : Request → Type 0
IsFresh r = (r.state ≡ submitted) × (r.released ≡ false)

-- keys are unique, and all pending requests are fresh
abbrev pub IsPending : Dict ℕ Request → Type 0
IsPending [] = Unit
IsPending ((k, r) ∷ d) = (lookup k d ≡ none) × IsFresh r × IsPending d

-- how many pending requests use the buffer
abbrev pub held : String → Dict ℕ Request → ℕ
held b [] = 0
held b ((k, r) ∷ d) = if r.buffer_name == b then suc (held b d) else held b d

abbrev released : String → RingModel → ℕ
released b ring = count (λ name. name == b) ring.release_log

held-insert :
    (b : String) (k : ℕ) (r : Request) (d : Dict ℕ Request)
    → lookup k d ≡ none
    → held b (insert k r d) ≡ (if r.buffer_name == b then suc (held b d) else held b d)
held-insert b k r [] h = refl
held-insert b k r ((j, q) ∷ d) h = ground (arith, held-insert b k r d)

erase_missing : (k : ℕ) (d : Dict ℕ Request) → lookup k d ≡ none → erase k d ≡ d
erase_missing k [] h = refl
erase_missing k ((j, q) ∷ d) h = ground (arith, erase_missing k d)

held-erase :
    (b : String) (k : ℕ) (r : Request) (d : Dict ℕ Request)
    → IsPending d
    → lookup k d ≡ some r
    → held b d ≡ (if r.buffer_name == b then suc (held b (erase k d)) else held b (erase k d))
held-erase b k r [] p h = ground arith
held-erase b k r ((j, q) ∷ d) p h =
    ground (arith, nat_beq_iff j k, erase_missing k d, held-erase b k r d p.2, p.0)

IsPending-insert :
    (k : ℕ) (r : Request) (d : Dict ℕ Request)
    → IsFresh r
    → lookup k d ≡ none
    → IsPending d
    → IsPending (insert k r d)
IsPending-insert k r [] f h p = (refl, f, tt)
IsPending-insert k r ((j, q) ∷ d) f h p =
    ground (arith, nat_beq_iff j k, lookup-insert k j r d, IsPending-insert k r d f)

IsPending-erase : (k : ℕ) (d : Dict ℕ Request) → IsPending d → IsPending (erase k d)
IsPending-erase k [] p = tt
IsPending-erase k ((j, q) ∷ d) p =
    ground (arith, lookup-erase k j d, IsPending-erase k d p.2, p.0, p.1)

lookup-IsFresh :
    (k : ℕ) (r : Request) (d : Dict ℕ Request) → IsPending d → lookup k d ≡ some r → IsFresh r
lookup-IsFresh k r [] p h = absurd (ground arith)
lookup-IsFresh k r ((j, q) ∷ d) p h = ground (arith, lookup-IsFresh k r d p.2, p.1)

-- `complete` on a request as it was submitted: it ends in a terminal state and is released once
abbrev pub settled : Request → ℤ → Request
settled r result = record r { state = terminal_state result; released = true }

pub complete_fresh :
    (ring : RingModel) (id : ℕ) (result : ℤ) (r : Request)
    → IsFresh r
    → lookup id ring.pending ≡ some r
    → complete ring id result ≡ (
      ok (settled r result, result_kind result),
      record {
        pending = erase id ring.pending;
        release_log = ring.release_log ++ r.buffer_name ∷ [];
      },
    )
unfolding complete
complete_fresh ring id (ℤ.pos n) r f h = rw (h, complete) (ground (arith, f))
complete_fresh ring id (ℤ.negsuc n) r f h = rw (h, complete) (ground (arith, f))

pub complete_unknown :
    (ring : RingModel) (id : ℕ) (result : ℤ)
    → lookup id ring.pending ≡ none
    → complete ring id result ≡ (err unknown_id, ring)
unfolding complete
complete_unknown ring id result h = rw (h, complete)

-- the submissions that the ring accepts, in a run of the calls
pub accepted : RingModel → List Call → List Request
accepted ring [] = []
accepted ring (submitting r ∷ calls) = elim (submit ring r).0 [
  | ok _ ↦ r ∷ accepted (submit ring r).1 calls
  | err _ ↦ accepted (submit ring r).1 calls
]
accepted ring (completing id result ∷ calls) = accepted (complete ring id result).1 calls

abbrev pub IsFreshCall : Call → Type 0
IsFreshCall (submitting r) = IsFresh r
IsFreshCall (completing id result) = Unit

abbrev pub uses : String → Request → Bool
uses b r = r.buffer_name == b

-- buffers that are held or were released, by name
abbrev pub accounted : String → RingModel → ℕ
accounted b ring = held b ring.pending + count (λ name. name == b) ring.release_log

complete-IsPending :
    (ring : RingModel) (id : ℕ) (result : ℤ)
    → IsPending ring.pending
    → IsPending (complete ring id result).1.pending
complete-IsPending ring id result p = elim (Option-cases (lookup id ring.pending)) [
  | inl missing ↦ rw (complete_unknown ring id result missing) p
  | inr (r, found) ↦
      rw (complete_fresh ring id result r (lookup-IsFresh id r ring.pending p found) found)
        (IsPending-erase id ring.pending p)
]

complete-accounted :
    (b : String) (ring : RingModel) (id : ℕ) (result : ℤ)
    → IsPending ring.pending
    → accounted b (complete ring id result).1 ≡ accounted b ring
complete-accounted b ring id result p = elim (Option-cases (lookup id ring.pending)) [
  | inl missing ↦ rw (complete_unknown ring id result missing)
  | inr (r, found) ↦
      rw (complete_fresh ring id result r (lookup-IsFresh id r ring.pending p found) found) (
        ground (
          arith,
          held-erase b id r ring.pending p found,
          count-append (λ name. name == b) ring.release_log (r.buffer_name ∷ []),
        ))
]

submit-IsPending :
    (ring : RingModel) (r : Request)
    → IsFresh r
    → IsPending ring.pending
    → IsPending (submit ring r).1.pending
unfolding submit
submit-IsPending ring r f p = ground (arith, IsPending-insert r.request_id r ring.pending f)

with_pending : RingModel → Request → RingModel
with_pending ring r = record ring { pending = insert r.request_id r ring.pending }

submit_new :
    (ring : RingModel) (r : Request)
    → lookup r.request_id ring.pending ≡ none
    → submit ring r ≡ (ok tt, with_pending ring r)
unfolding submit with_pending
submit_new ring r h = rw (h, submit)

submit_duplicate :
    (ring : RingModel) (r q : Request)
    → lookup r.request_id ring.pending ≡ some q
    → submit ring r ≡ (err duplicate_id, ring)
unfolding submit
submit_duplicate ring r q h = rw (h, submit)

with_pending-accounted :
    (b : String) (ring : RingModel) (r : Request)
    → lookup r.request_id ring.pending ≡ none
    → accounted b (with_pending ring r)
      ≡ (if r.buffer_name == b then suc (accounted b ring) else accounted b ring)
unfolding with_pending
with_pending-accounted b ring r h = ground (arith, held-insert b r.request_id r ring.pending h)

-- From a ring whose pending requests are fresh, over any calls that submit fresh requests: a buffer
-- is held or released as often, counted by its name, as it was at first plus once for each
-- submission that was accepted.
pub run-accounted :
    (b : String) (ring : RingModel) (calls : List Call)
    → IsPending ring.pending
    → All IsFreshCall calls
    → accounted b (run ring calls) ≡ accounted b ring + count (uses b) (accepted ring calls)
unfolding run accepted
run-accounted b ring [] p f = omega arith
run-accounted b ring (submitting r ∷ calls) p f =
    let later = run-accounted b (submit ring r).1 calls (submit-IsPending ring r f.0 p) f.1 in
    elim (Option-cases (lookup r.request_id ring.pending)) [
      | inl new ↦ ground (arith, later, submit_new ring r new, with_pending-accounted b ring r new)
      | inr (q, old) ↦ ground (arith, later, submit_duplicate ring r q old)
    ]
run-accounted b ring (completing id result ∷ calls) p f = omega (
  arith,
  complete-accounted b ring id result p,
  run-accounted b (complete ring id result).1 calls (complete-IsPending ring id result p) f.1,
)
