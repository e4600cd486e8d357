-- ===== src/Security/Nonce/Uniqueness.antt =====
-- The grants of nonce_registry_model.py over a sequence of attempts.
use netai_devsecops_runbook.Prelude.{
  ℕ, suc, ℤ, pos, negsuc, String, ◌≡◌, List, [], ◌∷◌, ◌&&◌, Bool, true, false, Option, none, some,
  inl, inr, Option-cases, nat_beq_iff, arith, lookup, insert, lookup-insert, contains, contains-add,
  add, ◌==◌, string_key, nat_key, nat_beq, if◌then◌else◌,
}
use netai_devsecops_runbook.Security.Nonce.{NonceRegistry, claim, reserve, Attempt, reserve_all}

-- the nonce is recorded under the key
pub is_used : NonceRegistry → String → ℕ → Bool
is_used r k n = elim (lookup k r.used) [ none ↦ false | some key_nonces ↦ contains n key_nonces ]

abbrev pub is_pos : ℕ → ℤ → Bool
is_pos n (pos m) = nat_beq m n
is_pos n (negsuc m) = false

abbrev pub is_attempt : String → ℕ → Attempt → Bool
is_attempt k n a = a.key_id == k && is_pos n a.nonce

-- the pair occurs among the attempts
pub requested : String → ℕ → List Attempt → Bool
requested k n [] = false
requested k n (a ∷ events) = if is_attempt k n a then true else requested k n events

-- how often an attempt at the pair had the result True
pub grants : String → ℕ → List Attempt → List (Option Bool) → ℕ
grants k n (a ∷ events) (some true ∷ results) =
    if is_attempt k n a then suc (grants k n events results) else grants k n events results
grants k n (a ∷ events) (_ ∷ results) = grants k n events results
grants k n _ _ = 0

claim-fst :
    (r : NonceRegistry) (j : String) (m : ℕ)
    → (claim r j m).0 ≡ (if is_used r j m then false else true)
unfolding claim is_used
claim-fst r j m = ground arith

is_used-claim :
    (r : NonceRegistry) (j : String) (m : ℕ) (k : String) (n : ℕ)
    → is_used (claim r j m).1 k n ≡ (if j == k && nat_beq m n then true else is_used r k n)
unfolding claim is_used
is_used-claim r j m k n = elim (Option-cases (lookup j r.used)) [
  | inl new ↦ ground (
    arith,
    string_key.same_iff j k,
    lookup-insert j k (m ∷ []) (insert j [] r.used),
    lookup-insert j k [] r.used,
    nat_beq_iff m n,
  )
  | inr (ns, old) ↦ ground (
    arith,
    string_key.same_iff j k,
    lookup-insert j k (add m ns) r.used,
    contains-add m n ns,
    nat_beq_iff m n,
  )
]

-- the count that the theorem below states
abbrev expected_grants : NonceRegistry → String → ℕ → List Attempt → ℕ
expected_grants r k n events = if is_used r k n then 0 else if requested k n events then 1 else 0

grants-attempt :
    (r : NonceRegistry) (j : String) (z : ℤ) (events : List Attempt) (k : String) (n : ℕ)
    → grants k n events (reserve_all (reserve r j z).1 events).0
      ≡ expected_grants (reserve r j z).1 k n events
    → grants k n
        (record { key_id = j; nonce = z } ∷ events)
        ((reserve r j z).0 ∷ (reserve_all (reserve r j z).1 events).0)
      ≡ expected_grants r k n (record { key_id = j; nonce = z } ∷ events)
unfolding reserve requested grants
grants-attempt r j (negsuc m) events k n ih = ground (arith, ih)
grants-attempt r j (pos m) events k n ih =
    ground (
      arith,
      ih,
      claim-fst r j m,
      is_used-claim r j m k n,
      string_key.same_iff j k,
      nat_beq_iff m n,
    )

-- Over any attempts, a pair is granted once if it was not used before and is requested, and
-- otherwise never.
pub reserve_all-grants :
    (r : NonceRegistry) (events : List Attempt) (k : String) (n : ℕ)
    → grants k n events (reserve_all r events).0
      ≡ (if is_used r k n then 0 else if requested k n events then 1 else 0)
unfolding reserve_all grants requested
reserve_all-grants r [] k n = ground arith
reserve_all-grants r (a ∷ events) k n =
    grants-attempt r a.key_id a.nonce events k n
      (reserve_all-grants (reserve r a.key_id a.nonce).1 events k n)
