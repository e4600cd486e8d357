-- ===== src/Security/Nonce.antt =====
-- learning/security-cryptography/examples/nonce_registry_model.py: nonces reserved under a key.
pub mod Uniqueness
use netai_devsecops_runbook.Prelude.{
  ℕ, ℤ, pos, negsuc, String, List, [], ◌∷◌, Bool, true, false, Option, none, some, Dict, lookup,
  insert, contains, add, string_key, nat_key, if◌then◌else◌,
}

-- `used`; a set holds numbers that are not negative, since `reserve` refuses the others first
pub record NonceRegistry : Type 0 where
  pub used : Dict String (List ℕ)

unfoldable pub empty_registry : NonceRegistry
empty_registry = record { used = [] }

-- `used.setdefault(key_id, set())`: the set found, or an empty one that is stored
unfoldable pub set_default : String → Dict String (List ℕ) → List ℕ × Dict String (List ℕ)
set_default key_id used = elim (lookup key_id used) [
  | some key_nonces ↦ (key_nonces, used)
  | none ↦ ([], insert key_id [] used)
]

-- what `reserve` does with a nonce that is not negative
claim : NonceRegistry → String → ℕ → Bool × NonceRegistry
unfolding set_default
claim r key_id nonce =
    let (key_nonces, used) = set_default key_id r.used in
    if contains nonce key_nonces
    then (false, record { used = used })
    else (true, record { used = insert key_id (add nonce key_nonces) used })

-- `none` is the ValueError
unfoldable pub reserve : NonceRegistry → String → ℤ → Option Bool × NonceRegistry
unfolding claim
reserve r key_id (negsuc _) = (none, r)
reserve r key_id (pos nonce) = let (fresh, r') = claim r key_id nonce in (some fresh, r')

pub record Attempt : Type 0 where
  pub key_id : String
  pub nonce : ℤ

-- `[registry.reserve(key, nonce) for key, nonce in events]`, where a caller handles the ValueError
unfoldable pub reserve_all : NonceRegistry → List Attempt → List (Option Bool) × NonceRegistry
unfolding reserve
reserve_all r [] = ([], r)
reserve_all r (a ∷ events) =
    let (result, r') = reserve r a.key_id a.nonce in
    let (results, r'') = reserve_all r' events in (result ∷ results, r'')
