-- ===== src/Security/Integrity.antt =====
-- learning/security-cryptography/examples/integrity_model.py: verification of a message by its tag.
-- `hmac_sha256` is `hmac.new(key, message, hashlib.sha256).digest()`, and `compare_digest` that of
-- hmac.
use netai_devsecops_runbook.Prelude.{◌≡◌, ◌↔◌, Bool, true}

module _ {ℓ} {Bytes : Type ℓ} (hmac_sha256 : Bytes → Bytes → Bytes)
    (compare_digest : Bytes → Bytes → Bool) where
  unfoldable pub tag : Bytes → Bytes → Bytes
  tag key message = hmac_sha256 key message

  unfoldable pub verify_tag : Bytes → Bytes → Bytes → Bool
  unfolding tag
  verify_tag key message supplied = compare_digest (tag key message) supplied

  -- Where `compare_digest` compares, a message is accepted exactly with the tag that the key gives
  -- it.
  pub verify_tag-tag :
      ((a b : Bytes) → (compare_digest a b ≡ true) ↔ (a ≡ b))
      → (key message supplied : Bytes)
      → (verify_tag key message supplied ≡ true) ↔ (tag key message ≡ supplied)
  unfolding verify_tag tag
  verify_tag-tag compares key message supplied = compares (hmac_sha256 key message) supplied
