-- ===== src/OperatingSystems/Translation.antt =====
-- learning/operating-systems/examples/address_translation.py: logical addresses of 16 bits over
-- pages of 256 bytes. `PAGE_TABLE` is an argument.
pub mod Isolation
use netai_devsecops_runbook.Prelude.{
  ltb, if◌then◌else◌, ℤ, Dict, lookup, Result, ℕ, ◌+◌, ◌*◌, ◌/◌, ◌%◌, ◌^◌, not, none, some, pos,
  negsuc, ok, err, nat_key,
}

unfoldable pub page_size : ℕ
page_size = 256

unfoldable pub address_bits : ℕ
address_bits = 16

-- the ValueError and the LookupError
pub data TranslationError : Type 0 where
  out_of_range : TranslationError
  page_fault : ℕ → TranslationError

-- `(vpn, offset, physical)`
pub record Translated : Type 0 where
  pub vpn : ℕ
  pub offset : ℕ
  pub physical : ℕ

abbrev pub translated_at : ℕ → ℕ → ℕ → Translated
translated_at vpn offset frame = record {
  vpn = vpn;
  offset = offset;
  physical = frame * 256 + offset;
}

-- a logical address in range
translate_page : Dict ℕ ℕ → ℕ → ℕ → Result TranslationError Translated
translate_page page_table vpn offset = elim (lookup vpn page_table) [
  | none ↦ err (page_fault vpn)
  | some frame ↦ ok (translated_at vpn offset frame)
]

unfoldable pub translate : Dict ℕ ℕ → ℤ → Result TranslationError Translated
unfolding translate_page page_size address_bits
translate page_table (negsuc n) = err out_of_range
translate page_table (pos logical) =
    if not (ltb logical (2 ^ address_bits))
    then err out_of_range
    else translate_page page_table (logical / page_size) (logical % page_size)
