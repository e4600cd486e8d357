-- ===== src/OperatingSystems/Translation/Isolation.antt =====
-- address_translation.py: page tables, and which addresses they tell apart.
use netai_devsecops_runbook.Prelude.{
  ltb, ltb→lt, Bool-cases, Option-cases, ℤ, Dict, lookup, ℕ, ◌+◌, ◌*◌, ◌/◌, ◌%◌, ◌<◌, ◌≡◌, sym, ap,
  ◌∙◌, inl, inr, some, arith, pos, negsuc, ok, nat_key, ok_inj, Result, refl, subst, true, err,
}
use netai_devsecops_runbook.OperatingSystems.Translation.{
  out_of_range, page_fault, TranslationError, Translated, translated_at, translate_page, translate,
  page_size, address_bits,
}

-- no frame is mapped from two pages
abbrev pub IsUnshared : Dict ℕ ℕ → Type 0
IsUnshared table =
    (v w frame : ℕ) → lookup v table ≡ some frame → lookup w table ≡ some frame → v ≡ w

-- where a translation comes from
pub record IsTranslation (table : Dict ℕ ℕ) (logical : ℤ) (t : Translated) : Type 0 where
  pub frame : ℕ
  pub mapped : lookup t.vpn table ≡ some frame
  pub split : logical ≡ pos (t.vpn * 256 + t.offset)
  pub within : t.offset < 256
  pub in_range : t.vpn < 256
  pub joined : t.physical ≡ frame * 256 + t.offset

ok_not_err :
    {t : Translated} {e : TranslationError}
    → ◌≡◌ {A = Result TranslationError Translated} (ok t) (err e)
    → ⊥
ok_not_err h = cc

translate_page_lem :
    (table : Dict ℕ ℕ) (logical : ℕ) (t : Translated)
    → logical < 65536
    → translate_page table (logical / 256) (logical % 256) ≡ ok t
    → IsTranslation table (pos logical) t
unfolding translate_page
translate_page_lem table logical t h e = elim (Option-cases (lookup (logical / 256) table)) [
  | inl missing ↦
      let fault : translate_page table (logical / 256) (logical % 256)
          ≡ err (page_fault (logical / 256)) =
        rw (translate_page, missing) refl in
      absurd (ok_not_err (sym e ∙ fault))
  | inr (frame, here) ↦
      let found : translate_page table (logical / 256) (logical % 256)
          ≡ ok (translated_at (logical / 256) (logical % 256) frame) =
        rw (translate_page, here) refl in
      subst (λ u. IsTranslation table (pos logical) u) (sym (ok_inj (sym e ∙ found)))
        (record {
          frame = frame;
          mapped = here;
          split = ap pos (omega arith);
          within = omega arith;
          in_range = omega arith;
          joined = refl;
        })
]

translate_fits :
    (table : Dict ℕ ℕ) (logical : ℕ)
    → ltb logical 65536 ≡ true
    → translate table (pos logical) ≡ translate_page table (logical / 256) (logical % 256)
unfolding translate page_size address_bits
translate_fits table logical fits = rw (translate, fits) refl

-- A translation that returns splits an address of 16 bits into page and offset, and joins the frame
-- that the table has for the page with the offset.
pub translate-IsTranslation :
    (table : Dict ℕ ℕ) (logical : ℤ) (t : Translated)
    → translate table logical ≡ ok t
    → IsTranslation table logical t
unfolding translate page_size address_bits
translate-IsTranslation table (negsuc n) t e = cc
translate-IsTranslation table (pos logical) t e = elim (Bool-cases (ltb logical 65536)) [
  | inl fits ↦
      translate_page_lem table logical t (ltb→lt _ _ fits)
        (sym (translate_fits table logical fits) ∙ e)
  | inr over ↦
      let refused : translate table (pos logical) ≡ err out_of_range = rw (translate, over) refl in
      absurd (ok_not_err (sym e ∙ refused))
]

-- Over a table without shared frames, two logical addresses that are translated to one physical
-- address are equal.
pub translate-injective :
    (table : Dict ℕ ℕ) (a b : ℤ) (s t : Translated)
    → IsUnshared table
    → translate table a ≡ ok s
    → translate table b ≡ ok t
    → s.physical ≡ t.physical
    → a ≡ b
translate-injective table a b s t unshared ea eb one =
    let p = translate-IsTranslation table a s ea in
    let q = translate-IsTranslation table b t eb in
    let frames : p.frame ≡ q.frame = omega (arith, p.joined, q.joined, p.within, q.within) in
    let pages : s.vpn ≡ t.vpn =
      unshared s.vpn t.vpn p.frame p.mapped (q.mapped ∙ ap some (sym frames)) in
    p.split ∙ ap pos (omega (arith, p.joined, q.joined, pages, frames)) ∙ sym q.split
