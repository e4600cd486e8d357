-- ===== src/Textbooks/Lessons/Agreement.antt =====
-- check_lessons.py and validate_docs.py: the lines that both treat as prose.
use netai_devsecops_runbook.Textbooks.Report.{Totals, begin_file}
use netai_devsecops_runbook.Textbooks.Lessons.{
  has_trailing_space, Scan, check_prose, Parsed, Process,
}
use netai_devsecops_runbook.Prelude.{
  Bool-cases, Option-cases, ℕ, ◌≡◌, refl, ap, ◌∙◌, inl, inr, Bool, List, [], ◌∷◌, ◌++◌, append-nil,
  ok, if◌then◌else◌, ◌+◌, none, some, Result, sym, bind_ok, ok_inj, subst, Option, append_assoc,
}
use netai_devsecops_runbook.Textbooks.Text.{Text, splitlines}
use netai_devsecops_runbook.Textbooks.Fences.{marker_of, closes, prose_loop, prose_lines}
use netai_devsecops_runbook.Textbooks.Lessons.{
  Parsed, Process, Raised, Scan, has_trailing_space, check_prose, scan_line, scan_from, scan_lines,
}
use netai_devsecops_runbook.Textbooks.Lessons.Quiet.{
  trailing, trailing_lines, IsQuietAnswer-IsQuiet, check_prose-trailing, check_code-IsQuietAnswer,
}

-- what is reported after a scan, with what the lines that are left have, is `target`
abbrev AreTrailing : ℕ → List Text → List ℕ → Scan → Type 0
AreTrailing number lines target s =
    trailing s.errors ++ trailing_lines (prose_loop s.fence number lines) ≡ target

trailing_lines-cons :
    (number : ℕ) (line : Text) (prose : List (ℕ × Text))
    → trailing_lines ((number, line) ∷ []) ++ trailing_lines prose
      ≡ trailing_lines ((number, line) ∷ prose)
trailing_lines-cons number line prose = elim (Bool-cases (has_trailing_space line)) [
  | inl h ↦ rw h refl
  | inr h ↦ rw h refl
]

module _ (ast_parse : Text → Parsed) (bash_n : Text → Process) (unquote : Text → Text)
    (exists : Text → Bool) where
  abbrev scan : ℕ → List Text → Scan → Result Raised Scan
  scan = scan_lines ast_parse bash_n unquote exists

  scan_from-trailing :
      (fence : Option Text) (number : ℕ) (line : Text) (lines : List Text) (s s' : Scan)
      → s.fence ≡ fence
      → scan_from ast_parse bash_n unquote exists fence number line s ≡ ok s'
      → trailing s'.errors ++ trailing_lines (prose_loop s'.fence (number + 1) lines)
        ≡ trailing s.errors ++ trailing_lines (prose_loop fence number (line ∷ lines))
  unfolding scan_from prose_loop
  scan_from-trailing (some fence) number line lines s s' e h =
      let target = λ (f : Option Text).
        trailing s.errors ++ trailing_lines (prose_loop f (number + 1) lines) in
      elim (Bool-cases (closes fence line)) [
        | inl closing ↦
            let (checked, answer, ending) = bind_ok _ _ (rw (closing, scan_from) at h) in
            let quiet =
              IsQuietAnswer-IsQuiet (check_code-IsQuietAnswer ast_parse bash_n s) answer in
            subst
              (AreTrailing (number + 1) lines
                (target (if closes fence line then none else some fence)))
              (ok_inj ending)
              (ap (λ t. t ++ trailing_lines (prose_loop none (number + 1) lines)) quiet.errors
                ∙ ap (λ b. target (if b then none else some fence)) (sym closing))
        | inr inside ↦
            subst
              (AreTrailing (number + 1) lines
                (target (if closes fence line then none else some fence)))
              (ok_inj (rw (inside, scan_from) at h))
              (ap target (e ∙ ap (λ b. if b then none else some fence) (sym inside)))
      ]
  scan_from-trailing none number line lines s s' e h = elim (Option-cases (marker_of line)) [
    | inl no_marker ↦
        let (errors, fence, first_line) = check_prose-trailing unquote exists number line s in
        rw (no_marker, prose_loop)
          (subst (AreTrailing (number + 1) lines _) (ok_inj (rw (no_marker, scan_from) at h)) (
            ap
              (λ f.
                trailing (check_prose unquote exists number line s).errors
                ++ trailing_lines (prose_loop f (number + 1) lines))
              (fence ∙ e)
            ∙ ap (λ t. t ++ trailing_lines (prose_loop none (number + 1) lines)) errors
            ∙ append_assoc (trailing s.errors) _ _
            ∙ ap (λ t. trailing s.errors ++ t)
                (trailing_lines-cons number line (prose_loop none (number + 1) lines))))
    | inr (marker, marked) ↦
        rw (marked, prose_loop)
          (subst (AreTrailing (number + 1) lines _) (ok_inj (rw (marked, scan_from) at h)) refl)
  ]

  scan_lines-trailing :
      (number : ℕ) (lines : List Text) (s s' : Scan)
      → scan number lines s ≡ ok s'
      → trailing s'.errors ≡ trailing s.errors ++ trailing_lines (prose_loop s.fence number lines)
  unfolding scan_lines scan_line prose_loop
  scan_lines-trailing number [] s s' h = rw (ok_inj h) (sym (append-nil _))
  scan_lines-trailing number (line ∷ lines) s s' h =
      let (t, first, rest) =
        bind_ok (scan_line ast_parse bash_n unquote exists number line s) (scan (number + 1) lines)
          h in
      scan_lines-trailing (number + 1) lines t s' rest
      ∙ scan_from-trailing s.fence number line lines s t refl first

-- Whatever the parser, the shell and the paths answer: when the scan of a document by `check`
-- returns, the lines at which it has reported trailing whitespace are, in order, those that end in
-- whitespace among the lines that `prose_lines` yields for the document.
pub scan_lines-prose_lines :
    (ast_parse : Text → Parsed) (bash_n : Text → Process) (unquote : Text → Text)
    (exists : Text → Bool) (source : Text) (totals : Totals) (s : Scan)
    → scan_lines ast_parse bash_n unquote exists 1 (splitlines source) (begin_file totals) ≡ ok s
    → trailing s.errors ≡ trailing_lines (prose_lines source)
unfolding prose_lines
scan_lines-prose_lines ast_parse bash_n unquote exists source totals s h =
    scan_lines-trailing ast_parse bash_n unquote exists 1 (splitlines source) (begin_file totals) s
      h
