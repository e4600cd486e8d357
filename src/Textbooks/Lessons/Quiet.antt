-- ===== src/Textbooks/Lessons/Quiet.antt =====
-- check_lessons.py, `check`: the steps that report no trailing whitespace and leave the fence alone.
use netai_devsecops_runbook.Textbooks.Lessons.{
  Problem, has_trailing_space, Scan, check_table, check_link, check_prose, check_code,
  trailing_whitespace, report, is_table_row, check_links, check_whitespace, Parsed, python_syntax,
  cells, Process, bash_syntax, table_width, missing_link, unclosed_fence, link_targets,
}
use netai_devsecops_runbook.Prelude.{
  nat_beq, filter, ℕ, ◌≡◌, refl, ap, ◌∙◌, Bool, List, [], ◌∷◌, ◌++◌, map, append-nil, ok,
  if◌then◌else◌, ◌+◌, true, false, none, some, Result, sym, err, ok_inj, subst,
}
use netai_devsecops_runbook.Textbooks.Text.{Text, join_lines, strip, is_space}
use netai_devsecops_runbook.Textbooks.Lessons.{
  Problem, Parsed, Process, Raised, parse_raised, timeout_expired, Scan, python_syntax, bash_syntax,
  trailing_whitespace, table_width, missing_link, unclosed_fence, unbalanced_details, report,
  has_trailing_space, cells, is_table_row, check_whitespace, check_table, check_link, check_links,
  check_prose, check_code, parsed, other, syntax_error, exited, timeout, is_zero,
}

-- the lines of the errors about trailing whitespace
abbrev pub trailing : List Problem → List ℕ
trailing [] = []
trailing (trailing_whitespace number ∷ problems) = number ∷ trailing problems
trailing (_ ∷ problems) = trailing problems

-- the lines that end in whitespace
abbrev pub trailing_lines : List (ℕ × Text) → List ℕ
trailing_lines prose = map (λ p. p.0) (filter (λ p. has_trailing_space p.1) prose)

pub trailing-append : (ps qs : List Problem) → trailing (ps ++ qs) ≡ trailing ps ++ trailing qs
trailing-append [] qs = refl
trailing-append (trailing_whitespace number ∷ ps) qs = ap (◌∷◌ number) (trailing-append ps qs)
trailing-append (python_syntax n t ∷ ps) qs = trailing-append ps qs
trailing-append (bash_syntax n t ∷ ps) qs = trailing-append ps qs
trailing-append (table_width n c e ∷ ps) qs = trailing-append ps qs
trailing-append (missing_link n t ∷ ps) qs = trailing-append ps qs
trailing-append (unclosed_fence n ∷ ps) qs = trailing-append ps qs
trailing-append (unbalanced_details ∷ ps) qs = trailing-append ps qs

-- a step that leaves the fence alone, and reports no trailing whitespace
pub record IsQuiet (before after : Scan) : Type 0 where
  pub errors : trailing after.errors ≡ trailing before.errors
  pub fence : after.fence ≡ before.fence
  pub first_line : after.first_line ≡ before.first_line

IsQuiet-refl : (s : Scan) → IsQuiet s s
IsQuiet-refl s = record { errors = refl; fence = refl; first_line = refl }

IsQuiet-trans : {r s t : Scan} → IsQuiet r s → IsQuiet s t → IsQuiet r t
IsQuiet-trans a b = record {
  errors = b.errors ∙ a.errors;
  fence = b.fence ∙ a.fence;
  first_line = b.first_line ∙ a.first_line;
}

-- an error of another kind
IsQuiet-report : (p : Problem) (s : Scan) → trailing (p ∷ []) ≡ [] → IsQuiet s (report p s)
IsQuiet-report p s h = record {
  errors = trailing-append s.errors (p ∷ []) ∙ rw h (append-nil _);
  fence = refl;
  first_line = refl;
}

IsQuiet-if : {s x y : Scan} (b : Bool) → IsQuiet s x → IsQuiet s y → IsQuiet s (if b then x else y)
IsQuiet-if true h k = h
IsQuiet-if false h k = k

check_table-IsQuiet : (number : ℕ) (line : Text) (s : Scan) → IsQuiet s (check_table number line s)
unfolding check_table
check_table-IsQuiet number line s =
    IsQuiet-if (is_table_row line)
      (elim s.width
        as (λ w. IsQuiet s (elim w [
          | none ↦ record s { tables = s.tables + 1; width = some (cells line) }
          | some width ↦
              if nat_beq width (cells line)
              then s
              else report (table_width number (cells line) width) s
        ])) [
          | none ↦ record { errors = refl; fence = refl; first_line = refl }
          | some w ↦
              IsQuiet-if (nat_beq w (cells line)) (IsQuiet-refl s)
                (IsQuiet-report (table_width number (cells line) w) s refl)
        ])
      (record { errors = refl; fence = refl; first_line = refl })

check_whitespace-trailing :
    (number : ℕ) (line : Text) (s : Scan)
    → (trailing (check_whitespace number line s).errors
        ≡ trailing s.errors ++ trailing_lines ((number, line) ∷ []))
      × ((check_whitespace number line s).fence ≡ s.fence)
      × ((check_whitespace number line s).first_line ≡ s.first_line)
unfolding check_whitespace
check_whitespace-trailing number line s =
    elim (has_trailing_space line)
      as (λ b.
        (trailing (if b then report (trailing_whitespace number) s else s).errors
          ≡ trailing s.errors
            ++ map (λ (p : ℕ × Text). p.0) (if b then (number, line) ∷ [] else []))
        × ((if b then report (trailing_whitespace number) s else s).fence ≡ s.fence)
        × ((if b then report (trailing_whitespace number) s else s).first_line ≡ s.first_line)) [
          | true ↦ (trailing-append s.errors (trailing_whitespace number ∷ []), refl, refl)
          | false ↦ (sym (append-nil (trailing s.errors)), refl, refl)
        ]

module _ (unquote : Text → Text) (exists : Text → Bool) where
  check_link-IsQuiet :
      (number : ℕ) (raw : Text) (s : Scan) → IsQuiet s (check_link unquote exists number raw s)
  unfolding check_link
  check_link-IsQuiet number raw s =
      let counted : Scan = record s { links = s.links + 1 } in
      let quiet : IsQuiet s counted = record { errors = refl; fence = refl; first_line = refl } in
      IsQuiet-if _ (IsQuiet-refl s) (
        IsQuiet-if _ (IsQuiet-trans quiet (IsQuiet-report (missing_link number _) counted refl))
          quiet)

  check_links-IsQuiet :
      (number : ℕ) (raws : List Text) (s : Scan)
      → IsQuiet s (check_links unquote exists number raws s)
  check_links-IsQuiet number [] s = IsQuiet-refl s
  check_links-IsQuiet number (raw ∷ raws) s =
      IsQuiet-trans (check_link-IsQuiet number raw s)
        (check_links-IsQuiet number raws (check_link unquote exists number raw s))

  pub check_prose-trailing :
      (number : ℕ) (line : Text) (s : Scan)
      → (trailing (check_prose unquote exists number line s).errors
          ≡ trailing s.errors ++ trailing_lines ((number, line) ∷ []))
        × ((check_prose unquote exists number line s).fence ≡ s.fence)
        × ((check_prose unquote exists number line s).first_line ≡ s.first_line)
  unfolding check_prose check_whitespace
  check_prose-trailing number line s =
      let spaced = check_whitespace number line s in
      let quiet =
        IsQuiet-trans (check_table-IsQuiet number line spaced)
          (check_links-IsQuiet number (link_targets line) (check_table number line spaced)) in
      let (errors, fence, first_line) = check_whitespace-trailing number line s in
      (quiet.errors ∙ errors, quiet.fence ∙ fence, quiet.first_line ∙ first_line)

-- the scan after an answer that returns is quiet
pub data IsQuietAnswer (s : Scan) : Result Raised Scan → Type 0 where
  returns : {after : Scan} → IsQuiet s after → IsQuietAnswer s (ok after)
  raises : {raised : Raised} → IsQuietAnswer s (err raised)

pub IsQuietAnswer-IsQuiet :
    {s after : Scan} {answer : Result Raised Scan}
    → IsQuietAnswer s answer
    → answer ≡ ok after
    → IsQuiet s after
IsQuietAnswer-IsQuiet {s} (returns quiet) h = subst (IsQuiet s) (ok_inj h) quiet
IsQuietAnswer-IsQuiet raises h = cc

IsQuietAnswer-if :
    {s : Scan} {x y : Result Raised Scan} (b : Bool)
    → IsQuietAnswer s x
    → IsQuietAnswer s y
    → IsQuietAnswer s (if b then x else y)
IsQuietAnswer-if true h k = h
IsQuietAnswer-if false h k = k

pub check_code-IsQuietAnswer :
    (ast_parse : Text → Parsed) (bash_n : Text → Process) (s : Scan)
    → IsQuietAnswer s (check_code ast_parse bash_n s)
unfolding check_code
check_code-IsQuietAnswer ast_parse bash_n s =
    let counted : Scan = record s { bash_blocks = s.bash_blocks + 1 } in
    let quiet : IsQuiet s counted = record { errors = refl; fence = refl; first_line = refl } in
    IsQuietAnswer-if _
      (elim (ast_parse (join_lines s.body))
        as (λ answer. IsQuietAnswer s (elim answer [
          | parsed ↦
              ok (record s { snippets = s.snippets ++ (s.first_line, join_lines s.body) ∷ [] })
          | syntax_error message ↦ ok (report (python_syntax s.first_line message) s)
          | other ↦ err parse_raised
        ])) [
          | parsed ↦ returns (record { errors = refl; fence = refl; first_line = refl })
          | syntax_error message ↦
              returns (IsQuiet-report (python_syntax s.first_line message) s refl)
          | other ↦ raises
        ])
      (IsQuietAnswer-if _
        (elim (bash_n (join_lines s.body))
          as (λ answer. IsQuietAnswer s (elim answer [
            | exited returncode stderr ↦
                if is_zero returncode
                then ok counted
                else ok (report (bash_syntax s.first_line (strip is_space stderr)) counted)
            | timeout ↦ err timeout_expired
          ])) [
            | exited returncode stderr ↦ IsQuietAnswer-if (is_zero returncode) (returns quiet) (
                returns (
                  IsQuiet-trans quiet (
                    IsQuiet-report (bash_syntax s.first_line (strip is_space stderr)) counted
                      refl)))
            | timeout ↦ raises
          ])
        (returns (IsQuiet-refl s)))
