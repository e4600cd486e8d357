-- ===== src/Textbooks/Lessons.antt =====
-- ai/learning/ai-infrastructure/examples/check_lessons.py, `check`: tables, fences, links and code
-- of the lessons. What `ast.parse` and `bash -n` answer, what a snippet does when it is run, what
-- `unquote` gives and which paths exist are parameters.
pub mod Quiet
pub mod Agreement
use netai_devsecops_runbook.Prelude.{
  nat_beq, if◌then◌else◌, length, ℤ, ◌>>=◌, Result, ℕ, zero, suc, ◌+◌, ◌-◌, Bool, true, false, not,
  ◌&&◌, ◌||◌, Option, none, some, List, [], ◌∷◌, ◌++◌, pos, ok, err,
}
use netai_devsecops_runbook.Textbooks.Text.{
  Text, codes, same_text, is_space, starts_with, ends_with, before, strip, rstrip, occurrences,
  join_lines, is_empty,
}
use netai_devsecops_runbook.Textbooks.Fences.{marker_of, closes}
use netai_devsecops_runbook.Textbooks.Links.{link_targets, has_scheme, link_target}

-- the errors of a file, with the number of the line
pub data Problem : Type 0 where
  python_syntax bash_syntax : ℕ → Text → Problem
  trailing_whitespace : ℕ → Problem
  table_width : ℕ → (cells expected : ℕ) → Problem
  missing_link : ℕ → Text → Problem
  unclosed_fence : ℕ → Problem
  unbalanced_details : Problem

-- the answer of `ast.parse`: `other` is another exception than the SyntaxError
pub data Parsed : Type 0 where
  parsed other : Parsed
  syntax_error : Text → Parsed

-- the answer of a process: its return code and its errors, or that the time was over
pub data Process : Type 0 where
  exited : ℤ → Text → Process
  timeout : Process

abbrev pub is_zero : ℤ → Bool
is_zero (pos zero) = true
is_zero n = false

-- what ends `check` early
pub data Raised : Type 0 where
  parse_raised timeout_expired : Raised

pub record Scan : Type 0 where
  pub errors : List Problem
  pub snippets : List (ℕ × Text)
  pub links : ℕ
  pub tables : ℕ
  pub bash_blocks : ℕ
  pub fence : Option Text
  pub body : List Text
  pub width : Option ℕ
  pub language : Text
  pub first_line : ℕ

abbrev pub report : Problem → Scan → Scan
report problem s = record s { errors = s.errors ++ problem ∷ [] }

-- `line != line.rstrip()`
unfoldable pub has_trailing_space : Text → Bool
unfolding is_space
has_trailing_space line = not (nat_beq (length (rstrip is_space line)) (length line))

-- the bars without a backslash before them; the flag tells of one before the first character
abbrev bars : Bool → Text → ℕ
bars escaped [] = 0
bars escaped (c ∷ cs) =
    let rest = bars (nat_beq c b'\\') cs in if nat_beq c b'|' && not escaped then suc rest else rest

-- `len(re.split(r"(?<!\\)\|", line)) - 2`, for a line that begins with a bar
unfoldable pub cells : Text → ℕ
cells line = bars false line - 1

unfoldable pub is_table_row : Text → Bool
is_table_row line = starts_with (codes "|") line && ends_with b'|' line

unfoldable pub check_whitespace : ℕ → Text → Scan → Scan
unfolding has_trailing_space
check_whitespace number line s =
    if has_trailing_space line then report (trailing_whitespace number) s else s

unfoldable pub check_table : ℕ → Text → Scan → Scan
unfolding is_table_row cells
check_table number line s =
    if is_table_row line
    then elim s.width [
      | none ↦ record s { tables = s.tables + 1; width = some (cells line) }
      | some width ↦
          if nat_beq width (cells line) then s else report (table_width number (cells line) width) s
    ]
    else record s { width = none }

module _ (unquote : Text → Text) (exists : Text → Bool) where
  -- one target of `for target in …`
  unfoldable pub check_link : ℕ → Text → Scan → Scan
  unfolding link_target has_scheme
  check_link number raw s =
      let target = link_target raw in
      if has_scheme target || starts_with (codes "#") target
      then s
      else (let counted : Scan = record s { links = s.links + 1 } in
          let path = unquote (before (codes "#") target) in
          if not (is_empty path) && not (exists path)
          then report (missing_link number path) counted
          else counted)

  abbrev pub check_links : ℕ → List Text → Scan → Scan
  check_links number [] s = s
  check_links number (raw ∷ raws) s = check_links number raws (check_link number raw s)

  -- a line outside the fences
  unfoldable pub check_prose : ℕ → Text → Scan → Scan
  unfolding check_whitespace check_table check_link link_targets
  check_prose number line s =
      check_links number (link_targets line)
        (check_table number line (check_whitespace number line s))

module _ (ast_parse : Text → Parsed) (bash_n : Text → Process) where
  -- the code of an example that ends
  unfoldable pub check_code : Scan → Result Raised Scan
  check_code s =
      let code = join_lines s.body in
      if same_text s.language (codes "python")
      then elim (ast_parse code) [
        | parsed ↦ ok (record s { snippets = s.snippets ++ (s.first_line, code) ∷ [] })
        | syntax_error message ↦ ok (report (python_syntax s.first_line message) s)
        | other ↦ err parse_raised
      ]
      else if same_text s.language (codes "bash") || same_text s.language (codes "sh")
      then (let counted : Scan = record s { bash_blocks = s.bash_blocks + 1 } in
          elim (bash_n code) [
            | exited returncode stderr ↦
                if is_zero returncode
                then ok counted
                else ok (report (bash_syntax s.first_line (strip is_space stderr)) counted)
            | timeout ↦ err timeout_expired
          ])
      else ok s

module _ (ast_parse : Text → Parsed) (bash_n : Text → Process) (unquote : Text → Text)
    (exists : Text → Bool) where
  -- the body of `for number, line in …`, with `fence`
  unfoldable pub scan_from : Option Text → ℕ → Text → Scan → Result Raised Scan
  unfolding marker_of closes check_code check_prose is_space
  scan_from (some fence) number line s =
      if closes fence line
      then (check_code ast_parse bash_n s >>= λ checked.
          ok (record checked { fence = none; width = none }))
      else ok (record s { body = s.body ++ line ∷ [] })
  scan_from none number line s = elim (marker_of line) [
    | some marker ↦ ok (record s {
      fence = some marker.marks;
      language = strip is_space marker.info;
      first_line = number;
      body = [];
    })
    | none ↦ ok (check_prose unquote exists number line s)
  ]

  unfoldable pub scan_line : ℕ → Text → Scan → Result Raised Scan
  unfolding scan_from
  scan_line number line s = scan_from s.fence number line s

  unfoldable pub scan_lines : ℕ → List Text → Scan → Result Raised Scan
  unfolding scan_line
  scan_lines number [] s = ok s
  scan_lines number (line ∷ lines) s = scan_line number line s >>= scan_lines (number + 1) lines

-- what follows the loop over the lines
unfoldable pub check_end : Text → Scan → Scan
check_end source s =
    let closed : Scan = elim s.fence [
      | none ↦ s
      | some fence ↦ report (unclosed_fence s.first_line) s
    ] in
    if nat_beq (occurrences (codes "<details>") 0 source)
      (occurrences (codes "</details>") 0 source)
    then closed
    else report unbalanced_details closed
