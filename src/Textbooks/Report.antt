-- ===== src/Textbooks/Report.antt =====
-- ai/learning/ai-infrastructure/examples/check_lessons.py, `check`: all files, and the runs of the
-- snippets that passed the parser.
use netai_devsecops_runbook.Prelude.{
  nat_beq, if◌then◌else◌, length, ℤ, ◌>>=◌, Result, ℕ, ◌+◌, Bool, ◌&&◌, none, List, [], ◌∷◌, ◌++◌,
  map, ok,
}
use netai_devsecops_runbook.Textbooks.Text.{Text, strip, is_empty, is_space, splitlines}
use netai_devsecops_runbook.Textbooks.Lessons.{
  Problem, Parsed, Process, Raised, Scan, exited, timeout, is_zero, scan_lines, check_end,
}

-- the errors of a file, or of a snippet that was run
pub data Complaint : Type 0 where
  in_file : Text → Problem → Complaint
  run_timeout : Text → ℕ → Complaint
  run_failed : Text → ℕ → ℤ → Text → Complaint

pub record Totals : Type 0 where
  pub errors : List Complaint
  pub snippets : List (Text × (ℕ × Text))
  pub links : ℕ
  pub tables : ℕ
  pub bash_blocks : ℕ

-- a path, by its relative name, and its text
pub record File : Type 0 where
  pub relative : Text
  pub source : Text

-- the state before the lines of a file
abbrev pub begin_file : Totals → Scan
begin_file totals = record {
  errors = [];
  snippets = [];
  links = totals.links;
  tables = totals.tables;
  bash_blocks = totals.bash_blocks;
  fence = none;
  body = [];
  width = none;
  language = [];
  first_line = 0;
}

abbrev end_file : Text → Totals → Scan → Totals
end_file relative totals s = record {
  errors = totals.errors ++ map (in_file relative) s.errors;
  snippets = totals.snippets ++ map (λ snippet. (relative, snippet)) s.snippets;
  links = s.links;
  tables = s.tables;
  bash_blocks = s.bash_blocks;
}

module _ (ast_parse : Text → Parsed) (bash_n : Text → Process) (unquote : Text → Text)
    (exists : Text → Text → Bool) where
  -- `for path in paths`; `exists` is asked from the folder of the path
  unfoldable pub check_files : List File → Totals → Result Raised Totals
  unfolding scan_lines check_end splitlines
  check_files [] totals = ok totals
  check_files (file ∷ files) totals =
      scan_lines ast_parse bash_n unquote (exists file.relative) 1 (splitlines file.source)
        (begin_file totals)
      >>= λ s. check_files files (end_file file.relative totals (check_end file.source s))

module _ (run : Text → Process) where
  -- `for label, code in snippets`, with `passed`
  unfoldable pub run_snippets : List (Text × (ℕ × Text)) → List Complaint → ℕ → List Complaint × ℕ
  unfolding is_space
  run_snippets [] errors passed = (errors, passed)
  run_snippets ((relative, (number, code)) ∷ snippets) errors passed = elim (run code) [
    | timeout ↦ run_snippets snippets (errors ++ run_timeout relative number ∷ []) passed
    | exited returncode stderr ↦
        if is_zero returncode && is_empty stderr
        then run_snippets snippets errors (passed + 1)
        else run_snippets snippets
            (errors ++ run_failed relative number returncode (strip is_space stderr) ∷ []) passed
  ]

pub record Summary : Type 0 where
  pub totals : Totals
  pub markdown_files : ℕ
  pub python_executed : ℕ

unfoldable pub check :
    (Text → Parsed)
    → (Text → Process)
    → (Text → Text)
    → (Text → Text → Bool)
    → (Text → Process)
    → Bool
    → List File
    → Result Raised Summary
unfolding check_files run_snippets
check ast_parse bash_n unquote exists run run_python files =
    check_files ast_parse bash_n unquote exists files
      (record { errors = []; snippets = []; links = 0; tables = 0; bash_blocks = 0 })
    >>= λ totals.
        let (errors, passed) =
          if run_python && nat_beq (length totals.errors) 0
          then run_snippets run totals.snippets totals.errors 0
          else (totals.errors, 0) in
        ok (record {
          totals = record totals { errors = errors };
          markdown_files = length files;
          python_executed = passed;
        })

-- `main`: the return code
unfoldable pub exit_code : Summary → ℕ
exit_code summary = if nat_beq (length summary.totals.errors) 0 then 0 else 1
