-- ===== src/Textbooks/Tests.antt =====
-- The checkers on small documents.
use netai_devsecops_runbook.Prelude.{
  ◌≡◌, refl, [], ◌∷◌, ◌>>=◌, Result, true, false, pos, ok, ℕ, Option, List, err, leb, if◌then◌else◌,
  ◌+◌, Bool, ◌&&◌, ◌||◌, map, contains, inr, some, Memᴰ, sym, subst, Bool-cases, ◌==◌, inl,
}
use netai_devsecops_runbook.Textbooks.Text.{text_key, Text, codes, splitlines}
use netai_devsecops_runbook.Textbooks.Fences.Blocks.{Blocks, prose_lines-Blocks}
use netai_devsecops_runbook.Textbooks.Lessons.Agreement.{scan_lines-prose_lines}
use netai_devsecops_runbook.Textbooks.Lessons.Quiet.{trailing, trailing_lines}
use netai_devsecops_runbook.Textbooks.Fences.{prose_lines}
use netai_devsecops_runbook.Textbooks.Headings.{heading_of, slug_of, heading_ids}
use netai_devsecops_runbook.Textbooks.References.{
  Library, Found, ids_of, missing_heading, no_alternative, check_references,
}
use netai_devsecops_runbook.Textbooks.References.Cache.{IsFaithful, Agrees, check_references-Agrees}
use netai_devsecops_runbook.Textbooks.Headings.Anchors.{heading_ids-IsNamed}
use netai_devsecops_runbook.Textbooks.Lessons.{
  Scan, scan_lines, Raised, parsed, exited, table_width, trailing_whitespace, missing_link,
  unclosed_fence,
}
use netai_devsecops_runbook.Textbooks.Report.{Totals, begin_file, Summary, check, in_file}

-- a heading, a fenced example that shows a fence of its own, and a closing line
abbrev document : Text
document = codes "# A\n````text \n```\n# B\n````\n\nend"

prose : prose_lines document ≡ (1, codes "# A") ∷ (6, []) ∷ (7, codes "end") ∷ []
unfolding prose_lines
prose = refl

abbrev lesson : Text
lesson = codes "| a | b |\n|---|\n```python\nx = 1\n```\nsee [b](c.md \"t\") \n~~~"

abbrev checked : Result Raised Summary
checked =
    check (λ code. parsed) (λ code. exited (pos 0) []) (λ t. t) (λ file target. false)
      (λ code. exited (pos 0) []) true (record { relative = codes "a.md"; source = lesson } ∷ [])

problems :
    (checked >>= λ summary. ok summary.totals.errors)
    ≡ ok (
        in_file (codes "a.md") (table_width 2 1 2)
        ∷ in_file (codes "a.md") (trailing_whitespace 6)
        ∷ in_file (codes "a.md") (missing_link 6 (codes "c.md"))
        ∷ in_file (codes "a.md") (unclosed_fence 7)
        ∷ [])
unfolding check
problems = refl

prose_lines-Blocks_example :
    ((pending : Option (ℕ × Text)) × Blocks 1 (splitlines document) (prose_lines document) pending)
    × ((prose : List (ℕ × Text)) (pending : Option (ℕ × Text))
        → Blocks 1 (splitlines document) prose pending
        → prose ≡ prose_lines document)
prose_lines-Blocks_example = prose_lines-Blocks document

abbrev no_totals : Totals
no_totals = record { errors = []; snippets = []; links = 0; tables = 0; bash_blocks = 0 }

abbrev scan_of_lesson : Result Raised Scan
scan_of_lesson =
    scan_lines (λ code. parsed) (λ code. exited (pos 0) []) (λ t. t) (λ target. false) 1
      (splitlines lesson) (begin_file no_totals)

abbrev scanned : Scan
scanned = elim scan_of_lesson [ ok s ↦ s | err e ↦ begin_file no_totals ]

scan_of_lesson-scanned : scan_of_lesson ≡ ok scanned
unfolding scan_lines splitlines
scan_of_lesson-scanned = refl

scan_lines-prose_lines_example : trailing scanned.errors ≡ trailing_lines (prose_lines lesson)
scan_lines-prose_lines_example =
    scan_lines-prose_lines (λ code. parsed) (λ code. exited (pos 0) []) (λ t. t) (λ target. false)
      lesson no_totals scanned scan_of_lesson-scanned

-- the only line
lesson-trailing : trailing scanned.errors ≡ 6 ∷ []
unfolding scan_lines splitlines
lesson-trailing = refl

-- two headings of one name, one with a link, and an attribute
abbrev headed : Text
headed = codes "# Read me ##\n## [Read](a.md) me\n<a id=\"top\">\n```\n# no\n```\n#no"

abbrev is_ascii_word : ℕ → Bool
is_ascii_word c = (leb b'a' c && leb c b'z') || (leb b'0' c && leb c b'9')

abbrev ascii_lower : Text → Text
ascii_lower t = map (λ c. if leb b'A' c && leb c b'Z' then c + 32 else c) t

identifiers :
    heading_ids ascii_lower is_ascii_word headed
    ≡ codes "read-me" ∷ codes "read-me-1" ∷ codes "top" ∷ []
unfolding heading_ids
identifiers = refl

abbrev headed_prose : List (ℕ × Text)
headed_prose =
    (1, codes "# Read me ##")
    ∷ (2, codes "## [Read](a.md) me")
    ∷ (3, codes "<a id=\"top\">")
    ∷ (7, codes "#no")
    ∷ []

headed_lines : prose_lines headed ≡ headed_prose
unfolding prose_lines
headed_lines = refl

in_second_place : {A : Type 0} (a b : A) (xs : List A) → Memᴰ b (a ∷ b ∷ xs)
in_second_place a b xs = Memᴰ.tail (Memᴰ.head refl)

-- the second heading of the name
second_heading : Memᴰ (2, codes "## [Read](a.md) me") (prose_lines headed)
second_heading = subst (Memᴰ (2, codes "## [Read](a.md) me")) (sym headed_lines) (
    in_second_place (1, codes "# Read me ##") (2, codes "## [Read](a.md) me")
      ((3, codes "<a id=\"top\">") ∷ (7, codes "#no") ∷ []))

abbrev second_label : Text
second_label = codes "[Read](a.md) me"

second_heading-label : heading_of (codes "## [Read](a.md) me") ≡ some second_label
unfolding heading_of
second_heading-label = refl

heading_ids-IsNamed_example :
    contains
      (slug_of ascii_lower is_ascii_word second_label)
      (heading_ids ascii_lower is_ascii_word headed)
    ≡ true
heading_ids-IsNamed_example =
    heading_ids-IsNamed ascii_lower is_ascii_word headed 2 (codes "## [Read](a.md) me")
      (slug_of ascii_lower is_ascii_word second_label) second_heading
      (inr (second_label, second_heading-label, refl))

-- every path exists, is Markdown and has the document with the two headings
abbrev one_file : Library
one_file = record {
  exists = λ path. true;
  read = λ path. headed;
  suffix = λ path. codes ".md";
  resolve = λ path. path;
  unquote = λ t. t;
  lower = ascii_lower;
  is_word = is_ascii_word;
}

abbrev linking : List (ℕ × Text)
linking = (1, codes "[a](a.md#top) [b](a.md#no) ![ ](a.md)") ∷ []

abbrev nothing_found : Found
nothing_found = record {
  errors = [];
  local_links = 0;
  anchors = 0;
  images = 0;
  svg_paths = [];
  cache = [];
}

broken :
    (check_references one_file (codes "b.md") linking nothing_found).errors
    ≡ missing_heading 1 (codes "a.md#no") ∷ no_alternative 1 ∷ []
unfolding check_references
broken = refl

abbrev cached : Found
cached = record nothing_found { cache = (codes "a.md", ids_of one_file (codes "a.md")) ∷ [] }

cached-IsFaithful : IsFaithful one_file cached.cache
cached-IsFaithful path ids found = elim (Bool-cases (codes "a.md" == path)) [
  | inl here ↦ cc (rw here at found)
  | inr there ↦ cc (rw there at found)
]

check_references-Agrees_example :
    Agrees one_file
      (check_references one_file (codes "b.md") linking cached)
      (check_references one_file (codes "b.md") linking nothing_found)
check_references-Agrees_example =
    check_references-Agrees one_file (codes "b.md") linking cached nothing_found (record {
      errors = refl;
      local_links = refl;
      anchors = refl;
      images = refl;
      svg_paths = refl;
      left = cached-IsFaithful;
      right = λ path ids found. cc;
    })
