-- ===== src/Textbooks/Fences.antt =====
-- learning/validate_docs.py, `prose_lines`: the lines of a document outside its fenced examples.
-- `check` of check_lessons.py reads the marks of a fence by the same pattern.
pub mod Blocks
use netai_devsecops_runbook.Prelude.{
  leb, nat_beq, if◌then◌else◌, length, get_or, take, drop, ℕ, suc, ◌+◌, Bool, false, ◌&&◌, Option,
  none, some, List, [], ◌∷◌,
}
use netai_devsecops_runbook.Textbooks.Text.{Text, is_space, lstrip, strip, is_empty, splitlines}

-- the two groups of the pattern
pub record Marker : Type 0 where
  pub marks : Text
  pub info : Text

-- how often `c` stands at the start
abbrev pub run : ℕ → Text → ℕ
run c [] = 0
run c (d ∷ cs) = let rest = run c cs in if nat_beq d c then suc rest else 0

-- `re.match(r"^\s*(`{3,}|~{3,})(.*)$", line)`, for a line without a line feed
unfoldable pub marker_of : Text → Option Marker
unfolding is_space
marker_of line =
    let text = lstrip is_space line in
    let ticks = run b'`' text in
    let tildes = run b'~' text in
    if leb 3 ticks
    then some (record { marks = take ticks text; info = drop ticks text })
    else if leb 3 tildes
    then some (record { marks = take tildes text; info = drop tildes text })
    else none

-- `marker and marker[1][0] == fence[0] and len(marker[1]) >= len(fence) and not marker[2].strip()`
unfoldable pub closes : Text → Text → Bool
unfolding marker_of is_space
closes fence line = elim (marker_of line) [
  | none ↦ false
  | some marker ↦
      nat_beq (get_or marker.marks 0 0) (get_or fence 0 0)
      && leb (length fence) (length marker.marks)
      && is_empty (strip is_space marker.info)
]

-- the loop, with `fence` and the number of the next line
unfoldable pub prose_loop : Option Text → ℕ → List Text → List (ℕ × Text)
unfolding closes marker_of
prose_loop fence number [] = []
prose_loop (some fence) number (line ∷ lines) =
    prose_loop (if closes fence line then none else some fence) (number + 1) lines
prose_loop none number (line ∷ lines) = elim (marker_of line) [
  | some marker ↦ prose_loop (some marker.marks) (number + 1) lines
  | none ↦ (number, line) ∷ prose_loop none (number + 1) lines
]

unfoldable pub prose_lines : Text → List (ℕ × Text)
unfolding prose_loop splitlines
prose_lines source = prose_loop none 1 (splitlines source)
