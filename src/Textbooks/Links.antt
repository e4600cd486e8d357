-- ===== src/Textbooks/Links.antt =====
-- The links of a line, as both checkers find and cut them.
use netai_devsecops_runbook.Prelude.{
  leb, nat_beq, if◌then◌else◌, length, drop, ℕ, zero, suc, ◌+◌, ◌-◌, Bool, true, false, ◌&&◌, ◌||◌,
  Option, none, some, List, [], ◌∷◌,
}
use netai_devsecops_runbook.Textbooks.Text.{Text, codes, starts_with, before, strip}

-- what stands before the first `c`, and what stands after it
abbrev pub cut_at : ℕ → Text → Option (Text × Text)
cut_at c [] = none
cut_at c (d ∷ cs) =
    let rest = cut_at c cs in
    if nat_beq c d
    then some ([], cs)
    else elim rest [ none ↦ none | some (label, after) ↦ some (d ∷ label, after) ]

-- `\[[^\]]*\]\(([^)]+)\)` at the start: the group and what follows the match
abbrev link_at : Text → Option (Text × ℕ)
link_at [] = none
link_at (c ∷ cs) =
    if nat_beq c b'['
    then elim (cut_at b']' cs) [
      | none ↦ none
      | some (label, after) ↦
          if starts_with (codes "(") after
          then elim (cut_at b')' (drop 1 after)) [
            | none ↦ none
            | some (target, rest) ↦
                if nat_beq (length target) 0
                then none
                else some (target, length label + length target + 4)
          ]
          else none
    ]
    else none

-- `re.findall(r"!?\[[^\]]*\]\(([^)]+)\)", line)`: `skip` characters are still of the last match.
-- The mark before a bracket changes neither the group nor where the match ends.
abbrev targets_from : ℕ → Text → List Text
targets_from skip [] = []
targets_from (suc skip) (c ∷ cs) = targets_from skip cs
targets_from zero (c ∷ cs) = elim (link_at (c ∷ cs)) [
  | none ↦ targets_from 0 cs
  | some (target, size) ↦ target ∷ targets_from (size - 1) cs
]

unfoldable pub link_targets : Text → List Text
link_targets line = targets_from 0 line

abbrev is_letter : ℕ → Bool
is_letter c = (leb b'A' c && leb c b'Z') || (leb b'a' c && leb c b'z')

-- `[A-Za-z0-9+.-]*:`
abbrev scheme_rest : Text → Bool
scheme_rest [] = false
scheme_rest (c ∷ cs) =
    let rest = scheme_rest cs in
    if nat_beq c b':'
    then true
    else (is_letter c
        || (leb b'0' c && leb c b'9')
        || nat_beq c b'+'
        || nat_beq c b'.'
        || nat_beq c b'-')
      && rest

-- `re.match(r"^[A-Za-z][A-Za-z0-9+.-]*:", target)`
unfoldable pub has_scheme : Text → Bool
has_scheme [] = false
has_scheme (c ∷ cs) = is_letter c && scheme_rest cs

-- `target.split(' "', 1)[0].strip("<>")`
unfoldable pub link_target : Text → Text
link_target raw = strip (λ c. nat_beq c b'<' || nat_beq c b'>') (before (codes " \"") raw)
