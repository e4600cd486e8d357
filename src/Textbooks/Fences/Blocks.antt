-- ===== src/Textbooks/Fences/Blocks.antt =====
-- Documents as sequences of lines of prose and fenced examples, and what `prose_lines` makes of them.
use netai_devsecops_runbook.Prelude.{
  Bool-cases, Option-cases, length, length-append, All, ℕ, zero, suc, ◌+◌, ◌<◌, ◌≡◌, refl, sym, ap,
  subst, ◌∙◌, ◌⊎◌, inl, inr, true, false, Option, none, some, List, [], ◌∷◌, ◌++◌, arith,
  append-nil, if◌then◌else◌,
}
use netai_devsecops_runbook.Textbooks.Text.{Text, splitlines}
use netai_devsecops_runbook.Textbooks.Fences.{Marker, marker_of, closes, prose_loop, prose_lines}

-- `Blocks number lines prose pending`: the lines from `number` on are lines of prose and examples, each
-- from a marker to the first line that closes it; the last one may be open, since the line and with
-- the marks of `pending`
pub data Blocks : ℕ → List Text → List (ℕ × Text) → Option (ℕ × Text) → Type 0 where
  no_line : {number : ℕ} → Blocks number [] [] none
  prose_line :
      {number : ℕ} {line : Text} {lines : List Text} {prose : List (ℕ × Text)}
      {pending : Option (ℕ × Text)}
      → marker_of line ≡ none
      → Blocks (number + 1) lines prose pending
      → Blocks number (line ∷ lines) ((number, line) ∷ prose) pending
  fenced :
      {number : ℕ} {marker : Marker} (line last : Text) (body lines : List Text)
      {prose : List (ℕ × Text)} {pending : Option (ℕ × Text)}
      → marker_of line ≡ some marker
      → All (λ inner. closes marker.marks inner ≡ false) body
      → closes marker.marks last ≡ true
      → Blocks (number + 1 + length body + 1) lines prose pending
      → Blocks number (line ∷ body ++ last ∷ lines) prose pending
  unclosed :
      {number : ℕ} {line : Text} {marker : Marker} {body : List Text}
      → marker_of line ≡ some marker
      → All (λ inner. closes marker.marks inner ≡ false) body
      → Blocks number (line ∷ body) [] (some (number, marker.marks))

-- the loop passes over the body of an example
prose_loop-body :
    (fence : Text) (number : ℕ) (body lines : List Text)
    → All (λ inner. closes fence inner ≡ false) body
    → prose_loop (some fence) number (body ++ lines)
      ≡ prose_loop (some fence) (number + length body) lines
unfolding prose_loop
prose_loop-body fence number [] lines h = ap (λ n. prose_loop (some fence) n lines) (omega arith)
prose_loop-body fence number (inner ∷ body) lines (pending, h) =
    ap (λ b. prose_loop (if b then none else some fence) (number + 1) (body ++ lines)) pending
    ∙ prose_loop-body fence (number + 1) body lines h
    ∙ ap (λ n. prose_loop (some fence) n lines) (omega arith)

Blocks-prose :
    {number : ℕ} {lines : List Text} {prose : List (ℕ × Text)} {pending : Option (ℕ × Text)}
    → Blocks number lines prose pending
    → prose ≡ prose_loop none number lines
unfolding prose_loop
Blocks-prose no_line = refl
Blocks-prose (prose_line {number} {line} no_marker rest) =
    rw (no_marker, prose_loop) (ap (◌∷◌ (number, line)) (Blocks-prose rest))
Blocks-prose (fenced {number} {marker} line last body lines marked h closing rest) =
    rw
      (marked, prose_loop, prose_loop-body marker.marks (number + 1) body (last ∷ lines) h, closing)
      (Blocks-prose rest)
Blocks-prose (unclosed {number} {line} {marker} {body} marked h) = sym (
    rw
      (
        marked,
        prose_loop,
        sym (append-nil body),
        prose_loop-body marker.marks (number + 1) body [] h,
      )
      refl)

-- lines after a marker: none closes, or there is a first that does
find_close :
    (fence : Text) (lines : List Text)
    → All (λ inner. closes fence inner ≡ false) lines
      ⊎ ((body : List Text) × (last : Text) × (rest : List Text) × (lines ≡ body ++ last ∷ rest)
          × All (λ inner. closes fence inner ≡ false) body
          × (closes fence last ≡ true))
find_close fence [] = inl tt
find_close fence (line ∷ lines) = elim (Bool-cases (closes fence line)) [
  | inl closing ↦ inr ([], line, lines, refl, tt, closing)
  | inr pending ↦ elim (find_close fence lines) [
    | inl h ↦ inl (pending, h)
    | inr (body, last, rest, e, h, closing) ↦
        inr (line ∷ body, last, rest, ap (◌∷◌ line) e, (pending, h), closing)
  ]
]

cover_lines :
    (fuel number : ℕ) (lines : List Text)
    → length lines < fuel
    → (prose : List (ℕ × Text)) × (pending : Option (ℕ × Text)) × Blocks number lines prose pending
cover_lines zero number lines h = absurd (omega arith)
cover_lines (suc fuel) number [] h = ([], none, no_line)
cover_lines (suc fuel) number (line ∷ lines) h = elim (Option-cases (marker_of line)) [
  | inl no_marker ↦
      let (prose, pending, blocks) = cover_lines fuel (number + 1) lines (omega arith) in
      ((number, line) ∷ prose, pending, prose_line no_marker blocks)
  | inr (marker, marked) ↦ elim (find_close marker.marks lines) [
    | inl all_open ↦ ([], some (number, marker.marks), unclosed marked all_open)
    | inr (body, last, rest, e, all_open, closing) ↦
        let shorter : length rest < fuel =
          omega (arith, ap length e, length-append body (last ∷ rest)) in
        let (prose, pending, blocks) =
          cover_lines fuel (number + 1 + length body + 1) rest shorter in
        (
          prose,
          pending,
          subst (λ ls. Blocks number (line ∷ ls) prose pending) (sym e)
              (fenced line last body rest marked all_open closing blocks),
        )
  ]
]

-- Every document is a sequence of lines of prose and of examples, each from a marker to the first
-- line that closes it, the last one possibly open; and in whatever way it is read as one, the lines
-- of prose, with their numbers and in their order, are those that `prose_lines` yields.
pub prose_lines-Blocks :
    (source : Text)
    → ((pending : Option (ℕ × Text)) × Blocks 1 (splitlines source) (prose_lines source) pending)
      × ((prose : List (ℕ × Text)) (pending : Option (ℕ × Text))
          → Blocks 1 (splitlines source) prose pending
          → prose ≡ prose_lines source)
unfolding prose_lines
prose_lines-Blocks source =
    let (prose, pending, blocks) =
      cover_lines (length (splitlines source) + 1) 1 (splitlines source) (omega arith) in
    (
      (pending, subst (λ p. Blocks 1 (splitlines source) p pending) (Blocks-prose blocks) blocks),
      λ prose' pending' blocks'. Blocks-prose blocks',
    )
