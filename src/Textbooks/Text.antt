-- ===== src/Textbooks/Text.antt =====
-- The operations of Python on texts that the checkers use. A text is the list of its code points.
use netai_devsecops_runbook.Prelude.{
  Key, nat_key, list_key, leb, nat_beq, if◌then◌else◌, length, ℕ, zero, suc, ◌-◌, String, Bool,
  true, false, ◌&&◌, ◌||◌, List, [], ◌∷◌, ◌++◌,
}
use Prim.Native.Char.{code}

abbrev pub Text : Type 0
Text = List ℕ

-- the code points of a literal
abbrev pub codes : String → Text
codes String.[] = []
codes (String.◌∷◌ c s) = code c ∷ codes s

-- `str.isspace` of one character, which is also `\s` of a pattern
unfoldable pub is_space : ℕ → Bool
is_space c =
    (leb 9 c && leb c 13)
    || (leb 28 c && leb c 32)
    || nat_beq c 133
    || nat_beq c 160
    || nat_beq c 5760
    || (leb 8192 c && leb c 8202)
    || nat_beq c 8232
    || nat_beq c 8233
    || nat_beq c 8239
    || nat_beq c 8287
    || nat_beq c 12288

-- `str.lstrip` of the characters that satisfy a test
abbrev pub lstrip : (ℕ → Bool) → Text → Text
lstrip is [] = []
lstrip is (c ∷ cs) = if is c then lstrip is cs else c ∷ cs

abbrev pub is_empty : Text → Bool
is_empty [] = true
is_empty (c ∷ cs) = false

-- `str.rstrip`
abbrev pub rstrip : (ℕ → Bool) → Text → Text
rstrip is [] = []
rstrip is (c ∷ cs) = let rest = rstrip is cs in if is_empty rest && is c then [] else c ∷ rest

abbrev pub strip : (ℕ → Bool) → Text → Text
strip is t = rstrip is (lstrip is t)

abbrev pub starts_with : Text → Text → Bool
starts_with [] t = true
starts_with (p ∷ ps) [] = false
starts_with (p ∷ ps) (c ∷ cs) = nat_beq p c && starts_with ps cs

abbrev pub same_text : Text → Text → Bool
same_text s t = nat_beq (length s) (length t) && starts_with s t

-- the last character is `last`
abbrev pub ends_with : ℕ → Text → Bool
ends_with last [] = false
ends_with last (c ∷ []) = nat_beq c last
ends_with last (c ∷ d ∷ cs) = ends_with last (d ∷ cs)

-- `t.split(separator, 1)[0]`
abbrev pub before : Text → Text → Text
before separator [] = []
before separator (c ∷ cs) =
    let rest = before separator cs in if starts_with separator (c ∷ cs) then [] else c ∷ rest

-- `t.count(needle)`, where occurrences do not overlap: `skip` characters are still of the last one
abbrev pub occurrences : Text → ℕ → Text → ℕ
occurrences needle skip [] = 0
occurrences needle zero (c ∷ cs) =
    let found = suc (occurrences needle (length needle - 1) cs) in
    let rest = occurrences needle 0 cs in if starts_with needle (c ∷ cs) then found else rest
occurrences needle (suc skip) (c ∷ cs) = occurrences needle skip cs

-- `"\n".join(lines)`
abbrev pub join_lines : List Text → Text
join_lines [] = []
join_lines (line ∷ []) = line
join_lines (line ∷ next ∷ lines) = line ++ 10 ∷ join_lines (next ∷ lines)

-- the characters that end a line for `str.splitlines`
abbrev is_line_end : ℕ → Bool
is_line_end c =
    (leb 10 c && leb c 13)
    || (leb 28 c && leb c 30)
    || nat_beq c 133
    || nat_beq c 8232
    || nat_beq c 8233

-- `after_cr` tells that the last character was a carriage return, with which a line feed is one end
abbrev lines_from : Bool → Text → Text → List Text
lines_from after_cr current [] = if is_empty current then [] else current ∷ []
lines_from after_cr current (c ∷ cs) = elim (after_cr && nat_beq c 10) [
  | true ↦ lines_from false [] cs
  | false ↦ elim (is_line_end c) [
    | true ↦ current ∷ lines_from (nat_beq c 13) [] cs
    | false ↦ lines_from false (current ++ c ∷ []) cs
  ]
]

-- `t.splitlines()`
unfoldable pub splitlines : Text → List Text
splitlines t = lines_from false [] t

instance abbrev pub text_key : Key Text
text_key = list_key
