-- ===== src/Textbooks/Headings.antt =====
-- learning/validate_docs.py, `heading_ids`: the identifiers that a document has for links into it.
-- What `str.lower` makes of a text and which characters `\w` has are parameters.
pub mod Anchors
use netai_devsecops_runbook.Prelude.{
  ltb, leb, nat_beq, if◌then◌else◌, length, take, drop, ℕ, zero, suc, ◌+◌, ◌-◌, ◌/◌, ◌%◌, Bool,
  true, not, ◌&&◌, ◌||◌, Option, none, some, List, [], ◌∷◌, ◌++◌, map, filter, Dict, add, lookup,
  insert,
}
use netai_devsecops_runbook.Textbooks.Text.{
  text_key, Text, codes, is_space, lstrip, is_empty, starts_with,
}
use netai_devsecops_runbook.Textbooks.Fences.{prose_lines}
use netai_devsecops_runbook.Textbooks.Links.{cut_at}

-- how many characters of the start satisfy a test
abbrev leading : (ℕ → Bool) → Text → ℕ
leading is [] = 0
leading is (c ∷ cs) = let rest = leading is cs in if is c then suc rest else 0

abbrev all_hashes : Text → Bool
all_hashes [] = true
all_hashes (c ∷ cs) = nat_beq c b'#' && all_hashes cs

-- `(?:\s+#+)?$`
abbrev is_heading_end : Text → Bool
is_heading_end [] = true
is_heading_end (c ∷ cs) =
    let marks = lstrip is_space cs in is_space c && not (is_empty marks) && all_hashes marks

-- `(.+?)` before that, after its first character
abbrev heading_tail : Text → Text
heading_tail [] = []
heading_tail (c ∷ cs) =
    let rest = heading_tail cs in if is_heading_end (c ∷ cs) then [] else c ∷ rest

-- `(.+?)(?:\s+#+)?$` after `\s+`: where only whitespace follows, its last character is left
abbrev heading_label : Text → Option Text
heading_label rest = elim (lstrip is_space rest) [
  | c ∷ cs ↦ some (c ∷ heading_tail cs)
  | [] ↦ if leb 2 (length rest) then some (drop (length rest - 1) rest) else none
]

-- `re.match(r"^#{1,6}\s+(.+?)(?:\s+#+)?$", line)`
unfoldable pub heading_of : Text → Option Text
unfolding is_space
heading_of line =
    let hashes = leading (λ c. nat_beq c b'#') line in
    let rest = drop hashes line in
    if leb 1 hashes && leb hashes 6 && leb 1 (leading is_space rest)
    then heading_label rest
    else none

-- `re.sub(r"\[([^]]+)\]\([^)]*\)", r"\1", t)`: `skip` characters are still of the last match
abbrev link_label : Text → Option (Text × ℕ)
link_label [] = none
link_label (c ∷ cs) =
    if nat_beq c b'['
    then elim (cut_at b']' cs) [
      | none ↦ none
      | some (label, after) ↦
          if not (is_empty label) && starts_with (codes "(") after
          then elim (cut_at b')' (drop 1 after)) [
            | none ↦ none
            | some (target, rest) ↦ some (label, length label + length target + 4)
          ]
          else none
    ]
    else none

abbrev without_links : ℕ → Text → Text
without_links skip [] = []
without_links (suc skip) (c ∷ cs) = without_links skip cs
without_links zero (c ∷ cs) = elim (link_label (c ∷ cs)) [
  | none ↦ c ∷ without_links 0 cs
  | some (label, size) ↦ label ++ without_links (size - 1) cs
]

-- `re.sub(r"<[^>]+>", "", t)`
abbrev tag_size : Text → ℕ
tag_size [] = 0
tag_size (c ∷ cs) =
    if nat_beq c b'<'
    then elim (cut_at b'>' cs) [
      | none ↦ 0
      | some (name, after) ↦ if is_empty name then 0 else length name + 2
    ]
    else 0

abbrev without_tags : ℕ → Text → Text
without_tags skip [] = []
without_tags (suc skip) (c ∷ cs) = without_tags skip cs
without_tags zero (c ∷ cs) = elim (tag_size (c ∷ cs)) [
  | zero ↦ c ∷ without_tags 0 cs
  | suc more ↦ without_tags more cs
]

abbrev spaces_to_dashes : Text → Text
spaces_to_dashes t = map (λ c. if nat_beq c b' ' then b'-' else c) t

-- `str(n)`, on fuel
abbrev digits : ℕ → ℕ → Text
digits zero n = []
digits (suc fuel) n =
    let rest = digits fuel (n / 10) in
    if ltb n 10 then (b'0' + n) ∷ [] else rest ++ (b'0' + n % 10) ∷ []

abbrev pub decimal : ℕ → Text
decimal n = digits (n + 1) n

-- `re.findall(r'(?:id|name)=["\']([^"\']+)["\']', line)`
abbrev is_quote : ℕ → Bool
is_quote c = nat_beq c b'"' || nat_beq c 39

abbrev pub quoted : Text → Option (Text × ℕ)
quoted [] = none
quoted (c ∷ cs) =
    let size = leading (λ d. not (is_quote d)) cs in
    if is_quote c && leb 1 size && ltb size (length cs) then some (take size cs, size + 2) else none

abbrev attribute_at : Text → Option (Text × ℕ)
attribute_at t =
    if starts_with (codes "id=") t
    then elim (quoted (drop 3 t)) [ none ↦ none | some (value, size) ↦ some (value, size + 3) ]
    else if starts_with (codes "name=") t
    then elim (quoted (drop 5 t)) [ none ↦ none | some (value, size) ↦ some (value, size + 5) ]
    else none

abbrev pub attributes_from : ℕ → Text → List Text
attributes_from skip [] = []
attributes_from (suc skip) (c ∷ cs) = attributes_from skip cs
attributes_from zero (c ∷ cs) = elim (attribute_at (c ∷ cs)) [
  | none ↦ attributes_from 0 cs
  | some (value, size) ↦ value ∷ attributes_from (size - 1) cs
]

-- `ids` and `counts`
pub record Ids : Type 0 where
  pub ids : List Text
  pub counts : Dict Text ℕ

abbrev pub add_all : List Text → List Text → List Text
add_all [] ids = ids
add_all (id ∷ new) ids = add_all new (add id ids)

-- `counts.get(slug, 0)`
abbrev pub count_of : Option ℕ → ℕ
count_of none = 0
count_of (some n) = n

-- `suffix`, `counts[slug] = …` and `ids.add(…)`
unfoldable pub add_slug : Text → Ids → Ids
add_slug slug s =
    let suffix = count_of (lookup slug s.counts) in
    record {
      ids = add (slug ++ (if nat_beq suffix 0 then [] else b'-' ∷ decimal suffix)) s.ids;
      counts = insert slug (suffix + 1) s.counts;
    }

module _ (lower : Text → Text) (is_word : ℕ → Bool) where
  unfoldable pub slug_of : Text → Text
  slug_of label = spaces_to_dashes (
      filter (λ c. is_word c || nat_beq c b'-' || nat_beq c b' ')
        (lower (without_tags 0 (without_links 0 label))))

  -- the heading of a line
  unfoldable pub add_heading : Text → Ids → Ids
  unfolding heading_of slug_of add_slug
  add_heading line s = elim (heading_of line) [ none ↦ s | some label ↦ add_slug (slug_of label) s ]

  -- the body of the loop, then what an attribute names
  unfoldable pub add_line : Text → Ids → Ids
  unfolding add_heading
  add_line line s =
      let headed = add_heading line s in
      record headed { ids = add_all (attributes_from 0 line) headed.ids }

  abbrev pub heading_loop : List (ℕ × Text) → Ids → Ids
  heading_loop [] s = s
  heading_loop ((number, line) ∷ prose) s = heading_loop prose (add_line line s)

  unfoldable pub heading_ids : Text → List Text
  unfolding add_line prose_lines
  heading_ids source = (heading_loop (prose_lines source) (record { ids = []; counts = [] })).ids
