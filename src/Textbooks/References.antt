-- ===== src/Textbooks/References.antt =====
-- learning/validate_docs.py, `check`: the links and pictures of one document. Which paths exist, what
-- stands in them, their suffixes and what `unquote` and `str.lower` give are parameters.
pub mod Cache
use netai_devsecops_runbook.Prelude.{
  if◌then◌else◌, length, drop, ◌==◌, Dict, contains, add, lookup, insert, ℕ, zero, suc, ◌+◌, ◌-◌,
  Bool, not, ◌&&◌, ◌||◌, Option, none, some, List, [], ◌∷◌, ◌++◌,
}
use netai_devsecops_runbook.Textbooks.Text.{
  Text, text_key, codes, is_space, starts_with, strip, is_empty, before,
}
use netai_devsecops_runbook.Textbooks.Links.{cut_at, link_targets, has_scheme, link_target}
use netai_devsecops_runbook.Textbooks.Headings.{quoted, heading_ids}

-- `re.findall(r'(?:src|href)=["\']([^"\']+)["\']', line)`
abbrev reference_at : Text → Option (Text × ℕ)
reference_at t =
    if starts_with (codes "src=") t
    then elim (quoted (drop 4 t)) [ none ↦ none | some (value, size) ↦ some (value, size + 4) ]
    else if starts_with (codes "href=") t
    then elim (quoted (drop 5 t)) [ none ↦ none | some (value, size) ↦ some (value, size + 5) ]
    else none

abbrev pub references_from : ℕ → Text → List Text
references_from skip [] = []
references_from (suc skip) (c ∷ cs) = references_from skip cs
references_from zero (c ∷ cs) = elim (reference_at (c ∷ cs)) [
  | none ↦ references_from 0 cs
  | some (value, size) ↦ value ∷ references_from (size - 1) cs
]

-- `re.findall(r"!\[([^\]]*)\]\(", line)`
abbrev picture_at : Text → Option (Text × ℕ)
picture_at t =
    if starts_with (codes "![") t
    then elim (cut_at b']' (drop 2 t)) [
      | none ↦ none
      | some (alt, after) ↦
          if starts_with (codes "(") after then some (alt, length alt + 4) else none
    ]
    else none

abbrev pub alternatives_from : ℕ → Text → List Text
alternatives_from skip [] = []
alternatives_from (suc skip) (c ∷ cs) = alternatives_from skip cs
alternatives_from zero (c ∷ cs) = elim (picture_at (c ∷ cs)) [
  | none ↦ alternatives_from 0 cs
  | some (alt, size) ↦ alt ∷ alternatives_from (size - 1) cs
]

-- what follows the first `#`
abbrev pub fragment_of : Text → Text
fragment_of target = elim (cut_at b'#' target) [ none ↦ [] | some (path, fragment) ↦ fragment ]

pub data Broken : Type 0 where
  missing_target missing_heading : ℕ → Text → Broken
  no_alternative : ℕ → Broken

-- the counters, and `heading_cache`
pub record Found : Type 0 where
  pub errors : List Broken
  pub local_links : ℕ
  pub anchors : ℕ
  pub images : ℕ
  pub svg_paths : List Text
  pub cache : Dict Text (List Text)

abbrev pub complain : Broken → Found → Found
complain broken s = record s { errors = s.errors ++ broken ∷ [] }

-- what the checks ask of the files and of Python
pub record Library : Type 0 where
  pub exists : Text → Bool
  pub read : Text → Text
  pub suffix : Text → Text
  pub resolve : Text → Text
  pub unquote : Text → Text
  pub lower : Text → Text
  pub is_word : ℕ → Bool

abbrev picture_suffixes : List Text
picture_suffixes = codes ".svg" ∷ codes ".jpg" ∷ codes ".jpeg" ∷ codes ".png" ∷ codes ".webp" ∷ []

module _ (library : Library) where
  abbrev pub ids_of : Text → List Text
  ids_of path = heading_ids library.lower library.is_word (library.read path)

  -- the headings of a path, from the cache or read now, and the cache then
  unfoldable pub cached_ids : Text → Dict Text (List Text) → List Text × Dict Text (List Text)
  unfolding heading_ids
  cached_ids path cache = elim (lookup path cache) [
    | some ids ↦ (ids, cache)
    | none ↦ (ids_of path, insert path (ids_of path) cache)
  ]

  unfoldable pub check_anchor : ℕ → Text → Text → Found → Found
  unfolding cached_ids
  check_anchor number target linked s =
      let fragment = fragment_of target in
      if not (is_empty fragment) && library.suffix linked == codes ".md"
      then (let (ids, cache) = cached_ids linked s.cache in
          let counted : Found = record s { anchors = s.anchors + 1; cache = cache } in
          if contains (library.unquote fragment) ids
          then counted
          else complain (missing_heading number target) counted)
      else s

  unfoldable pub check_picture : Text → Found → Found
  check_picture linked s =
      if contains (library.lower (library.suffix linked)) picture_suffixes
      then (let counted : Found = record s { images = s.images + 1 } in
          if library.suffix linked == codes ".svg"
          then record counted { svg_paths = add linked s.svg_paths }
          else counted)
      else s

  -- one target of a line, `path` being the document's
  unfoldable pub check_target : Text → ℕ → Text → Found → Found
  unfolding check_anchor check_picture has_scheme link_target
  check_target path number raw s =
      let target = link_target raw in
      let target_path = before (codes "#") target in
      let linked =
        if is_empty target_path then path else library.resolve (library.unquote target_path) in
      let counted : Found = record s { local_links = s.local_links + 1 } in
      if has_scheme target || starts_with (codes "//") target
      then s
      else if not (library.exists linked)
      then complain (missing_target number target) counted
      else check_picture linked (check_anchor number target linked counted)

  abbrev pub check_targets : Text → ℕ → List Text → Found → Found
  check_targets path number [] s = s
  check_targets path number (raw ∷ raws) s =
      check_targets path number raws (check_target path number raw s)

  abbrev pub check_alternatives : ℕ → List Text → Found → Found
  check_alternatives number [] s = s
  check_alternatives number (alt ∷ alts) s =
      check_alternatives number alts
        (if is_empty (strip is_space alt) then complain (no_alternative number) s else s)

  -- `for number, line in prose_lines(source)`
  unfoldable pub check_references : Text → List (ℕ × Text) → Found → Found
  unfolding check_target link_targets is_space
  check_references path [] s = s
  check_references path ((number, line) ∷ prose) s =
      let linked = check_targets path number (link_targets line ++ references_from 0 line) s in
      check_references path prose (check_alternatives number (alternatives_from 0 line) linked)
