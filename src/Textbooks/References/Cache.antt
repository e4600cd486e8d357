-- ===== src/Textbooks/References/Cache.antt =====
-- validate_docs.py, `check`: the links of a document, with and without cached headings.
use netai_devsecops_runbook.Prelude.{
  if◌then◌else◌, Bool-cases, Option-cases, ◌==◌, Dict, ==_eq, add, lookup, lookup-insert, ℕ, ◌+◌,
  ◌≡◌, refl, sym, ap, ◌∙◌, inl, inr, Bool, true, false, some, List, [], ◌∷◌, ◌++◌, contains, subst,
}
use netai_devsecops_runbook.Textbooks.Text.{
  Text, text_key, codes, is_empty, strip, is_space, before,
}
use netai_devsecops_runbook.Textbooks.Links.{link_targets, link_target}
use netai_devsecops_runbook.Textbooks.References.{
  Broken, missing_target, missing_heading, no_alternative, Found, complain, Library, ids_of,
  cached_ids, check_anchor, check_picture, check_target, check_targets, check_alternatives,
  check_references, fragment_of, references_from, alternatives_from,
}

module _ (library : Library) where
  -- what is cached for a path are the headings of its file
  abbrev pub IsFaithful : Dict Text (List Text) → Type 0
  IsFaithful cache =
      (path : Text) (ids : List Text) → lookup path cache ≡ some ids → ids ≡ ids_of library path

  cached_ids-IsFaithful :
      (path : Text) (cache : Dict Text (List Text))
      → IsFaithful cache
      → ((cached_ids library path cache).0 ≡ ids_of library path)
        × IsFaithful (cached_ids library path cache).1
  unfolding cached_ids
  cached_ids-IsFaithful path cache faithful = elim (Option-cases (lookup path cache)) [
    | inr (ids, known) ↦ rw (known, cached_ids) (faithful path ids known, faithful)
    | inl unknown ↦
        rw (unknown, cached_ids)
          (
            refl,
            λ other ids found. elim (Bool-cases (path == other)) [
              | inl equal ↦
                  let e = sym (lookup-insert path other (ids_of library path) cache) ∙ found in
                  let now : some (ids_of library path) ≡ some ids = rw equal at e in
                  let known : ids_of library path ≡ ids = cc in
                  sym known ∙ ap (ids_of library) (==_eq path other equal)
              | inr different ↦
                  let e = sym (lookup-insert path other (ids_of library path) cache) ∙ found in
                  faithful other ids (rw different at e)
            ],
          )
  ]

  -- two states with all but the cache in common
  pub record Agrees (s t : Found) : Type 0 where
    pub errors : s.errors ≡ t.errors
    pub local_links : s.local_links ≡ t.local_links
    pub anchors : s.anchors ≡ t.anchors
    pub images : s.images ≡ t.images
    pub svg_paths : s.svg_paths ≡ t.svg_paths
    pub left : IsFaithful s.cache
    pub right : IsFaithful t.cache

  Agrees-if :
      {s s' t t' : Found} (b : Bool)
      → Agrees s t
      → Agrees s' t'
      → Agrees (if b then s else s') (if b then t else t')
  Agrees-if true a a' = a
  Agrees-if false a a' = a'

  Agrees-tests :
      {s s' t t' : Found} (b b' : Bool)
      → b ≡ b'
      → Agrees s t
      → Agrees s' t'
      → Agrees (if b then s else s') (if b' then t else t')
  Agrees-tests {s} {s'} {t} {t'} b b' e a a' =
      subst (λ c. Agrees (if b then s else s') (if c then t else t')) e (Agrees-if b a a')

  Agrees-complain :
      (broken : Broken) (s t : Found) → Agrees s t → Agrees (complain broken s) (complain broken t)
  Agrees-complain broken s t a = record {
    errors = ap (λ es. es ++ broken ∷ []) a.errors;
    local_links = a.local_links;
    anchors = a.anchors;
    images = a.images;
    svg_paths = a.svg_paths;
    left = a.left;
    right = a.right;
  }

  Agrees-anchor :
      (number : ℕ) (target linked : Text) (s t : Found)
      → Agrees s t
      → Agrees
          (check_anchor library number target linked s)
          (check_anchor library number target linked t)
  unfolding check_anchor
  Agrees-anchor number target linked s t a =
      let (ids_s, faithful_s) = cached_ids-IsFaithful linked s.cache a.left in
      let (ids_t, faithful_t) = cached_ids-IsFaithful linked t.cache a.right in
      let s' : Found = record s {
        anchors = s.anchors + 1;
        cache = (cached_ids library linked s.cache).1;
      } in
      let t' : Found = record t {
        anchors = t.anchors + 1;
        cache = (cached_ids library linked t.cache).1;
      } in
      let counted : Agrees s' t' = record {
        errors = a.errors;
        local_links = a.local_links;
        anchors = ap (λ n. n + 1) a.anchors;
        images = a.images;
        svg_paths = a.svg_paths;
        left = faithful_s;
        right = faithful_t;
      } in
      Agrees-if _
        (Agrees-tests _ _ (ap (contains (library.unquote (fragment_of target))) (ids_s ∙ sym ids_t))
          counted (Agrees-complain (missing_heading number target) s' t' counted))
        a

  Agrees-picture :
      (linked : Text) (s t : Found)
      → Agrees s t
      → Agrees (check_picture library linked s) (check_picture library linked t)
  unfolding check_picture
  Agrees-picture linked s t a =
      Agrees-if _
        (Agrees-if _
          (record {
            errors = a.errors;
            local_links = a.local_links;
            anchors = a.anchors;
            images = ap (λ n. n + 1) a.images;
            svg_paths = ap (add linked) a.svg_paths;
            left = a.left;
            right = a.right;
          })
          (record {
            errors = a.errors;
            local_links = a.local_links;
            anchors = a.anchors;
            images = ap (λ n. n + 1) a.images;
            svg_paths = a.svg_paths;
            left = a.left;
            right = a.right;
          }))
        a

  Agrees-target :
      (path : Text) (number : ℕ) (raw : Text) (s t : Found)
      → Agrees s t
      → Agrees (check_target library path number raw s) (check_target library path number raw t)
  unfolding check_target
  Agrees-target path number raw s t a =
      let s' : Found = record s { local_links = s.local_links + 1 } in
      let t' : Found = record t { local_links = t.local_links + 1 } in
      let counted : Agrees s' t' = record {
        errors = a.errors;
        local_links = ap (λ n. n + 1) a.local_links;
        anchors = a.anchors;
        images = a.images;
        svg_paths = a.svg_paths;
        left = a.left;
        right = a.right;
      } in
      let target = link_target raw in
      let target_path = before (codes "#") target in
      let linked =
        if is_empty target_path then path else library.resolve (library.unquote target_path) in
      Agrees-if _ a (
        Agrees-if _ (Agrees-complain (missing_target number target) s' t' counted) (
          Agrees-picture linked (check_anchor library number target linked s')
            (check_anchor library number target linked t')
            (Agrees-anchor number target linked s' t' counted)))

  Agrees-targets :
      (path : Text) (number : ℕ) (raws : List Text) (s t : Found)
      → Agrees s t
      → Agrees (check_targets library path number raws s) (check_targets library path number raws t)
  Agrees-targets path number [] s t a = a
  Agrees-targets path number (raw ∷ raws) s t a =
      Agrees-targets path number raws (check_target library path number raw s)
        (check_target library path number raw t) (Agrees-target path number raw s t a)

  Agrees-alternatives :
      (number : ℕ) (alts : List Text) (s t : Found)
      → Agrees s t
      → Agrees (check_alternatives library number alts s) (check_alternatives library number alts t)
  Agrees-alternatives number [] s t a = a
  Agrees-alternatives number (alt ∷ alts) s t a =
      Agrees-alternatives number alts _ _ (
        Agrees-if (is_empty (strip is_space alt)) (Agrees-complain (no_alternative number) s t a) a)

  -- For a document and any lines of it: from two states that differ in the cache alone, where what is
  -- cached for a path are the headings of its file, the check finds the same errors, links, anchors
  -- and pictures; and what is cached afterwards are the headings of the files still.
  pub check_references-Agrees :
      (path : Text) (prose : List (ℕ × Text)) (s t : Found)
      → Agrees s t
      → Agrees (check_references library path prose s) (check_references library path prose t)
  unfolding check_references
  check_references-Agrees path [] s t a = a
  check_references-Agrees path ((number, line) ∷ prose) s t a =
      let raws = link_targets line ++ references_from 0 line in
      check_references-Agrees path prose _ _ (
        Agrees-alternatives number (alternatives_from 0 line)
          (check_targets library path number raws s) (check_targets library path number raws t)
          (Agrees-targets path number raws s t a))
