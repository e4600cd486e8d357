-- ===== src/Textbooks/Headings/Anchors.antt =====
-- validate_docs.py, `heading_ids`: the identifiers of headings and attributes.
use netai_devsecops_runbook.Prelude.Memᴰ
use netai_devsecops_runbook.Prelude.{
  Bool-cases, Option-cases, ◌==◌, ==_eq, contains, add, contains-add, lookup, ℕ, ◌<◌, ◌≡◌, sym, inl,
  inr, Bool, true, some, List, [], ◌∷◌, arith, lookup-insert, ◌+◌, ap, subst, ◌∙◌, ◌⊎◌, false, Memᴰ,
  append-nil,
}
use netai_devsecops_runbook.Textbooks.Text.{Text, text_key}
use netai_devsecops_runbook.Textbooks.Fences.{prose_lines}
use netai_devsecops_runbook.Textbooks.Headings.{
  Ids, heading_of, attributes_from, add_all, count_of, slug_of, add_slug, add_heading, add_line,
  heading_loop, heading_ids,
}

add_keeps :
    (id new : Text) (ids : List Text) → contains id ids ≡ true → contains id (add new ids) ≡ true
add_keeps id new ids h = ground (arith, contains-add new id ids)

add_there : (id : Text) (ids : List Text) → contains id (add id ids) ≡ true
add_there id ids = ground (arith, contains-add id id ids, text_key.same_iff id id)

add_all-keeps :
    (new ids : List Text) (id : Text)
    → contains id ids ≡ true
    → contains id (add_all new ids) ≡ true
add_all-keeps [] ids id h = h
add_all-keeps (first ∷ new) ids id h =
    add_all-keeps new (add first ids) id (add_keeps id first ids h)

add_all-there :
    (new ids : List Text) (id : Text)
    → contains id new ≡ true
    → contains id (add_all new ids) ≡ true
add_all-there [] ids id h = cc
add_all-there (first ∷ new) ids id h = elim (Bool-cases (first == id)) [
  | inl here ↦
      add_all-keeps new (add first ids) id (rw (sym (==_eq first id here)) (add_there first ids))
  | inr later ↦ add_all-there new (add first ids) id (rw later at h)
]

-- a slug that was counted is an identifier
record IsCounted (s : Ids) : Type 0 where
  counted :
      (slug : Text) (n : ℕ) → lookup slug s.counts ≡ some n → (0 < n) × (contains slug s.ids ≡ true)

add_slug-there : (slug : Text) (s : Ids) → IsCounted s → contains slug (add_slug slug s).ids ≡ true
unfolding add_slug
add_slug-there slug s c = elim (Option-cases (lookup slug s.counts)) [
  | inl first ↦ rw (first, add_slug, append-nil slug) (add_there slug s.ids)
  | inr (n, again) ↦ rw (again, add_slug) (add_keeps slug _ s.ids (c.counted slug n again).1)
]

add_slug-keeps :
    (slug : Text) (s : Ids) (id : Text)
    → contains id s.ids ≡ true
    → contains id (add_slug slug s).ids ≡ true
unfolding add_slug
add_slug-keeps slug s id there = add_keeps id _ s.ids there

counted_now :
    (slug other : Text) (n : ℕ) (s : Ids)
    → (slug == other) ≡ true
    → lookup other (add_slug slug s).counts ≡ some n
    → 0 < n
unfolding add_slug
counted_now slug other n s equal found =
    let e = sym (lookup-insert slug other (count_of (lookup slug s.counts) + 1) s.counts) ∙ found in
    let same_number : some (count_of (lookup slug s.counts) + 1) ≡ some n = rw equal at e in
    let number : count_of (lookup slug s.counts) + 1 ≡ n = cc in omega (arith, number)

counted_before :
    (slug other : Text) (n : ℕ) (s : Ids)
    → (slug == other) ≡ false
    → lookup other (add_slug slug s).counts ≡ some n
    → lookup other s.counts ≡ some n
unfolding add_slug
counted_before slug other n s different found =
    let e = sym (lookup-insert slug other (count_of (lookup slug s.counts) + 1) s.counts) ∙ found in
    rw different at e

add_slug-IsCounted : (slug : Text) (s : Ids) → IsCounted s → IsCounted (add_slug slug s)
add_slug-IsCounted slug s c = record {
  counted = λ other n found. elim (Bool-cases (slug == other)) [
    | inl equal ↦ (
      counted_now slug other n s equal found,
      rw (sym (==_eq slug other equal)) (add_slug-there slug s c),
    )
    | inr different ↦
        let old = counted_before slug other n s different found in
        ((c.counted other n old).0, add_slug-keeps slug s other (c.counted other n old).1)
  ];
}

module _ (lower : Text → Text) (is_word : ℕ → Bool) where
  add_heading-IsCounted :
      (line : Text) (s : Ids) → IsCounted s → IsCounted (add_heading lower is_word line s)
  unfolding add_heading
  add_heading-IsCounted line s c = elim (Option-cases (heading_of line)) [
    | inl other ↦ rw (other, add_heading) c
    | inr (label, h) ↦ rw (h, add_heading) (add_slug-IsCounted (slug_of lower is_word label) s c)
  ]

  add_heading-keeps :
      (line : Text) (s : Ids) (id : Text)
      → contains id s.ids ≡ true
      → contains id (add_heading lower is_word line s).ids ≡ true
  unfolding add_heading
  add_heading-keeps line s id there = elim (Option-cases (heading_of line)) [
    | inl other ↦ rw (other, add_heading) there
    | inr (label, h) ↦ rw (h, add_heading) (add_slug-keeps (slug_of lower is_word label) s id there)
  ]

  add_line-IsCounted :
      (line : Text) (s : Ids) → IsCounted s → IsCounted (add_line lower is_word line s)
  unfolding add_line
  add_line-IsCounted line s c =
      let headed = add_heading-IsCounted line s c in
      record {
        counted = λ slug n found.
            let (positive, there) = headed.counted slug n found in
            (
              positive,
              add_all-keeps (attributes_from 0 line) (add_heading lower is_word line s).ids slug
                  there,
            );
      }

  heading_loop-keeps :
      (prose : List (ℕ × Text)) (s : Ids) (id : Text)
      → contains id s.ids ≡ true
      → contains id (heading_loop lower is_word prose s).ids ≡ true
  unfolding add_line
  heading_loop-keeps [] s id there = there
  heading_loop-keeps ((number, line) ∷ prose) s id there =
      heading_loop-keeps prose (add_line lower is_word line s) id (
        add_all-keeps (attributes_from 0 line) (add_heading lower is_word line s).ids id
          (add_heading-keeps line s id there))

  -- the identifiers of a line: those of its attributes, and the slug of its heading
  abbrev pub IsNamed : Text → Text → Type 0
  IsNamed line id =
      (contains id (attributes_from 0 line) ≡ true)
      ⊎ ((label : Text) × (heading_of line ≡ some label) × (slug_of lower is_word label ≡ id))

  add_line-there :
      (line : Text) (s : Ids) (id : Text)
      → IsCounted s
      → IsNamed line id
      → contains id (add_line lower is_word line s).ids ≡ true
  unfolding add_line add_heading
  add_line-there line s id c (inl attribute) =
      add_all-there (attributes_from 0 line) (add_heading lower is_word line s).ids id attribute
  add_line-there line s id c (inr (label, h, e)) =
      add_all-keeps (attributes_from 0 line) (add_heading lower is_word line s).ids id
        (rw (h, add_heading, sym e) (add_slug-there (slug_of lower is_word label) s c))

  heading_loop-there :
      (prose : List (ℕ × Text)) (s : Ids) (number : ℕ) (line id : Text)
      → IsCounted s
      → Memᴰ (number, line) prose
      → IsNamed line id
      → contains id (heading_loop lower is_word prose s).ids ≡ true
  heading_loop-there [] s number line id c m named = absurd (Memᴰ.not-nil m)
  heading_loop-there ((n, first) ∷ prose) s number line id c m named = elim (Memᴰ.cases_cons m) [
    | inl here ↦
        heading_loop-keeps prose (add_line lower is_word first s) id
          (add_line-there first s id c (subst (λ l. IsNamed l id) (ap (λ p. p.1) here) named))
    | inr later ↦
        heading_loop-there prose (add_line lower is_word first s) number line id
          (add_line-IsCounted first s c) later named
  ]

-- Of a line that `prose_lines` yields for a document: what its attributes name is an identifier of the
-- document, and where it is a heading so is the slug of its label, however often the slug occurs.
pub heading_ids-IsNamed :
    (lower : Text → Text) (is_word : ℕ → Bool) (source : Text) (number : ℕ) (line id : Text)
    → Memᴰ (number, line) (prose_lines source)
    → IsNamed lower is_word line id
    → contains id (heading_ids lower is_word source) ≡ true
unfolding heading_ids
heading_ids-IsNamed lower is_word source number line id m named =
    heading_loop-there lower is_word (prose_lines source) (record { ids = []; counts = [] }) number
      line id (record { counted = λ slug n found. cc }) m named
