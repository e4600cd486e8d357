-- ===== src/Observability/Validate/Identity.antt =====
-- replay_demo.py: the identities of rows that pass the validation.
use netai_devsecops_runbook.Prelude.{
  Option-cases, All, string_key, Dict, lookup, insert, String, ◌≡◌, inl, inr, true, some, List, [],
  ◌∷◌, arith, ok, Bool-cases, refl, ◌∙◌, Bool, Option, bind_ok, length, ◌==◌, lookup-insert, ◌<◌,
  All-map, ok_inj, suc, ap, subst,
}
use netai_devsecops_runbook.Observability.Validate.{
  Row, Event, same_event, record_identity, as_event, validate_rows, validate,
}

-- events that share an identity are equal
abbrev pub HasUniqueIds : List Event → Type 0
HasUniqueIds [] = Unit
HasUniqueIds (e ∷ es) = All (λ f. e.event_id ≡ f.event_id → e ≡ f) es × HasUniqueIds es

-- the identities that are known agree with the events
abbrev Agrees : Dict String Event → Event → Type 0
Agrees identities f = (v : Event) → lookup f.event_id identities ≡ some v → v ≡ f

same_event→eq : (a b : Event) → same_event a b ≡ true → a ≡ b
same_event→eq a b h = ground (
  arith,
  string_key.same_iff a.event_id b.event_id,
  string_key.same_iff a.run_id b.run_id,
  string_key.same_iff a.state b.state,
  string_key.same_iff a.event_time b.event_time,
)

-- what a row that passes adds to the identities, and why it agreed with them
record_identity_ok :
    (identities identities' : Dict String Event) (e : Event)
    → record_identity identities e ≡ ok identities'
    → Agrees identities e × (identities' ≡ insert e.event_id e identities)
unfolding record_identity
record_identity_ok identities identities' e h = elim (Option-cases (lookup e.event_id identities)) [
  | inl new ↦ (λ v found. cc, ground arith)
  | inr (old, known) ↦ elim (Bool-cases (same_event old e)) [
    | inl same ↦ (λ v found. cc (same_event→eq old e same), ground arith)
    | inr different ↦ absurd (ground arith)
  ]
]

module _ (identities : Dict String Event) (e f : Event) where
  -- what agrees with the identities that `e` joined agrees with `e`, and with those before
  Agrees-insert :
      Agrees identities e
      → Agrees (insert e.event_id e identities) f
      → Agrees identities f × (e.event_id ≡ f.event_id → e ≡ f)
  Agrees-insert before after = (
    λ v found. elim (Bool-cases (e.event_id == f.event_id)) [
      | inl same ↦
          let ids : e.event_id ≡ f.event_id = (string_key.same_iff _ _).0 same in
          before v (rw ids found) ∙ joined ids
      | inr other ↦ after v (rw (lookup-insert e.event_id f.event_id e identities, other) found)
    ],
    joined,
  )
    where
      joined : e.event_id ≡ f.event_id → e ≡ f
      joined ids = after e (
          lookup-insert e.event_id f.event_id e identities
          ∙ rw ((string_key.same_iff e.event_id f.event_id).1 ids))

module _ (has_offset : String → Option Bool) where
  record Sound (identities : Dict String Event) (rows : List Row) (events : List Event)
      : Type 0 where
    agree : All (Agrees identities) events
    unique : HasUniqueIds events
    all_rows : length events ≡ length rows

  Sound-cons :
      (identities identities' : Dict String Event) (e : Event) (row : Row) (rows : List Row)
      (es : List Event)
      → record_identity identities e ≡ ok identities'
      → Sound identities' rows es
      → Sound identities (row ∷ rows) (e ∷ es)
  Sound-cons identities identities' e row rows es recorded sound =
      let (agrees, grown) = record_identity_ok identities identities' e recorded in
      let later : All (Agrees (insert e.event_id e identities)) es =
        subst (λ d. All (Agrees d) es) grown sound.agree in
      let both = All-map (λ f. Agrees-insert identities e f agrees) es later in
      record {
        agree = (agrees, All-map (λ f p. p.0) es both);
        unique = (All-map (λ f p. p.1) es both, sound.unique);
        all_rows = ap suc sound.all_rows;
      }

  validate_rows-Sound :
      (identities : Dict String Event) (rows : List Row) (events : List Event)
      → validate_rows has_offset identities rows ≡ ok events
      → Sound identities rows events
  unfolding validate_rows
  validate_rows-Sound identities [] events h =
      subst (Sound identities []) (ok_inj h) (record { agree = tt; unique = tt; all_rows = refl })
  validate_rows-Sound identities (row ∷ rows) events h =
      let (e, passed, h1) = bind_ok (as_event has_offset row) _ h in
      let (identities', recorded, h2) = bind_ok (record_identity identities e) _ h1 in
      let (es, checked, h3) = bind_ok (validate_rows has_offset identities' rows) _ h2 in
      subst (Sound identities (row ∷ rows)) (ok_inj h3) (
        Sound-cons identities identities' e row rows es recorded
          (validate_rows-Sound identities' rows es checked))

  -- When `validate` passes, the corpus is not empty, there is one event for each row, and events
  -- with one identity are equal.
  pub validate-HasUniqueIds :
      (rows : List Row) (events : List Event)
      → validate has_offset rows ≡ ok events
      → (0 < length events) × (length events ≡ length rows) × HasUniqueIds events
  unfolding validate
  validate-HasUniqueIds [] events h = absurd (ground arith)
  validate-HasUniqueIds (row ∷ rows) events h =
      let sound = validate_rows-Sound [] (row ∷ rows) events h in
      (omega (arith, sound.all_rows), sound.all_rows, sound.unique)
