-- ===== src/Observability/Replay/Sequence.antt =====
-- replay_demo.py: the state by source sequence, under late arrivals.
use netai_devsecops_runbook.Prelude.{
  ltb, Bool-cases, All, Dict, lookup, ◌≤◌, String, ◌≡◌, refl, ◌≢◌, ◌⊎◌, inl, inr, Option, none,
  some, List, [], ◌∷◌, ◌++◌, string_key, if◌then◌else◌, ltb→lt, not_ltb→le, All-append, All-map,
  ◌==◌, lookup-insert, sym, subst, arith, append-nil, append_assoc,
}
use netai_devsecops_runbook.Observability.Validate.{Event}
use netai_devsecops_runbook.Observability.Replay.{record_latest, latest_rows}

-- the event is one of the rows
abbrev pub IsRow : Event → List Event → Type 0
IsRow e [] = ⊥
IsRow e (row ∷ rows) = (e ≡ row) ⊎ IsRow e rows

abbrev pub InRun : String → Event → Type 0
InRun run e = e.run_id ≡ run

-- `some e`: a row of the run that no row of the run passes in sequence; `none`: the run has no row
abbrev pub IsLatest : String → List Event → Option Event → Type 0
IsLatest run rows none = All (λ f. f.run_id ≢ run) rows
IsLatest run rows (some e) =
    InRun run e × IsRow e rows × All (λ f. InRun run f → f.sequence ≤ e.sequence) rows

IsRow-append : (e : Event) (rows more : List Event) → IsRow e rows → IsRow e (rows ++ more)
IsRow-append e [] more h = absurd h
IsRow-append e (row ∷ rows) more h = elim h [
  | inl here ↦ inl here
  | inr there ↦ inr (IsRow-append e rows more there)
]

IsRow-last : (e : Event) (rows : List Event) → IsRow e (rows ++ e ∷ [])
IsRow-last e [] = inl refl
IsRow-last e (row ∷ rows) = inr (IsRow-last e rows)

-- what one more row makes of the entry of a run
abbrev better : Event → Option Event → Event
better row none = row
better row (some previous) = if ltb previous.sequence row.sequence then row else previous

abbrev next_entry : String → Event → Option Event → Option Event
next_entry run row o = if row.run_id == run then some (better row o) else o

lookup-record_latest :
    (run : String) (row : Event) (states : Dict String Event)
    → lookup run (record_latest states row) ≡ next_entry run row (lookup run states)
unfolding record_latest
lookup-record_latest run row states =
    ground (arith, string_key.same_iff row.run_id run, lookup-insert row.run_id run row states)

module _ (run : String) (rows : List Event) (row : Event) where
  other_run :
      (o : Option Event)
      → row.run_id ≢ run
      → IsLatest run rows o
      → IsLatest run (rows ++ row ∷ []) o
  other_run none other h = All-append _ rows (row ∷ []) h (other, tt)
  other_run (some e) other h = (
    h.0,
    IsRow-append e rows (row ∷ []) h.1,
    All-append _ rows (row ∷ []) h.2 (λ same. absurd (other same), tt),
  )

  own_run :
      (o : Option Event)
      → row.run_id ≡ run
      → IsLatest run rows o
      → IsLatest run (rows ++ row ∷ []) (some (better row o))
  own_run none own h = (
    own,
    IsRow-last row rows,
    All-append _ rows (row ∷ []) (All-map (λ f other same. absurd (other same)) rows h)
        (λ same. omega arith, tt),
  )
  own_run (some e) own h = elim (Bool-cases (ltb e.sequence row.sequence)) [
    | inl newer ↦ rw newer (
      own,
      IsRow-last row rows,
      All-append _ rows (row ∷ [])
          (All-map (λ f bound same. omega (arith, bound same, ltb→lt _ _ newer)) rows h.2)
          (λ same. omega arith, tt),
    )
    | inr stale ↦ rw stale (
      h.0,
      IsRow-append e rows (row ∷ []) h.1,
      All-append _ rows (row ∷ []) h.2 (λ same. not_ltb→le _ _ stale, tt),
    )
  ]

  IsLatest-next :
      (o : Option Event)
      → IsLatest run rows o
      → IsLatest run (rows ++ row ∷ []) (next_entry run row o)
  IsLatest-next o h = elim (Bool-cases (row.run_id == run)) [
    | inl own ↦ rw own (own_run o ((string_key.same_iff row.run_id run).0 own) h)
    | inr other ↦ rw other (other_run o (λ e. ground (arith, string_key.same_iff row.run_id run)) h)
  ]

latest_rows_from :
    (run : String) (rows more : List Event) (states : Dict String Event)
    → IsLatest run rows (lookup run states)
    → IsLatest run (rows ++ more) (lookup run (latest_rows states more))
unfolding latest_rows
latest_rows_from run rows [] states h = rw append-nil h
latest_rows_from run rows (row ∷ more) states h =
    subst (λ l. IsLatest run l (lookup run (latest_rows states (row ∷ more))))
      (append_assoc rows (row ∷ []) more)
      (latest_rows_from run (rows ++ row ∷ []) more (record_latest states row) (
        subst (IsLatest run (rows ++ row ∷ [])) (sym (lookup-record_latest run row states))
          (IsLatest-next run rows row (lookup run states) h)))

-- In whatever order rows arrive, the state kept for a run is that of a row of the run which no row
-- of the run passes in sequence; a run has an entry exactly if it has a row.
pub latest_rows-IsLatest :
    (run : String) (rows : List Event) → IsLatest run rows (lookup run (latest_rows [] rows))
latest_rows-IsLatest run rows = latest_rows_from run [] rows [] tt
