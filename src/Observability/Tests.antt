-- ===== src/Observability/Tests.antt =====
-- The replay demonstration on a small corpus.
use netai_devsecops_runbook.Prelude.{
  length, lookup, ℕ, ◌<◌, String, ◌≡◌, refl, Bool, true, Option, some, List, [], ◌∷◌, pos, ok, err,
  string_key,
}
use netai_devsecops_runbook.Observability.Validate.{
  text, number, Row, fields, Event, validate, conflicting_identity,
}
use netai_devsecops_runbook.Observability.Validate.Identity.{HasUniqueIds, validate-HasUniqueIds}
use netai_devsecops_runbook.Observability.Replay.{Report, simulate, latest_rows}
use netai_devsecops_runbook.Observability.Replay.Outage.{IsComplete, simulate-outage}
use netai_devsecops_runbook.Observability.Replay.Gap.{IsGap, simulate-IsGap}
use netai_devsecops_runbook.Observability.Replay.Sequence.{IsLatest, latest_rows-IsLatest}

abbrev row : String → ℕ → String → Row
row id sequence state = fields (
    ("event_id", text id)
    ∷ ("run_id", text "r1")
    ∷ ("sequence", number (pos sequence))
    ∷ ("state", text state)
    ∷ ("event_time", text "2026-09-15T00:00:00Z")
    ∷ ("bytes_completed", number (pos 0))
    ∷ [])

abbrev event : String → ℕ → String → Event
event id sequence state = record {
  event_id = id;
  run_id = "r1";
  sequence = sequence;
  state = state;
  event_time = "2026-09-15T00:00:00Z";
  bytes_completed = 0;
}

-- every stamp is read, and has an offset
abbrev always_offset : String → Option Bool
always_offset s = some true

abbrev corpus : List Row
corpus = row "e1" 1 "queued" ∷ row "e2" 3 "done" ∷ row "e3" 2 "running" ∷ row "e2" 3 "done" ∷ []

abbrev events : List Event
events =
    event "e1" 1 "queued" ∷ event "e2" 3 "done" ∷ event "e3" 2 "running" ∷ event "e2" 3 "done" ∷ []

corpus_passes : validate always_offset corpus ≡ ok events
unfolding validate
corpus_passes = refl

conflict :
    validate always_offset (row "e1" 1 "queued" ∷ row "e1" 2 "queued" ∷ [])
    ≡ err conflicting_identity
unfolding validate
conflict = refl

validate-HasUniqueIds_example :
    (0 < length events) × (length events ≡ length corpus) × HasUniqueIds events
validate-HasUniqueIds_example = validate-HasUniqueIds always_offset corpus events corpus_passes

simulate-outage_example :
    (r : Report) × (simulate always_offset corpus "outage" ≡ ok r) × IsComplete events r
simulate-outage_example = simulate-outage always_offset corpus events corpus_passes

simulate-IsGap_example :
    (r : Report) × (simulate always_offset corpus "retention-gap" ≡ ok r) × IsGap events r
simulate-IsGap_example = simulate-IsGap always_offset corpus events corpus_passes

latest_rows-IsLatest_example : IsLatest "r1" events (lookup "r1" (latest_rows [] events))
latest_rows-IsLatest_example = latest_rows-IsLatest "r1" events

events_latest : lookup "r1" (latest_rows [] events) ≡ some (event "e2" 3 "done")
unfolding latest_rows
events_latest = refl
