-- ===== src/Observability/Replay.antt =====
-- kubernetes/observability/data-pipelines/examples/replay_demo.py, `simulate`: one source, a hot
-- store that rejects once, and an archive that pauses. Events are immutable here, so a deep copy is
-- the event.
pub mod Archive
pub mod Gap
pub mod Hot
pub mod Outage
pub mod Sequence
use netai_devsecops_runbook.Prelude.{
  ltb, leb, nat_beq, if◌then◌else◌, length, drop, all, ◌==◌, Dict, contains, add, lookup, insert,
  Result, ℕ, zero, suc, ◌+◌, ◌-◌, ◌/◌, min, max, String, Bool, true, false, not, ◌&&◌, Option, none,
  some, List, [], ◌∷◌, ◌++◌, ok, err, string_key, ◌>>=◌, ◌>>◌,
}
use netai_devsecops_runbook.Observability.Validate.{
  Event, Row, DemoError, unknown_scenario, validate,
}

pub record HotStore : Type 0 where
  pub docs : Dict String Event
  pub cursor : ℕ
  pub retried : Bool

pub record ArchiveStore : Type 0 where
  pub records : List (ℕ × Event)
  pub cursor : ℕ

-- the variables of the loop over the rows
pub record Pipeline : Type 0 where
  pub source : List Event
  pub hot : HotStore
  pub archive : ArchiveStore
  pub hot_during_archive_pause : ℕ

unfoldable pub start : Pipeline
start = record {
  source = [];
  hot = record { docs = []; cursor = 0; retried = false };
  archive = record { records = []; cursor = 0 };
  hot_during_archive_pause = 0;
}

pub index_event : HotStore → Event → HotStore
index_event hot event = record hot {
  docs = insert event.event_id event hot.docs;
  cursor = hot.cursor + 1;
}

-- the inner `while` over `source[hot_cursor:]`, with its one synthetic rejection
pub drain_hot : HotStore → List Event → HotStore
unfolding index_event
drain_hot hot [] = hot
drain_hot hot (event ∷ rest) =
    if nat_beq hot.cursor 3 && not hot.retried
    then record hot { retried = true }
    else drain_hot (index_event hot event) rest

-- the `while` after the loop
pub finish_hot : HotStore → List Event → HotStore
unfolding index_event
finish_hot hot [] = hot
finish_hot hot (event ∷ rest) = finish_hot (index_event hot event) rest

-- the `while` over `source[archive_cursor:]`
pub drain_archive : ArchiveStore → List Event → ArchiveStore
drain_archive archive [] = archive
drain_archive archive (event ∷ rest) =
    drain_archive
      (record {
        records = archive.records ++ (archive.cursor, event) ∷ [];
        cursor = archive.cursor + 1;
      })
      rest

-- the body of the `for`; `active` says that the scenario is the outage
pub tick_once : Bool → ℕ → ℕ → Pipeline → Event → Pipeline
unfolding drain_hot drain_archive
tick_once active pause_until tick p row =
    let source = p.source ++ row ∷ [] in
    let hot = drain_hot p.hot (drop p.hot.cursor source) in
    record {
      source = source;
      hot = hot;
      archive =
          if active && leb pause_until tick
          then drain_archive p.archive (drop p.archive.cursor source)
          else p.archive;
      hot_during_archive_pause =
          if ltb tick pause_until then length hot.docs else p.hot_during_archive_pause;
    }

pub ticks : Bool → ℕ → ℕ → Pipeline → List Event → Pipeline
unfolding tick_once
ticks active pause_until tick p [] = p
ticks active pause_until tick p (row ∷ rows) =
    ticks active pause_until (suc tick) (tick_once active pause_until tick p row) rows

-- `list(range(first, first + count))`
abbrev pub range_from : ℕ → ℕ → List ℕ
range_from first zero = []
range_from first (suc n) = first ∷ range_from (suc first) n

pub record Outcome : Type 0 where
  pub pipeline : Pipeline
  pub earliest_available_offset : ℕ
  pub missing_offsets : List ℕ

-- `max(1, len(rows) // 2)`
pub pause_of : List Event → ℕ
pause_of rows = max 1 (length rows / 2)

pub after_loop : Bool → Pipeline → Outcome
unfolding finish_hot drain_archive
after_loop active p =
    let hot = finish_hot p.hot (drop p.hot.cursor p.source) in
    let earliest = if active then 0 else min 3 (length p.source) in
    let missing = range_from p.archive.cursor (earliest - p.archive.cursor) in
    record {
      pipeline = record p {
        hot = hot;
        archive =
            if nat_beq (length missing) 0
            then drain_archive p.archive (drop p.archive.cursor p.source)
            else p.archive;
      };
      earliest_available_offset = earliest;
      missing_offsets = missing;
    }

-- the part of `simulate` that moves events
unfoldable pub replay : Bool → List Event → Outcome
unfolding start ticks after_loop pause_of
replay active rows = after_loop active (ticks active (pause_of rows) 0 start rows)

-- `{row["event_id"] for row in rows}`, in order of first occurrence
abbrev pub collect_ids : List String → List Event → List String
collect_ids ids [] = ids
collect_ids ids (row ∷ rows) = collect_ids (add row.event_id ids) rows

abbrev pub second : List (ℕ × Event) → List Event
second [] = []
second ((offset, event) ∷ records) = event ∷ second records

abbrev pub doc_ids : Dict String Event → List String
doc_ids [] = []
doc_ids ((id, event) ∷ docs) = id ∷ doc_ids docs

-- `==` of two sets
abbrev pub same_set : List String → List String → Bool
same_set a b = all (λ x. contains x b) a && all (λ x. contains x a) b

-- `previous is None or row["sequence"] > previous["sequence"]`
pub record_latest : Dict String Event → Event → Dict String Event
record_latest states row = elim (lookup row.run_id states) [
  | none ↦ insert row.run_id row states
  | some previous ↦
      if ltb previous.sequence row.sequence then insert row.run_id row states else states
]

-- `sequence_state` after the rows
unfoldable pub latest_rows : Dict String Event → List Event → Dict String Event
unfolding record_latest
latest_rows states [] = states
latest_rows states (row ∷ rows) = latest_rows (record_latest states row) rows

-- `arrival_state` after the rows
unfoldable pub arrivals : Dict String String → List Event → Dict String String
arrivals states [] = states
arrivals states (row ∷ rows) = arrivals (insert row.run_id row.state states) rows

pub data Status : Type 0 where
  complete retention_gap : Status

-- the result, less its constant field `simulation`
pub record Report : Type 0 where
  pub status : Status
  pub scenario : String
  pub source_records : ℕ
  pub logical_events : ℕ
  pub duplicate_source_records : ℕ
  pub hot_documents : ℕ
  pub archive_records : ℕ
  pub archive_logical_events : ℕ
  pub hot_visible_during_archive_pause : ℕ
  pub hot_retry_was_simulated : Bool
  pub archive_next_offset : ℕ
  pub earliest_available_source_offset : ℕ
  pub missing_source_offsets : List ℕ
  pub logical_sink_sets_match : Bool
  pub naive_arrival_state : Dict String String
  pub source_sequence_state : Dict String String

-- `{key: row["state"] for key, row in sequence_state.items()}`
unfoldable pub states_of : Dict String Event → Dict String String
states_of [] = []
states_of ((run, row) ∷ states) = (run, row.state) ∷ states_of states

unfoldable pub report : String → List Event → Outcome → Report
unfolding latest_rows arrivals states_of
report scenario rows o =
    let source_ids = collect_ids [] rows in
    let archive_ids = collect_ids [] (second o.pipeline.archive.records) in
    let hot_ids = doc_ids o.pipeline.hot.docs in
    record {
      status = if nat_beq (length o.missing_offsets) 0 then complete else retention_gap;
      scenario = scenario;
      source_records = length o.pipeline.source;
      logical_events = length source_ids;
      duplicate_source_records = length o.pipeline.source - length source_ids;
      hot_documents = length o.pipeline.hot.docs;
      archive_records = length o.pipeline.archive.records;
      archive_logical_events = length archive_ids;
      hot_visible_during_archive_pause = o.pipeline.hot_during_archive_pause;
      hot_retry_was_simulated = o.pipeline.hot.retried;
      archive_next_offset = o.pipeline.archive.cursor;
      earliest_available_source_offset = o.earliest_available_offset;
      missing_source_offsets = o.missing_offsets;
      logical_sink_sets_match = same_set hot_ids archive_ids && same_set archive_ids source_ids;
      naive_arrival_state = arrivals [] rows;
      source_sequence_state = states_of (latest_rows [] rows);
    }

-- the rest of `simulate`, for rows that passed
pub run_scenario : List Event → String → Result DemoError Report
unfolding replay report
run_scenario events scenario =
    if scenario == "outage"
    then ok (report scenario events (replay true events))
    else if scenario == "retention-gap"
    then ok (report scenario events (replay false events))
    else err unknown_scenario

unfoldable pub simulate : (String → Option Bool) → List Row → String → Result DemoError Report
unfolding validate run_scenario
simulate has_offset rows scenario = do
  events ← validate has_offset rows
  run_scenario events scenario
