-- ===== src/Observability/Replay/Gap.antt =====
-- replay_demo.py, `simulate`: the scenario whose source no longer has what the archive needs.
use netai_devsecops_runbook.Prelude.{
  length, length-append, add, ◌≤◌, ◌<◌, min, String, ◌≡◌, refl, sym, ap, ◌∙◌, Bool, false, Option,
  List, [], ◌∷◌, arith, ok, string_key,
}
use netai_devsecops_runbook.Observability.Replay.{
  replay, collect_ids, range_from, same_set, Report, report, simulate, retention_gap, Event, Row,
  validate,
}
use netai_devsecops_runbook.Observability.Replay.Outage.{replay-gap, length-doc_ids, range_from_pos}
use netai_devsecops_runbook.Observability.Validate.Identity.{validate-HasUniqueIds}

length-add : (id : String) (ids : List String) → length ids ≤ length (add id ids)
length-add id ids = ground (arith, length-append ids (id ∷ []))

collect_ids-le :
    (ids : List String) (rows : List Event) → length ids ≤ length (collect_ids ids rows)
collect_ids-le ids [] = omega arith
collect_ids-le ids (row ∷ rows) =
    omega (arith, length-add row.event_id ids, collect_ids-le (add row.event_id ids) rows)

-- rows have an identity
collect_ids_pos : (rows : List Event) → 0 < length rows → 0 < length (collect_ids [] rows)
collect_ids_pos [] h = absurd (omega arith)
collect_ids_pos (row ∷ rows) h = omega (arith, collect_ids-le (row.event_id ∷ []) rows)

same_set_nil : (ids : List String) → 0 < length ids → same_set ids [] ≡ false
same_set_nil [] h = absurd (omega arith)
same_set_nil (id ∷ ids) h = refl

-- what the report of a run with a gap says
pub record IsGap (rows : List Event) (r : Report) : Type 0 where
  pub status : r.status ≡ retention_gap
  pub source_records : r.source_records ≡ length rows
  pub archive_records : r.archive_records ≡ 0
  pub archive_next_offset : r.archive_next_offset ≡ 0
  pub archive_logical_events : r.archive_logical_events ≡ 0
  pub earliest : r.earliest_available_source_offset ≡ min 3 (length rows)
  pub missing_source_offsets : r.missing_source_offsets ≡ range_from 0 (min 3 (length rows))
  pub hot_documents : r.hot_documents ≡ r.logical_events
  pub logical_sink_sets_match : r.logical_sink_sets_match ≡ false

report-IsGap :
    (rows : List Event)
    → 0 < length rows
    → IsGap rows (report "retention-gap" rows (replay false rows))
unfolding report
report-IsGap rows positive =
    let (archive, missing, ids, earliest, source) = replay-gap rows positive in
    record {
      status = rw (missing, range_from_pos (min 3 (length rows)) (omega arith)) refl;
      source_records = ap length source;
      archive_records = rw archive refl;
      archive_next_offset = rw archive refl;
      archive_logical_events = rw archive refl;
      earliest = earliest;
      missing_source_offsets = missing;
      hot_documents = sym (length-doc_ids (replay false rows).pipeline.hot.docs) ∙ ap length ids;
      logical_sink_sets_match =
          rw (archive, ids, same_set_nil (collect_ids [] rows) (collect_ids_pos rows positive))
            refl;
    }

-- For rows that pass the validation, the retention-gap scenario returns a report: it says that
-- there is a gap, with the offsets below the smaller of three and the number of rows missing, which
-- are those before the earliest offset that the source still has; the archive is empty, the hot
-- store has one document for each identity, and the sinks do not match.
pub simulate-IsGap :
    (has_offset : String → Option Bool) (rows : List Row) (events : List Event)
    → validate has_offset rows ≡ ok events
    → (r : Report) × (simulate has_offset rows "retention-gap" ≡ ok r) × IsGap events r
unfolding simulate
simulate-IsGap has_offset rows events h =
    let positive = (validate-HasUniqueIds has_offset rows events h).0 in
    (report "retention-gap" events (replay false events), rw h refl, report-IsGap events positive)
