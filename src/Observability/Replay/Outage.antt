-- ===== src/Observability/Replay/Outage.antt =====
-- replay_demo.py: the demonstration as a whole, with an outage and with a gap.
use netai_devsecops_runbook.Prelude.{
  leb, if◌then◌else◌, drop, ℕ, suc, ◌≡◌, refl, subst, Bool, true, false, ◌&&◌, List, [], ◌∷◌, ◌++◌,
  ltb, length, arith, append-nil, append_assoc, nat_beq, zero, ◌-◌, ◌<◌, min, all, Dict, ==_refl,
  contains, contains-append, String, sym, ap, ◌∙◌, Option, ok, string_key,
}
use netai_devsecops_runbook.Observability.Validate.{Event}
use netai_devsecops_runbook.Observability.Replay.{
  ArchiveStore, Pipeline, tick_once, ticks, drain_archive, start, pause_of, replay, doc_ids,
  collect_ids, range_from, same_set, Report, report, simulate, complete, Row, validate,
}
use netai_devsecops_runbook.Observability.Replay.Archive.{
  IsArchive, IsArchive-append, drain_archive-caught_up, IsArchive-caught_up, caught_up, indexed,
  second-indexed,
}
use netai_devsecops_runbook.Observability.Replay.Hot.{IsHot, drain_hot-IsHot, finish_hot-after}

-- the loop's invariant: the source so far, the hot store behind it, and the archive, which stays
-- empty where the scenario is no outage
record IsRunning (active : Bool) (source : List Event) (p : Pipeline) : Type 0 where
  same_source : p.source ≡ source
  hot : IsHot source p.hot
  archive : IsArchive source p.archive
  paused : active ≡ false → p.archive ≡ record { records = []; cursor = 0 }

IsArchive-tick :
    (b : Bool) (source : List Event) (a : ArchiveStore)
    → IsArchive source a
    → IsArchive source (if b then drain_archive a (drop a.cursor source) else a)
IsArchive-tick true source a h =
    rw (drain_archive-caught_up source a h) (IsArchive-caught_up source)
IsArchive-tick false source a h = h

tick_once-IsRunning :
    (active : Bool) (pause tick : ℕ) (source : List Event) (p : Pipeline) (row : Event)
    → IsRunning active source p
    → IsRunning active (source ++ row ∷ []) (tick_once active pause tick p row)
unfolding tick_once
tick_once-IsRunning active pause tick source p row h = rw h.same_source (record {
  same_source = refl;
  hot = drain_hot-IsHot source row p.hot h.hot;
  archive =
      IsArchive-tick (active && leb pause tick) (source ++ row ∷ []) p.archive
        (IsArchive-append source row p.archive h.archive);
  paused = λ off. rw off (h.paused off);
})

ticks-IsRunning :
    (active : Bool) (pause tick : ℕ) (source rows : List Event) (p : Pipeline)
    → IsRunning active source p
    → IsRunning active (source ++ rows) (ticks active pause tick p rows)
unfolding ticks
ticks-IsRunning active pause tick source [] p h = rw (append-nil source) h
ticks-IsRunning active pause tick source (row ∷ rows) p h =
    subst (λ l. IsRunning active l (ticks active pause tick p (row ∷ rows)))
      (append_assoc source (row ∷ []) rows)
      (ticks-IsRunning active pause (suc tick) (source ++ row ∷ []) rows
        (tick_once active pause tick p row) (tick_once-IsRunning active pause tick source p row h))

start-IsRunning : (active : Bool) → IsRunning active [] start
unfolding start
start-IsRunning active = record {
  same_source = refl;
  hot = record { ids = refl; cursor = refl; retried = refl };
  archive = record { in_order = refl; bounded = omega arith };
  paused = λ off. refl;
}

module _ (active : Bool) (rows : List Event) where
  pub looped : Pipeline
  looped = ticks active (pause_of rows) 0 start rows

  looped-IsRunning : IsRunning active rows looped
  unfolding looped
  looped-IsRunning = ticks-IsRunning active (pause_of rows) 0 [] rows start (start-IsRunning active)

no_gap : (n : ℕ) → range_from n (0 - n) ≡ []
no_gap n = let none_left : 0 - n ≡ 0 = omega arith in rw none_left

-- After an outage the archive holds every row at its offset and nothing is missing; the hot store
-- has a document for each identity, in order of first arrival, and it has rejected once if there
-- were more than three rows, and else never.
pub replay-outage :
    (rows : List Event)
    → ((replay true rows).pipeline.archive ≡ caught_up rows)
      × ((replay true rows).pipeline.source ≡ rows)
      × ((replay true rows).missing_offsets ≡ [])
      × (doc_ids (replay true rows).pipeline.hot.docs ≡ collect_ids [] rows)
      × ((replay true rows).pipeline.hot.retried ≡ ltb 3 (length rows))
unfolding replay looped
replay-outage rows =
    let h = looped-IsRunning true rows in
    let hot = finish_hot-after rows (looped true rows).hot h.hot in
    rw (h.same_source, no_gap)
      (drain_archive-caught_up rows (looped true rows).archive h.archive, refl, refl, hot.0, hot.1)

pub range_from_pos : (n : ℕ) → 0 < n → nat_beq (length (range_from 0 n)) 0 ≡ false
range_from_pos zero h = absurd (omega arith)
range_from_pos (suc n) h = ground arith

-- Without an outage the archive stays empty, and the offsets below the smaller of three and the
-- number of rows are missing; the hot store is as complete as after an outage.
pub replay-gap :
    (rows : List Event)
    → 0 < length rows
    → ((replay false rows).pipeline.archive ≡ record { records = []; cursor = 0 })
      × ((replay false rows).missing_offsets ≡ range_from 0 (min 3 (length rows)))
      × (doc_ids (replay false rows).pipeline.hot.docs ≡ collect_ids [] rows)
      × ((replay false rows).earliest_available_offset ≡ min 3 (length rows))
      × ((replay false rows).pipeline.source ≡ rows)
unfolding replay looped
replay-gap rows pos_length =
    let h = looped-IsRunning false rows in
    let hot = finish_hot-after rows (looped false rows).hot h.hot in
    let missing : nat_beq (length (range_from 0 (min 3 (length rows)))) 0 ≡ false =
      range_from_pos (min 3 (length rows)) (omega arith) in
    let offset : min 3 (length rows) - 0 ≡ min 3 (length rows) = omega arith in
    rw (h.same_source, h.paused refl, offset, missing) (refl, refl, hot.0, refl, refl)

all_contained : (before ids : List String) → all (λ x. contains x (before ++ ids)) ids ≡ true
all_contained before [] = refl
all_contained before (x ∷ ids) = ground (
  arith,
  contains-append x before (x ∷ ids),
  ==_refl x,
  subst (λ l. all (λ y. contains y l) ids ≡ true) (append_assoc before (x ∷ []) ids)
      (all_contained (before ++ x ∷ []) ids),
)

same_set_refl : (ids : List String) → same_set ids ids ≡ true
same_set_refl ids = rw (all_contained [] ids)

pub length-doc_ids : (d : Dict String Event) → length (doc_ids d) ≡ length d
length-doc_ids [] = refl
length-doc_ids ((k, v) ∷ d) = ap suc (length-doc_ids d)

length-indexed : (i : ℕ) (es : List Event) → length (indexed i es) ≡ length es
length-indexed i [] = refl
length-indexed i (e ∷ es) = ap suc (length-indexed (suc i) es)

-- what the report of a complete run says
pub record IsComplete (rows : List Event) (r : Report) : Type 0 where
  pub status : r.status ≡ complete
  pub archive_records : r.archive_records ≡ length rows
  pub archive_next_offset : r.archive_next_offset ≡ length rows
  pub missing_source_offsets : r.missing_source_offsets ≡ []
  pub hot_documents : r.hot_documents ≡ r.logical_events
  pub archive_logical_events : r.archive_logical_events ≡ r.logical_events
  pub logical_sink_sets_match : r.logical_sink_sets_match ≡ true

report-IsComplete : (rows : List Event) → IsComplete rows (report "outage" rows (replay true rows))
unfolding report
report-IsComplete rows =
    let (archive, source, missing, ids, retried) = replay-outage rows in
    record {
      status = rw missing;
      archive_records = rw archive (length-indexed 0 rows);
      archive_next_offset = rw archive;
      missing_source_offsets = missing;
      hot_documents = sym (length-doc_ids (replay true rows).pipeline.hot.docs) ∙ ap length ids;
      archive_logical_events = rw (archive, second-indexed);
      logical_sink_sets_match =
          rw (archive, second-indexed, ids) (rw (same_set_refl (collect_ids [] rows)));
    }

-- For rows that pass the validation, the outage scenario returns a report: it is complete, with one
-- archive record for each row and none missing, and both sinks and the source have the same
-- identities.
pub simulate-outage :
    (has_offset : String → Option Bool) (rows : List Row) (events : List Event)
    → validate has_offset rows ≡ ok events
    → (r : Report) × (simulate has_offset rows "outage" ≡ ok r) × IsComplete events r
unfolding simulate
simulate-outage has_offset rows events h =
    (report "outage" events (replay true events), rw h, report-IsComplete events)
