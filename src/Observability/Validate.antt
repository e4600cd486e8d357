-- ===== src/Observability/Validate.antt =====
-- kubernetes/observability/data-pipelines/examples/replay_demo.py, `validate`: rows as JSON gives
-- them, and the events that they must be.
pub mod Identity
use netai_devsecops_runbook.Prelude.{
  nat_beq, if◌then◌else◌, all, ℤ, ◌==◌, Dict, contains, lookup, insert, Result, ℕ, String, Bool,
  true, false, ◌&&◌, Option, none, some, List, [], ◌∷◌, pos, ok, err, string_key, ◌>>=◌,
}

-- a value of a row; `other` stands for null, truth values, floats, lists and objects
pub data Field : Type 0 where
  text : String → Field
  number : ℤ → Field
  other : Field

pub data Row : Type 0 where
  fields : Dict String Field → Row
  not_object : Row

pub record Event : Type 0 where
  pub event_id : String
  pub run_id : String
  pub sequence : ℕ
  pub state : String
  pub event_time : String
  pub bytes_completed : ℕ

-- one constructor for each `raise`, and for what `datetime.fromisoformat` raises
pub data DemoError : Type 0 where
  empty_corpus unexpected_fields invalid_text invalid_number bad_timestamp no_timezone : DemoError
  conflicting_identity unknown_scenario : DemoError

abbrev field_names : List String
field_names = "event_id" ∷ "run_id" ∷ "sequence" ∷ "state" ∷ "event_time" ∷ "bytes_completed" ∷ []

abbrev keys : Dict String Field → List String
keys [] = []
keys ((k, v) ∷ d) = k ∷ keys d

-- `set(row) == FIELDS`
has_fields : Dict String Field → Bool
has_fields d =
    all (λ k. contains k field_names) (keys d) && all (λ k. contains k (keys d)) field_names

-- `isinstance(row[field], str) and row[field]`; a key that is missing was refused before
as_text : Option Field → Result DemoError String
as_text (some (text s)) = if s == "" then err invalid_text else ok s
as_text _ = err invalid_text

-- `type(row[field]) is int and row[field] >= 0`
as_number : Option Field → Result DemoError ℕ
as_number (some (number (pos n))) = ok n
as_number _ = err invalid_number

-- `==` of two rows that have passed the checks
abbrev pub same_event : Event → Event → Bool
same_event a b =
    a.event_id == b.event_id
    && a.run_id == b.run_id
    && nat_beq a.sequence b.sequence
    && a.state == b.state
    && a.event_time == b.event_time
    && nat_beq a.bytes_completed b.bytes_completed

-- the last lines of the loop: `identities[identity] = row`, unless another row has the identity
unfoldable pub record_identity : Dict String Event → Event → Result DemoError (Dict String Event)
record_identity identities e = elim (lookup e.event_id identities) [
  | none ↦ ok (insert e.event_id e identities)
  | some old ↦
      if same_event old e then ok (insert e.event_id e identities) else err conflicting_identity
]

-- `datetime.fromisoformat` on the text with "+00:00" for "Z" is a parameter: `none` is its
-- ValueError, and the truth value says whether the stamp has an offset.
module _ (has_offset : String → Option Bool) where
  check_time : String → Result DemoError (Unit {0})
  check_time s = elim (has_offset s) [
    | none ↦ err bad_timestamp
    | some false ↦ err no_timezone
    | some true ↦ ok tt
  ]

  unfoldable pub as_event : Row → Result DemoError Event
  unfolding has_fields as_text as_number check_time
  as_event not_object = err unexpected_fields
  as_event (fields d) =
      if has_fields d
      then (do
        event_id ← as_text (lookup "event_id" d)
        run_id ← as_text (lookup "run_id" d)
        state ← as_text (lookup "state" d)
        event_time ← as_text (lookup "event_time" d)
        sequence ← as_number (lookup "sequence" d)
        bytes_completed ← as_number (lookup "bytes_completed" d)
        _ ← check_time event_time
        ok (record {
          event_id = event_id;
          run_id = run_id;
          sequence = sequence;
          state = state;
          event_time = event_time;
          bytes_completed = bytes_completed;
        }))
      else err unexpected_fields

  validate_rows : Dict String Event → List Row → Result DemoError (List Event)
  unfolding as_event record_identity
  validate_rows identities [] = ok []
  validate_rows identities (row ∷ rows) = do
    event ← as_event row
    identities' ← record_identity identities event
    events ← validate_rows identities' rows
    ok (event ∷ events)

  -- the rows that pass, as events
  unfoldable pub validate : List Row → Result DemoError (List Event)
  unfolding validate_rows
  validate [] = err empty_corpus
  validate (row ∷ rows) = validate_rows [] (row ∷ rows)
