-- ===== src/Storage/Durability.antt =====
-- kubernetes/storage/data-systems-foundations/examples/io_durability_demo.py: write a temporary
-- file, flush and sync it, replace the final file by it, sync the directory, read back.
pub mod Writing
pub mod TempFile
pub mod Replacement
use netai_devsecops_runbook.Prelude.{
  ltb, if◌then◌else◌, length, take, drop, ℤ, Result, ℕ, zero, suc, ◌*◌, Bool, Option, none, some,
  List, [], ◌∷◌, pos, negsuc, ok, err, nat_beq, String, true, false, not, ◌||◌, ◌++◌, ◌>>=◌, ◌>>◌,
}

-- an `OSError` by its errno, and the errors that the code raises itself
pub data DemoError : Type 0 where
  os_error : ℕ → DemoError
  no_answer bad_answer no_progress too_many_bytes mismatch bad_size bad_parent : DemoError

-- what `stream.write` gives: a count, None, some other object, or an exception
pub data Answer : Type 0 where
  count_of : ℤ → Answer
  nothing other_object : Answer
  raised : ℕ → Answer

-- "status" of a directory fsync
pub data DirectoryStatus : Type 0 where
  succeeded unknown_not_tested : DirectoryStatus

-- The platform: the open temporary stream, the final name, and the directory. `temp_bytes` and
-- `final_bytes` are what the two files hold, and are read only by statements.
pub record Platform : Type 1 where
  pub State : Type 0
  pub open_temp : State → Result DemoError (Unit {0}) × State
  pub write : List ℕ → State → Answer × State
  pub flush_file : State → Result DemoError (Unit {0}) × State
  pub fsync_file : State → Result DemoError (Unit {0}) × State
  pub close_temp : State → Result DemoError (Unit {0}) × State
  pub replace_file : State → Result DemoError (Unit {0}) × State
  pub fsync_directory : State → Result DemoError DirectoryStatus × State
  pub read_final : State → Result DemoError (List ℕ) × State
  pub sha256 : List ℕ → List ℕ
  pub temp_bytes : State → List ℕ
  pub final_bytes : State → Option (List ℕ)

-- the dict that `verify` gives
pub record Verification : Type 0 where
  pub actual_bytes : ℕ
  pub expected_sha256 : List ℕ
  pub actual_sha256 : List ℕ
  pub hash_match : Bool

-- the dict that `write_replace_verify` gives, with the names of the phases
pub record Report : Type 0 where
  pub phases : List String
  pub verification : Verification
  pub directory_fsync : DirectoryStatus

abbrev pub bytes_eq : List ℕ → List ℕ → Bool
bytes_eq [] [] = true
bytes_eq [] (y ∷ ys) = false
bytes_eq (x ∷ xs) [] = false
bytes_eq (x ∷ xs) (y ∷ ys) = if nat_beq x y then bytes_eq xs ys else false

unfoldable pub chunk_size : ℕ
chunk_size = 1024 * 1024

-- the tests on what one call of `write` gave, in their order; a count that passes
check_answer : Answer → ℕ → Result DemoError ℕ
check_answer (raised errno) left = err (os_error errno)
check_answer nothing left = err no_answer
check_answer other_object left = err bad_answer
check_answer (count_of (negsuc n)) left = err no_progress
check_answer (count_of (pos zero)) left = err no_progress
check_answer (count_of (pos (suc n))) left =
    if ltb left (suc n) then err too_many_bytes else ok (suc n)

-- an action on the state of the platform, with the names in `phases`
abbrev pub Io : Type 0 → Type 0 → Type 0
Io S A = List String × S → Option (Result DemoError A × (List String × S))

module _ {S A : Type 0} where
  infixl 5 ◌then_io◌
  abbrev pub ◌then_io◌ : {B : Type 0} → Io S A → (A → Io S B) → Io S B
  (m then_io f) s = elim (m s) [
    | none ↦ none
    | some (err e, s') ↦ some (err e, s')
    | some (ok a, s') ↦ f a s'
  ]

  -- `_timed`, without the time: the name is noted if the action raises, too
  unfoldable pub timed : String → (S → Option (Result DemoError A × S)) → Io S A
  timed name action (phases, s) = elim (action s) [
    | none ↦ none
    | some (result, s') ↦ some (result, (phases ++ name ∷ [], s'))
  ]

module _ (platform : Platform) where
  open platform use {
    State, open_temp, write, flush_file, fsync_file, close_temp, replace_file, fsync_directory,
    read_final, sha256,
  }

  -- the loop of `_write_all` over `view[offset:]`; `none` means that the fuel ran out
  write_loop : ℕ → List ℕ → State → Option (Result DemoError (Unit {0}) × State)
  unfolding check_answer
  write_loop fuel [] s = some (ok tt, s)
  write_loop zero (b ∷ rest) s = none
  write_loop (suc fuel) (b ∷ rest) s =
      let (answer, s') = write (take chunk_size (b ∷ rest)) s in
      elim (check_answer answer (length (b ∷ rest))) [
        | err e ↦ some (err e, s')
        | ok written ↦ write_loop fuel (drop written (b ∷ rest)) s'
      ]

  unfoldable pub write_all : List ℕ → State → Option (Result DemoError (Unit {0}) × State)
  unfolding write_loop
  write_all bytes s = write_loop (length bytes) bytes s

  -- the stream is closed after the body, whether it raised or not
  unfoldable pub closed_after :
      {A : Type 0}
      → Option (Result DemoError A × (List String × State))
      → Option (Result DemoError A × (List String × State))
  closed_after none = none
  closed_after (some (result, (phases, s))) =
      let (closed, s') = close_temp s in some (closed >> result, (phases, s'))

  -- `with temp_path.open("wb") as stream: body`
  unfoldable pub with_temp : {A : Type 0} → Io State A → Io State A
  unfolding closed_after
  with_temp body (phases, s) =
      let (opened, s') = open_temp s in
      elim opened [ err e ↦ some (err e, (phases, s')) | ok _ ↦ closed_after (body (phases, s')) ]

  -- the body of the `with`
  unfoldable pub write_temp : List ℕ → Io State (Unit {0})
  unfolding write_all timed
  write_temp payload =
      timed "buffered_write" (write_all payload)
      then_io (λ _. timed "flush_python_buffer" (λ s. some (flush_file s)))
      then_io (λ _. timed "file_fsync" (λ s. some (fsync_file s)))

  -- the dict of `verify`, from the bytes read
  abbrev pub verification_of : List ℕ → List ℕ → Verification
  verification_of payload bytes = record {
    actual_bytes = length bytes;
    expected_sha256 = sha256 payload;
    actual_sha256 = sha256 bytes;
    hash_match = bytes_eq (sha256 bytes) (sha256 payload);
  }

  -- `verify`
  unfoldable pub verify : List ℕ → State → Option (Result DemoError Verification × State)
  verify payload s =
      let (bytes, s') = read_final s in
      some (bytes >>= λ read. ok (verification_of payload read), s')

  -- the test on what `verify` gave, and the result
  unfoldable pub report : List ℕ → DirectoryStatus → Verification → Io State Report
  report payload status v (phases, s) =
      if not v.hash_match || not (nat_beq v.actual_bytes (length payload))
      then some (err mismatch, (phases, s))
      else some
          (ok (record { phases = phases; verification = v; directory_fsync = status }), (phases, s))

  unfoldable pub replace_and_sync : Io State DirectoryStatus
  unfolding timed
  replace_and_sync =
      timed "same_directory_os_replace" (λ s. some (replace_file s))
      then_io (λ _. timed "directory_fsync" (λ s. some (fsync_directory s)))

  unfoldable pub read_and_report : List ℕ → DirectoryStatus → Io State Report
  unfolding timed verify report
  read_and_report payload status =
      timed "readback_checksum" (verify payload) then_io report payload status

  unfoldable pub replace_verify : List ℕ → Io State Report
  unfolding replace_and_sync read_and_report
  replace_verify payload = replace_and_sync then_io read_and_report payload

  unfoldable pub write_replace_verify :
      List ℕ → State → Option (Result DemoError Report × (List String × State))
  unfolding with_temp write_temp replace_verify
  write_replace_verify payload s =
      (with_temp (write_temp payload) then_io (λ _. replace_verify payload)) ([], s)
