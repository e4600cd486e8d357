-- ===== src/Storage/Durability/Writing.antt =====
-- Writing a whole payload through a stream that may write less than it is given.
use netai_devsecops_runbook.Prelude.{
  length, take, Result, ℕ, zero, suc, ◌≤◌, ◌<◌, ◌≡◌, Option, some, List, [], ◌∷◌, ◌++◌, arith, pos,
  ok, err, ltb, Bool-cases, drop, length-drop, take-append-drop, Result-cases, refl, sym, ap, ◌∙◌,
  inl, inr, append-nil, append_assoc, negsuc, if◌then◌else◌, not_ltb→le,
}
use netai_devsecops_runbook.Storage.Durability.{
  DemoError, nothing, other_object, raised, Answer, count_of, Platform, chunk_size, check_answer,
  write_loop, write_all, raised, too_many_bytes,
}

-- what holds where a run ends, with a result or with an exception; a run that is out of fuel does
-- not end
pub data Ends {A S : Type 0} (Good : A → S → Type 0) (Bad : S → Type 0)
    : Option (Result DemoError A × S) → Type 0 where
  returned : {a : A} {s : S} → Good a s → Ends Good Bad (some (ok a, s))
  raised_error : {e : DemoError} {s : S} → Bad s → Ends Good Bad (some (err e, s))

-- What a raw binary stream promises: some first part of the chunk is appended, and a count that is
-- returned is the length of that part.
pub record IsStream (platform : Platform) : Type 0 where
  pub appends :
      (chunk : List ℕ) (s : platform.State)
      → (k : ℕ) × (platform.temp_bytes (platform.write chunk s).1
          ≡ platform.temp_bytes s ++ take k chunk)
        × ((n : ℕ) → (platform.write chunk s).0 ≡ count_of (pos n) → (n ≡ k) × (n ≤ length chunk))
  pub final_kept :
      (chunk : List ℕ) (s : platform.State)
      → platform.final_bytes (platform.write chunk s).1 ≡ platform.final_bytes s

passed_test :
    (k left n : ℕ)
    → ◌≡◌ {A = Result DemoError ℕ} (if ltb left k then err too_many_bytes else ok k) (ok n)
    → (k ≡ n) × (k ≤ left)
passed_test k left n h = elim (Bool-cases (ltb left k)) [
  | inl over ↦ absurd (ground arith)
  | inr fits ↦ (ground arith, not_ltb→le left k fits)
]

check_answer_ok :
    (answer : Answer) (left n : ℕ)
    → check_answer answer left ≡ ok n
    → (answer ≡ count_of (pos n)) × (0 < n) × (n ≤ left)
unfolding check_answer
check_answer_ok (raised errno) left n h = cc
check_answer_ok nothing left n h = cc
check_answer_ok other_object left n h = cc
check_answer_ok (count_of (negsuc m)) left n h = cc
check_answer_ok (count_of (pos zero)) left n h = cc
check_answer_ok (count_of (pos (suc m))) left n h =
    let (k≡n, fits) = passed_test (suc m) left n h in
    (ap (λ i. count_of (pos i)) k≡n, omega (arith, k≡n), omega (arith, k≡n, fits))

take-take : (n c : ℕ) (xs : List ℕ) → n ≤ length (take c xs) → take n (take c xs) ≡ take n xs
take-take zero c xs h = refl
take-take (suc n) zero xs h = absurd (omega arith)
take-take (suc n) (suc c) [] h = refl
take-take (suc n) (suc c) (x ∷ xs) h = ap (◌∷◌ x) (take-take n c xs (omega arith))

pub Ends-map :
    {A S : Type 0} {G G' : A → S → Type 0} {B B' : S → Type 0} {o : Option (Result DemoError A × S)}
    → ((a : A) (s : S) → G a s → G' a s)
    → ((s : S) → B s → B' s)
    → Ends G B o
    → Ends G' B' o
Ends-map g b (returned h) = returned (g _ _ h)
Ends-map g b (raised_error h) = raised_error (b _ h)

module _ (platform : Platform) (stream : IsStream platform) where
  open platform use {State, write, temp_bytes, final_bytes}

  -- all of `rest` is appended, or there is an error; the final file is as it was
  abbrev Appended : List ℕ → State → (Unit {0}) → State → Type 0
  Appended rest s _ s' = (temp_bytes s' ≡ temp_bytes s ++ rest) × (final_bytes s' ≡ final_bytes s)

  -- the bytes of one call, and those that the loop has left
  Appended-step :
      (n : ℕ) (rest : List ℕ) (s s' : State) (u : Unit {0})
      → (write (take chunk_size rest) s).0 ≡ count_of (pos n)
      → Appended (drop n rest) (write (take chunk_size rest) s).1 u s'
      → Appended rest s u s'
  Appended-step n rest s s' u answered (temp, final) =
      let (k, appended, counted) = stream.appends (take chunk_size rest) s in
      let (n≡k, n≤length) = counted n answered in
      (
        rw
            (
              temp,
              appended,
              append_assoc (temp_bytes s) (take k (take chunk_size rest)) (drop n rest),
              sym n≡k,
              take-take n chunk_size rest n≤length,
              take-append-drop n rest,
            )
            refl,
        final ∙ stream.final_kept (take chunk_size rest) s,
      )

  write_loop_lem :
      (fuel : ℕ) (rest : List ℕ) (s : State)
      → length rest ≤ fuel
      → Ends
          (Appended rest s)
          (λ s'. final_bytes s' ≡ final_bytes s)
          (write_loop platform fuel rest s)
  unfolding write_loop
  write_loop_lem fuel [] s h = returned (sym (append-nil _), refl)
  write_loop_lem zero (b ∷ rest) s h = absurd (omega arith)
  write_loop_lem (suc fuel) (b ∷ rest) s h =
      let (answer, s1) = write (take chunk_size (b ∷ rest)) s in
      elim (Result-cases (check_answer answer (length (b ∷ rest)))) [
        | inl (written, passed) ↦
            let (counted, progress, _) =
              check_answer_ok answer (length (b ∷ rest)) written passed in
            rw (passed, write_loop)
              (Ends-map (λ u s'. Appended-step written (b ∷ rest) s s' u counted)
                (λ s' kept. kept ∙ stream.final_kept _ s)
                (write_loop_lem fuel (drop written (b ∷ rest)) s1
                  (omega (arith, length-drop written (b ∷ rest)))))
        | inr (e, failed) ↦ rw (failed, write_loop) (raised_error (stream.final_kept _ s))
      ]

  -- the payload is written within the fuel, or an error ends the writing
  pub write_all_lem :
      (bytes : List ℕ) (s : State)
      → Ends (Appended bytes s) (λ s'. final_bytes s' ≡ final_bytes s) (write_all platform bytes s)
  unfolding write_all
  write_all_lem bytes s = write_loop_lem (length bytes) bytes s (omega arith)
