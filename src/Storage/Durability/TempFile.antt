-- ===== src/Storage/Durability/TempFile.antt =====
-- What the platform promises, and what the temporary file holds when its `with` block ends.
use netai_devsecops_runbook.Prelude.{
  ℕ, String, ◌≡◌, some, List, [], ok, err, Result, refl, Option, ◌∷◌, ◌++◌, ap, ◌∙◌, nat_beq_iff,
  ◌>>◌, inl, inr, true, Result-cases,
}
use netai_devsecops_runbook.Storage.Durability.{
  Io, bytes_eq, closed_after, DemoError, Platform, timed, write_temp, write_all, ◌then_io◌, Io,
  with_temp,
}
use netai_devsecops_runbook.Storage.Durability.Writing.{
  Ends, Ends-map, IsStream, write_all_lem, returned, raised_error,
}

-- What the code relies on: a temporary file that opens is empty, flushing and syncing change no
-- bytes, the final name changes by the replacement alone, which puts the temporary file's bytes
-- there or raises and changes nothing, and a file that is read gives its bytes.
pub record IsPlatform (platform : Platform) : Type 0 where
  pub stream : IsStream platform
  pub opened :
      (s : platform.State)
      → (platform.open_temp s).0 ≡ ok tt
      → platform.temp_bytes (platform.open_temp s).1 ≡ []
  pub open_keeps :
      (s : platform.State) → platform.final_bytes (platform.open_temp s).1 ≡ platform.final_bytes s
  pub flush_keeps :
      (s : platform.State)
      → (platform.temp_bytes (platform.flush_file s).1 ≡ platform.temp_bytes s)
        × (platform.final_bytes (platform.flush_file s).1 ≡ platform.final_bytes s)
  pub fsync_keeps :
      (s : platform.State)
      → (platform.temp_bytes (platform.fsync_file s).1 ≡ platform.temp_bytes s)
        × (platform.final_bytes (platform.fsync_file s).1 ≡ platform.final_bytes s)
  pub close_keeps :
      (s : platform.State)
      → (platform.temp_bytes (platform.close_temp s).1 ≡ platform.temp_bytes s)
        × (platform.final_bytes (platform.close_temp s).1 ≡ platform.final_bytes s)
  pub replaced :
      (s : platform.State)
      → (platform.replace_file s).0 ≡ ok tt
      → platform.final_bytes (platform.replace_file s).1 ≡ some (platform.temp_bytes s)
  pub replace_failed :
      (s : platform.State) (e : DemoError)
      → (platform.replace_file s).0 ≡ err e
      → platform.final_bytes (platform.replace_file s).1 ≡ platform.final_bytes s
  pub directory_keeps :
      (s : platform.State)
      → platform.final_bytes (platform.fsync_directory s).1 ≡ platform.final_bytes s
  pub read_keeps :
      (s : platform.State) → platform.final_bytes (platform.read_final s).1 ≡ platform.final_bytes s
  pub read_gives :
      (s : platform.State) (bytes : List ℕ)
      → (platform.read_final s).0 ≡ ok bytes
      → platform.final_bytes s ≡ some bytes

pub some_inj : {A : Type 0} {a b : A} → some a ≡ some b → a ≡ b
some_inj h = cc

pub bytes_eq_refl : (xs : List ℕ) → bytes_eq xs xs ≡ true
bytes_eq_refl [] = refl
bytes_eq_refl (x ∷ xs) = rw ((nat_beq_iff x x).1 refl) (bytes_eq_refl xs)

-- a step and what follows it
pub Ends-then :
    {S A B : Type 0} {G : A → List String × S → Type 0} {G' : B → List String × S → Type 0}
    {Bad : List String × S → Type 0} {o : Option (Result DemoError A × (List String × S))}
    (m : Io S A) (f : A → Io S B) (s : List String × S)
    → Ends G Bad o
    → m s ≡ o
    → ((a : A) (s' : List String × S) → G a s' → Ends G' Bad (f a s'))
    → Ends G' Bad ((m then_io f) s)
Ends-then m f s (returned h) e k = rw (e, ◌then_io◌) (k _ _ h)
Ends-then m f s (raised_error h) e k = rw (e, ◌then_io◌) (raised_error h)

pub Ends-timed :
    {S A : Type 0} {G : A → S → Type 0} {Bad : S → Type 0} (name : String)
    (action : S → Option (Result DemoError A × S)) (phases : List String) (s : S)
    {o : Option (Result DemoError A × S)}
    → Ends G Bad o
    → action s ≡ o
    → Ends
        (λ a s'. (s'.0 ≡ phases ++ name ∷ []) × G a s'.1)
        (λ s'. Bad s'.1)
        (timed name action (phases, s))
unfolding timed
Ends-timed name action phases s (returned h) e = rw (e, timed) (returned (refl, h))
Ends-timed name action phases s (raised_error h) e = rw (e, timed) (raised_error h)

-- the end of a step that cannot run out of fuel
pub Ends-step :
    {S A : Type 0} {G : A → S → Type 0} {Bad : S → Type 0} (r : Result DemoError A × S)
    → ((a : A) → r.0 ≡ ok a → G a r.1)
    → ((e : DemoError) → r.0 ≡ err e → Bad r.1)
    → Ends G Bad (some r)
Ends-step (ok a, s) g b = returned (g a refl)
Ends-step (err e, s) g b = raised_error (b e refl)

unfoldable pub written_names : List String
written_names = "buffered_write" ∷ "flush_python_buffer" ∷ "file_fsync" ∷ []

module _ (platform : Platform) (laws : IsPlatform platform) where
  open platform use {State, temp_bytes, final_bytes, sha256}

  -- the temporary file holds the payload, and the final name what it held before
  unfoldable pub Written :
      List ℕ → Option (List ℕ) → List String → Unit {0} → List String × State → Type 0
  Written payload before names _ s =
      (s.0 ≡ names) × (temp_bytes s.1 ≡ payload) × (final_bytes s.1 ≡ before)

  unfoldable pub Kept : Option (List ℕ) → List String × State → Type 0
  Kept before s = final_bytes s.1 ≡ before

  -- a step that changes no bytes
  step_keeps :
      (name : String) (step : State → Result DemoError (Unit {0}) × State)
      → ((s : State)
          → (temp_bytes (step s).1 ≡ temp_bytes s) × (final_bytes (step s).1 ≡ final_bytes s))
      → (payload : List ℕ) (before : Option (List ℕ)) (names : List String) (u : Unit {0})
        (s : List String × State)
      → Written payload before names u s
      → Ends
          (Written payload before (names ++ name ∷ []))
          (Kept before)
          (timed name (λ s'. some (step s')) s)
  unfolding Written Kept
  step_keeps name step keeps payload before names u (phases, s) (named, temp, final) =
      Ends-map (λ a s' h. (h.0 ∙ ap (λ l. l ++ name ∷ []) named, h.1.0 ∙ temp, h.1.1 ∙ final))
        (λ s' h. h ∙ final)
        (Ends-timed {G = λ _ s'. (temp_bytes s' ≡ temp_bytes s) × (final_bytes s' ≡ final_bytes s)}
          {Bad = λ s'. final_bytes s' ≡ final_bytes s} name _ phases s
          (Ends-step (step s) (λ a e. keeps s) (λ a e. (keeps s).1)) refl)

  first_write :
      (payload : List ℕ) (s : State)
      → temp_bytes s ≡ []
      → Ends
          (Written payload (final_bytes s) ("buffered_write" ∷ []))
          (Kept (final_bytes s))
          (timed "buffered_write" (write_all platform payload) ([], s))
  unfolding Written Kept
  first_write payload s empty =
      Ends-map (λ a s' h. (h.0, h.1.0 ∙ ap (λ l. l ++ payload) empty, h.1.1)) (λ s' h. h)
        (Ends-timed "buffered_write" _ [] s (write_all_lem platform laws.stream payload s) refl)

  write_temp_lem :
      (payload : List ℕ) (s : State)
      → temp_bytes s ≡ []
      → Ends
          (Written payload
            (final_bytes s)
            ("buffered_write" ∷ "flush_python_buffer" ∷ "file_fsync" ∷ []))
          (Kept (final_bytes s))
          (write_temp platform payload ([], s))
  unfolding write_temp
  write_temp_lem payload s empty =
      Ends-then
        (timed "buffered_write" (write_all platform payload)
          then_io (λ _. timed "flush_python_buffer" (λ s. some (platform.flush_file s))))
        (λ _. timed "file_fsync" (λ s. some (platform.fsync_file s))) ([], s)
        (Ends-then (timed "buffered_write" (write_all platform payload))
          (λ _. timed "flush_python_buffer" (λ s. some (platform.flush_file s))) ([], s)
          (first_write payload s empty) refl
          (step_keeps "flush_python_buffer" platform.flush_file laws.flush_keeps payload _ _))
        refl (step_keeps "file_fsync" platform.fsync_file laws.fsync_keeps payload _ _)

  closed_ok :
      (closed : Result DemoError (Unit {0})) (payload : List ℕ) (before : Option (List ℕ))
      (names phases : List String) (s : State)
      → Written payload before names tt (phases, s)
      → Ends (Written payload before names) (Kept before) (some (closed >> ok tt, (phases, s)))
  unfolding Written Kept
  closed_ok (ok _) payload before names phases s h = returned h
  closed_ok (err e) payload before names phases s (_, _, final) = raised_error final

  closed_err :
      (closed : Result DemoError (Unit {0})) (e : DemoError) (payload : List ℕ)
      (before : Option (List ℕ)) (names phases : List String) (s : State)
      → Kept before (phases, s)
      → Ends (Written payload before names) (Kept before) (some (closed >> err e, (phases, s)))
  closed_err (ok _) e payload before names phases s h = raised_error h
  closed_err (err c) e payload before names phases s h = raised_error h

  -- after the body, whether it raised or not, the stream is closed
  close_lem :
      (payload : List ℕ) (before : Option (List ℕ)) (names : List String)
      {o : Option (Result DemoError (Unit {0}) × (List String × State))}
      → Ends (Written payload before names) (Kept before) o
      → Ends (Written payload before names) (Kept before) (closed_after platform o)
  unfolding closed_after Kept Written
  close_lem payload before names (returned {s = (phases, s)} (named, temp, final)) =
      let (temp', final') = laws.close_keeps s in
      closed_ok (platform.close_temp s).0 payload before names phases _
        (named, temp' ∙ temp, final' ∙ final)
  close_lem payload before names (raised_error {s = (phases, s)} final) =
      closed_err (platform.close_temp s).0 _ payload before names phases _
        ((laws.close_keeps s).1 ∙ final)

  pub with_temp_lem :
      (payload : List ℕ) (s : State)
      → Ends
          (Written payload (final_bytes s) written_names)
          (Kept (final_bytes s))
          (with_temp platform (write_temp platform payload) ([], s))
  unfolding with_temp written_names Written Kept
  with_temp_lem payload s = elim (Result-cases (platform.open_temp s).0) [
    | inl (u, opened) ↦
        rw (with_temp, opened)
          (Ends-map (λ a s' (n, t, f). (n, t, f ∙ laws.open_keeps s))
            (λ s' f. f ∙ laws.open_keeps s)
            (close_lem payload _ _
              (write_temp_lem payload (platform.open_temp s).1 (laws.opened s opened))))
    | inr (e, failed) ↦ rw (with_temp, failed) (raised_error (laws.open_keeps s))
  ]
