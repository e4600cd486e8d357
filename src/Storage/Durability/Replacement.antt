-- ===== src/Storage/Durability/Replacement.antt =====
-- The whole replacement of the file: what the final name holds at the end, errors included.
use netai_devsecops_runbook.Prelude.{
  nat_beq_iff, length, ◌>>=◌, Result, ℕ, String, ◌≡◌, refl, sym, ap, ◌∙◌, ◌⊎◌, inl, inr, true,
  Option, some, List, [], ◌∷◌, ◌++◌, ok, err,
}
use netai_devsecops_runbook.Storage.Durability.{
  DemoError, Platform, timed, write_temp, verification_of, verify, report, DirectoryStatus, Report,
  replace_verify, write_replace_verify, with_temp, Verification, replace_and_sync, read_and_report,
}
use netai_devsecops_runbook.Storage.Durability.Writing.{Ends, Ends-map, returned, raised_error}
use netai_devsecops_runbook.Storage.Durability.TempFile.{
  IsPlatform, Ends-then, Ends-timed, Ends-step, some_inj, bytes_eq_refl, Written, Kept,
  written_names, with_temp_lem,
}

pub phase_names : List String
phase_names =
    written_names ++ "same_directory_os_replace" ∷ "directory_fsync" ∷ "readback_checksum" ∷ []

module _ (platform : Platform) (laws : IsPlatform platform) where
  open platform use {State, temp_bytes, final_bytes, sha256}

  -- the whole payload is under the final name, and these phases are noted
  IsReplaced : List ℕ → List String → List String × State → Type 0
  IsReplaced payload names s = (s.0 ≡ names) × (final_bytes s.1 ≡ some payload)

  -- the final name holds what it held, or the whole payload
  pub IsWhole : List ℕ → Option (List ℕ) → List String × State → Type 0
  IsWhole payload before s = (final_bytes s.1 ≡ before) ⊎ (final_bytes s.1 ≡ some payload)

  replace_lem :
      (payload : List ℕ) (before : Option (List ℕ)) (names : List String) (u : Unit {0})
      (s : List String × State)
      → Written platform laws payload before names u s
      → Ends
          (λ _. IsReplaced payload (names ++ "same_directory_os_replace" ∷ []))
          (IsWhole payload before)
          (timed "same_directory_os_replace" (λ s. some (platform.replace_file s)) s)
  unfolding Written IsReplaced IsWhole
  replace_lem payload before names u (phases, s) (named, temp, final) =
      Ends-map
        (λ a s' h.
          (h.0 ∙ ap (λ l. l ++ "same_directory_os_replace" ∷ []) named, h.1 ∙ ap some temp))
        (λ s' h. inl (h ∙ final))
        (Ends-timed {G = λ _ s'. final_bytes s' ≡ some (temp_bytes s)}
          {Bad = λ s'. final_bytes s' ≡ final_bytes s} "same_directory_os_replace" _ phases s
          (Ends-step (platform.replace_file s) (λ a e. laws.replaced s e) (laws.replace_failed s))
          refl)

  directory_lem :
      (payload : List ℕ) (before : Option (List ℕ)) (names : List String) (s : List String × State)
      → IsReplaced payload names s
      → Ends
          (λ _. IsReplaced payload (names ++ "directory_fsync" ∷ []))
          (IsWhole payload before)
          (timed "directory_fsync" (λ s. some (platform.fsync_directory s)) s)
  unfolding IsReplaced IsWhole
  directory_lem payload before names (phases, s) (named, final) =
      Ends-map (λ a s' h. (h.0 ∙ ap (λ l. l ++ "directory_fsync" ∷ []) named, h.1 ∙ final))
        (λ s' h. inr (h ∙ final))
        (Ends-timed {G = λ _ s'. final_bytes s' ≡ final_bytes s}
          {Bad = λ s'. final_bytes s' ≡ final_bytes s} "directory_fsync" _ phases s
          (Ends-step (platform.fsync_directory s) (λ a e. laws.directory_keeps s)
            (λ a e. laws.directory_keeps s))
          refl)

  -- the bytes that are read are the payload
  read_back :
      (r : Result DemoError (List ℕ)) (payload : List ℕ) (s : State) {s' : State}
      → final_bytes s' ≡ final_bytes s
      → ((bytes : List ℕ) → r ≡ ok bytes → bytes ≡ payload)
      → Ends
          (λ v s'.
            (v ≡ verification_of platform payload payload) × (final_bytes s' ≡ final_bytes s))
          (λ s'. final_bytes s' ≡ final_bytes s)
          (some (r >>= λ read. ok (verification_of platform payload read), s'))
  read_back (ok bytes) payload s kept h =
      returned (ap (verification_of platform payload) (h bytes refl), kept)
  read_back (err e) payload s kept h = raised_error kept

  verify_lem :
      (payload : List ℕ) (before : Option (List ℕ)) (names : List String) (s : List String × State)
      → IsReplaced payload names s
      → Ends
          (λ v s'.
            (v ≡ verification_of platform payload payload)
            × IsReplaced payload (names ++ "readback_checksum" ∷ []) s')
          (IsWhole payload before)
          (timed "readback_checksum" (verify platform payload) s)
  unfolding verify IsReplaced IsWhole
  verify_lem payload before names (phases, s) (named, final) =
      Ends-map
        (λ v s' (n, (e, kept)).
          (e, (n ∙ ap (λ l. l ++ "readback_checksum" ∷ []) named, kept ∙ final)))
        (λ s' h. inr (h ∙ final))
        (Ends-timed
          {G = λ v s'.
            (v ≡ verification_of platform payload payload) × (final_bytes s' ≡ final_bytes s)}
          {Bad = λ s'. final_bytes s' ≡ final_bytes s} "readback_checksum" _ phases s
          (read_back (platform.read_final s).0 payload s (laws.read_keeps s)
            (λ bytes e. some_inj (sym (laws.read_gives s bytes e) ∙ final)))
          refl)

  -- the result where nothing raised
  pub IsReported : List ℕ → Report → List String × State → Type 0
  IsReported payload r s =
      (r.phases ≡ phase_names)
      × (r.verification.actual_bytes ≡ length payload)
      × (r.verification.expected_sha256 ≡ sha256 payload)
      × (r.verification.actual_sha256 ≡ sha256 payload)
      × (r.verification.hash_match ≡ true)
      × (final_bytes s.1 ≡ some payload)

  report_lem :
      (payload : List ℕ) (before : Option (List ℕ)) (status : DirectoryStatus) (v : Verification)
      (s : List String × State)
      → v ≡ verification_of platform payload payload
      → IsReplaced payload phase_names s
      → Ends (IsReported payload) (IsWhole payload before) (report platform payload status v s)
  unfolding report IsReplaced IsReported
  report_lem payload before status v (phases, s) read (named, final) =
      rw
        (
          read,
          report,
          bytes_eq_refl (sha256 payload),
          (nat_beq_iff (length payload) (length payload)).1 refl,
        )
        (returned (named, refl, refl, refl, refl, final))

  replace_and_sync_lem :
      (payload : List ℕ) (before : Option (List ℕ)) (u : Unit {0}) (s : List String × State)
      → Written platform laws payload before written_names u s
      → Ends
          (λ _.
            IsReplaced payload
              (written_names ++ "same_directory_os_replace" ∷ "directory_fsync" ∷ []))
          (IsWhole payload before)
          (replace_and_sync platform s)
  unfolding replace_and_sync written_names
  replace_and_sync_lem payload before u s h =
      Ends-then (timed "same_directory_os_replace" (λ s. some (platform.replace_file s)))
        (λ _. timed "directory_fsync" (λ s. some (platform.fsync_directory s))) s
        (replace_lem payload before written_names u s h) refl (λ _. directory_lem payload before _)

  read_and_report_lem :
      (payload : List ℕ) (before : Option (List ℕ)) (status : DirectoryStatus)
      (s : List String × State)
      → IsReplaced payload (written_names ++ "same_directory_os_replace" ∷ "directory_fsync" ∷ []) s
      → Ends
          (IsReported payload)
          (IsWhole payload before)
          (read_and_report platform payload status s)
  unfolding read_and_report written_names phase_names
  read_and_report_lem payload before status s h =
      Ends-then (timed "readback_checksum" (verify platform payload))
        (report platform payload status) s (verify_lem payload before _ s h) refl
        (λ v s' (e, h'). report_lem payload before status v s' e h')

  -- Whatever the platform's calls do within these laws, the replacement ends. If it returns, the
  -- final name holds the payload, the readback was that of the payload and all six phases ran in
  -- order; if it raises, the final name holds what it held before, or the whole payload.
  pub write_replace_verify-IsWhole :
      (payload : List ℕ) (s : State)
      → Ends
          (IsReported payload)
          (IsWhole payload (final_bytes s))
          (write_replace_verify platform payload s)
  unfolding write_replace_verify replace_verify IsWhole Kept
  write_replace_verify-IsWhole payload s =
      Ends-then (with_temp platform (write_temp platform payload))
        (λ _. replace_verify platform payload) ([], s)
        (Ends-map (λ a s' h. h) (λ s' h. inl h) (with_temp_lem platform laws payload s)) refl
        (λ u s1 h.
          Ends-then (replace_and_sync platform) (read_and_report platform payload) s1
            (replace_and_sync_lem payload (final_bytes s) u s1 h) refl
            (λ status. read_and_report_lem payload (final_bytes s) status))
