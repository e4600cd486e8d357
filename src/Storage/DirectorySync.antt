-- ===== src/Storage/DirectorySync.antt =====
-- kubernetes/storage/data-systems-foundations/examples/io_durability_demo.py: the fsync of the
-- directory, and how it reports a platform that does not support it.
use netai_devsecops_runbook.Prelude.{
  nat_beq, if◌then◌else◌, Bool-cases, Result, ℕ, ◌≡◌, refl, ◌≢◌, ◌↔◌, inl, inr, Bool, ◌&&◌, ◌||◌,
  arith, ok, err,
}
use netai_devsecops_runbook.Storage.Durability.{
  DemoError, os_error, DirectoryStatus, succeeded, unknown_not_tested,
}

-- the numbers of the module `errno`
pub record Errnos : Type 0 where
  pub einval : ℕ
  pub enotsup : ℕ
  pub eopnotsupp : ℕ
  pub eacces : ℕ

-- the directory's descriptor: what `os.open`, `os.fsync` and `os.close` give, errors by their errno
pub record Calls : Type 0 where
  pub opened : Result ℕ (Unit {0})
  pub synced : Result ℕ (Unit {0})
  pub closed : Result ℕ (Unit {0})

module _ (errnos : Errnos) (is_nt : Bool) where
  -- the two tests of the `except` clause
  known_unsupported : ℕ → Bool
  known_unsupported errno =
      nat_beq errno errnos.einval || nat_beq errno errnos.enotsup || nat_beq errno errnos.eopnotsupp

  known_windows_directory_open_failure : ℕ → Bool
  known_windows_directory_open_failure errno =
      is_nt && (nat_beq errno errnos.eacces || nat_beq errno errnos.einval)

  -- the `except` clause
  classify : ℕ → Result DemoError DirectoryStatus
  unfolding known_unsupported known_windows_directory_open_failure
  classify errno =
      if known_unsupported errno || known_windows_directory_open_failure errno
      then ok unknown_not_tested
      else err (os_error errno)

  -- the `finally` clause after a directory that opened: an error of the close replaces the result
  after_close :
      Result ℕ (Unit {0}) → Result DemoError DirectoryStatus → Result DemoError DirectoryStatus
  after_close (ok _) result = result
  after_close (err errno) result = err (os_error errno)

  unfoldable pub default_directory_fsync : Calls → Result DemoError DirectoryStatus
  unfolding classify after_close
  default_directory_fsync calls = elim calls.opened [
    | err errno ↦ classify errno
    | ok _ ↦
        after_close calls.closed
          (elim calls.synced [ err errno ↦ classify errno | ok _ ↦ ok succeeded ])
  ]

  classify-not_succeeded : (errno : ℕ) → classify errno ≢ ok succeeded
  unfolding classify
  classify-not_succeeded errno h =
      elim (Bool-cases (known_unsupported errno || known_windows_directory_open_failure errno)) [
        | inl known ↦ ground arith
        | inr other ↦ ground arith
      ]

  fsync_cases :
      (opened synced closed : Result ℕ (Unit {0}))
      → (default_directory_fsync (record { opened = opened; synced = synced; closed = closed })
          ≡ ok succeeded)
        ↔ ((opened ≡ ok tt) × (synced ≡ ok tt) × (closed ≡ ok tt))
  unfolding default_directory_fsync
  fsync_cases (err e) synced closed =
      (λ h. absurd (classify-not_succeeded e h), λ h. absurd (ground arith))
  fsync_cases (ok u) (err e) (ok c) =
      (λ h. absurd (classify-not_succeeded e h), λ h. absurd (ground arith))
  fsync_cases (ok u) (err e) (err c) = (λ h. absurd (ground arith), λ h. absurd (ground arith))
  fsync_cases (ok u) (ok v) (err c) = (λ h. absurd (ground arith), λ h. absurd (ground arith))
  fsync_cases (ok u) (ok v) (ok c) = (λ _. (refl, refl, refl), λ _. refl)

  -- Success is reported exactly where the directory was opened, synced and closed without an error.
  pub default_directory_fsync-succeeded :
      (calls : Calls)
      → (default_directory_fsync calls ≡ ok succeeded)
        ↔ ((calls.opened ≡ ok tt) × (calls.synced ≡ ok tt) × (calls.closed ≡ ok tt))
  unfolding default_directory_fsync
  default_directory_fsync-succeeded calls = fsync_cases calls.opened calls.synced calls.closed
