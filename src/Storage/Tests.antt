-- ===== src/Storage/Tests.antt =====
-- The storage demo on a platform that writes at most two bytes at a time.
use netai_devsecops_runbook.Prelude.{
  length, take, ok_inj, Result, ℕ, min, ◌≡◌, refl, sym, ap, Option, none, some, List, [], ◌∷◌, ◌++◌,
  arith, pos, ok, err,
}
use netai_devsecops_runbook.Storage.Durability.{
  DemoError, os_error, count_of, Platform, succeeded, write_replace_verify,
}
use netai_devsecops_runbook.Storage.Durability.Writing.{Ends, IsStream}
use netai_devsecops_runbook.Storage.Durability.TempFile.{IsPlatform}
use netai_devsecops_runbook.Storage.Durability.Replacement.{
  IsReported, IsWhole, write_replace_verify-IsWhole,
}
use netai_devsecops_runbook.Storage.DirectorySync.{Calls, Errnos}

-- the bytes of the temporary file and of the final one
abbrev Files : Type 0
Files = List ℕ × Option (List ℕ)

-- a file that is missing is ENOENT
abbrev reading : Option (List ℕ) → Result DemoError (List ℕ)
reading none = err (os_error 2)
reading (some bytes) = ok bytes

abbrev pairwise : Platform
pairwise = record {
  State = Files;
  open_temp = λ s. (ok tt, ([], s.1));
  write = λ chunk s.
      (count_of (pos (min 2 (length chunk))), (s.0 ++ take (min 2 (length chunk)) chunk, s.1));
  flush_file = λ s. (ok tt, s);
  fsync_file = λ s. (ok tt, s);
  close_temp = λ s. (ok tt, s);
  replace_file = λ s. (ok tt, ([], some s.0));
  fsync_directory = λ s. (ok succeeded, s);
  read_final = λ s. (reading s.1, s);
  sha256 = λ bytes. bytes;
  temp_bytes = λ s. s.0;
  final_bytes = λ s. s.1;
}

count_inj : (m n : ℕ) → count_of (pos m) ≡ count_of (pos n) → m ≡ n
count_inj m n h = cc

pairwise-IsStream : IsStream pairwise
pairwise-IsStream = record {
  appends = λ chunk s. (
    min 2 (length chunk),
    refl,
    λ n e. (sym (count_inj _ _ e), let m = count_inj _ _ e in omega (arith, m)),
  );
  final_kept = λ chunk s. refl;
}

reading_ok : (o : Option (List ℕ)) (bytes : List ℕ) → reading o ≡ ok bytes → o ≡ some bytes
reading_ok none bytes h = cc
reading_ok (some b) bytes h = ap some (ok_inj h)

pairwise-IsPlatform : IsPlatform pairwise
pairwise-IsPlatform = record {
  stream = pairwise-IsStream;
  opened = λ s e. refl;
  open_keeps = λ s. refl;
  flush_keeps = λ s. (refl, refl);
  fsync_keeps = λ s. (refl, refl);
  close_keeps = λ s. (refl, refl);
  replaced = λ s e. refl;
  replace_failed = λ s e h. cc;
  directory_keeps = λ s. refl;
  read_keeps = λ s. refl;
  read_gives = λ s. reading_ok s.1;
}

abbrev old_files : Files
old_files = (9 ∷ [], some (7 ∷ []))

write_replace_verify-IsWhole_example :
    Ends
      (IsReported pairwise pairwise-IsPlatform (1 ∷ 2 ∷ 3 ∷ []))
      (IsWhole pairwise pairwise-IsPlatform (1 ∷ 2 ∷ 3 ∷ []) (some (7 ∷ [])))
      (write_replace_verify pairwise (1 ∷ 2 ∷ 3 ∷ []) old_files)
write_replace_verify-IsWhole_example =
    write_replace_verify-IsWhole pairwise pairwise-IsPlatform (1 ∷ 2 ∷ 3 ∷ []) old_files

abbrev linux : Errnos
linux = record { einval = 22; enotsup = 95; eopnotsupp = 95; eacces = 13 }

-- a directory that opens and cannot be synced
abbrev no_sync : Calls
no_sync = record { opened = ok tt; synced = err 22; closed = ok tt }
