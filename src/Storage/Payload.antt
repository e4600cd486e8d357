-- ===== src/Storage/Payload.antt =====
-- kubernetes/storage/data-systems-foundations/examples/io_durability_demo.py: the bound on the size,
-- the payload, and the run of the demo.
use netai_devsecops_runbook.Prelude.{
  leb, if◌then◌else◌, Bool-cases, length, take, pos_part, ℤ, Result, ℕ, zero, suc, ◌+◌, ◌*◌, ◌/◌,
  String, ◌≡◌, refl, ◌⊎◌, inl, inr, Bool, true, false, not, ◌&&◌, Option, none, some, List, [], ◌∷◌,
  ◌++◌, arith, pos, negsuc, ok, err, length-append, length-take,
}
use netai_devsecops_runbook.Storage.Durability.{
  Platform, Report, write_replace_verify, bad_parent, DemoError, bad_size, chunk_size,
}

unfoldable pub min_size_mib : ℕ
min_size_mib = 1

unfoldable pub max_size_mib : ℕ
max_size_mib = 16

-- what is wrong with the text of a size
pub data ArgumentError : Type 0 where
  not_an_integer out_of_range not_a_directory : ArgumentError

-- `MIN_SIZE_MIB <= size <= MAX_SIZE_MIB`
unfoldable pub in_range : ℤ → Bool
unfolding min_size_mib max_size_mib
in_range (negsuc n) = false
in_range (pos n) = leb min_size_mib n && leb n max_size_mib

-- `parse` is `int(_, 10)`, `none` its ValueError
unfoldable pub bounded_size_mib : (String → Option ℤ) → String → Result ArgumentError ℤ
unfolding in_range
bounded_size_mib parse value = elim (parse value) [
  | none ↦ err not_an_integer
  | some parsed ↦ if not (in_range parsed) then err out_of_range else ok parsed
]

-- `expanded` is the path with its `~` put in, `is_directory` the platform's test
unfoldable pub existing_directory :
    (String → String) → (String → Bool) → String → Result ArgumentError String
existing_directory expanded is_directory value =
    if not (is_directory (expanded value)) then err not_a_directory else ok (expanded value)

unfoldable pub pattern_bytes : List ℕ
pattern_bytes =
    110 ∷ 101 ∷ 116 ∷ 97 ∷ 105 ∷ 32 ∷ 101 ∷ 100 ∷ 117 ∷ 99 ∷ 97 ∷ 116 ∷ 105 ∷ 111 ∷ 110 ∷ 97 ∷ 108
    ∷ 32 ∷ 98 ∷ 117 ∷ 102 ∷ 102 ∷ 101 ∷ 114 ∷ 101 ∷ 100 ∷ 45 ∷ 105 ∷ 111 ∷ 32 ∷ 100 ∷ 117 ∷ 114 ∷ 97
    ∷ 98 ∷ 105 ∷ 108 ∷ 105 ∷ 116 ∷ 121 ∷ 32 ∷ 111 ∷ 114 ∷ 100 ∷ 101 ∷ 114 ∷ 105 ∷ 110 ∷ 103 ∷ 32
    ∷ 100 ∷ 101 ∷ 109 ∷ 111 ∷ 10 ∷ []

-- `xs * n`
unfoldable pub times : List ℕ → ℕ → List ℕ
times xs zero = []
times xs (suc n) = xs ++ times xs n

-- the payload of a length
unfoldable pub payload_of : ℕ → List ℕ
unfolding pattern_bytes times
payload_of n = take n (times pattern_bytes (n / length pattern_bytes + 1))

unfoldable pub make_payload : ℤ → Result DemoError (List ℕ)
unfolding in_range payload_of
make_payload size_mib =
    if not (in_range size_mib)
    then err bad_size
    else ok (payload_of (pos_part size_mib * chunk_size))

length-times : (xs : List ℕ) (n : ℕ) → length (times xs n) ≡ n * length xs
unfolding times
length-times xs zero = omega arith
length-times xs (suc n) = omega (arith, length-append xs (times xs n), length-times xs n)

length_pattern : length pattern_bytes ≡ 55
unfolding pattern_bytes
length_pattern = refl

-- The payload of any length has that length.
length-payload_of : (n : ℕ) → length (payload_of n) ≡ n
unfolding payload_of
length-payload_of n = omega (
  arith,
  length-take n (times pattern_bytes (n / 55 + 1)),
  length-times pattern_bytes (n / 55 + 1),
  length_pattern,
)

-- A payload is made exactly for the sizes in bounds, and it has that many MiB.
pub make_payload-length :
    (size_mib : ℤ)
    → (in_range size_mib ≡ true)
        × ((payload : List ℕ) × (make_payload size_mib ≡ ok payload)
            × (length payload ≡ pos_part size_mib * chunk_size))
      ⊎ (in_range size_mib ≡ false) × (make_payload size_mib ≡ err bad_size)
unfolding make_payload
make_payload-length size_mib = elim (Bool-cases (in_range size_mib)) [
  | inl fits ↦
      inl (fits, (payload_of (pos_part size_mib * chunk_size), rw fits refl, length-payload_of _))
  | inr over ↦ inr (over, rw over refl)
]

-- `scratch_parent is not None and not Path(scratch_parent).is_dir()`
abbrev pub is_bad_parent : (String → Bool) → Option String → Bool
is_bad_parent is_directory none = false
is_bad_parent is_directory (some parent) = not (is_directory parent)

-- `run_demo` up to its result, where the platform's state is that of the fresh scratch directory
unfoldable pub run_demo :
    (platform : Platform)
    → (String → Bool)
    → ℤ
    → Option String
    → platform.State
    → Option (Result DemoError Report × (List String × platform.State))
unfolding make_payload in_range write_replace_verify
run_demo platform is_directory size_mib scratch_parent s =
    if not (in_range size_mib)
    then some (err bad_size, ([], s))
    else if is_bad_parent is_directory scratch_parent
    then some (err bad_parent, ([], s))
    else elim (make_payload size_mib) [
      | err e ↦ some (err e, ([], s))
      | ok payload ↦ write_replace_verify platform payload s
    ]
