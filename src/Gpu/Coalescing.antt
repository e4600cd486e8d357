-- ===== src/Gpu/Coalescing.antt =====
-- learning/gpu-programming/examples/coalescing_model.py: the sectors that a warp's accesses touch.
-- `access_bytes` is at least 1 here, and `sector_bytes` is not 0.
use netai_devsecops_runbook.Prelude.{
  sorted_set, ℕ, zero, suc, ◌+◌, ◌-◌, ◌*◌, ◌/◌, List, [], ◌∷◌, ◌++◌, ltb, leb, nat_beq_iff, any,
  contains, contains-append, ◌≡◌, refl, ◌∙◌, Bool, ◌&&◌, arith, nat_key, contains-sorted_set, ◌<◌,
}

unfoldable pub addresses_from : ℕ → ℕ → ℕ → ℕ → ℕ → List ℕ
addresses_from base element_bytes stride lane zero = []
addresses_from base element_bytes stride lane (suc lanes) =
    (base + lane * stride * element_bytes)
    ∷ addresses_from base element_bytes stride (lane + 1) lanes

unfoldable pub lane_addresses : ℕ → ℕ → ℕ → ℕ → List ℕ
unfolding addresses_from
lane_addresses base lanes element_bytes stride = addresses_from base element_bytes stride 0 lanes

-- `range(first, last + 1)`
abbrev pub sectors_between : ℕ → ℕ → List ℕ
sectors_between first zero = []
sectors_between first (suc n) = first ∷ sectors_between (first + 1) n

unfoldable pub sectors_of : ℕ → ℕ → ℕ → List ℕ
sectors_of access_bytes sector_bytes address =
    let first = address / sector_bytes in
    let last = (address + access_bytes - 1) / sector_bytes in
    sectors_between first (last + 1 - first)

unfoldable pub collected : ℕ → ℕ → List ℕ → List ℕ
unfolding sectors_of
collected access_bytes sector_bytes [] = []
collected access_bytes sector_bytes (address ∷ addresses) =
    sectors_of access_bytes sector_bytes address ++ collected access_bytes sector_bytes addresses

unfoldable pub touched_sectors : List ℕ → ℕ → ℕ → List ℕ
unfolding collected
touched_sectors addresses access_bytes sector_bytes =
    sorted_set (collected access_bytes sector_bytes addresses)

-- a sector that an access to an address touches
abbrev pub touches : ℕ → ℕ → ℕ → ℕ → Bool
touches access_bytes sector_bytes sector address =
    leb (address / sector_bytes) sector && leb sector ((address + access_bytes - 1) / sector_bytes)

contains-sectors_between :
    (s first n : ℕ) → contains s (sectors_between first n) ≡ (leb first s && ltb s (first + n))
contains-sectors_between s first zero = ground arith
contains-sectors_between s first (suc n) =
    ground (arith, contains-sectors_between s (first + 1) n, nat_beq_iff first s)

contains-sectors_of :
    (s access_bytes sector_bytes address : ℕ)
    → contains s (sectors_of access_bytes sector_bytes address)
      ≡ touches access_bytes sector_bytes s address
unfolding sectors_of
contains-sectors_of s access_bytes sector_bytes address = ground (
  arith,
  contains-sectors_between s (address / sector_bytes)
      ((address + access_bytes - 1) / sector_bytes + 1 - address / sector_bytes),
)

contains-collected :
    (s access_bytes sector_bytes : ℕ) (addresses : List ℕ)
    → contains s (collected access_bytes sector_bytes addresses)
      ≡ any (touches access_bytes sector_bytes s) addresses
unfolding collected
contains-collected s access_bytes sector_bytes [] = refl
contains-collected s access_bytes sector_bytes (address ∷ addresses) =
    contains-append s (sectors_of access_bytes sector_bytes address)
      (collected access_bytes sector_bytes addresses)
    ∙ (rw
        (
          contains-sectors_of s access_bytes sector_bytes address,
          contains-collected s access_bytes sector_bytes addresses,
        )
        refl)

-- The touched sectors are those that some byte of an access can lie in: from the sector of an
-- address to that of the last byte of its access, where accesses and sectors are not empty.
pub touched_sectors-touches :
    (s access_bytes sector_bytes : ℕ) (addresses : List ℕ)
    → 0 < access_bytes
    → 0 < sector_bytes
    → contains s (touched_sectors addresses access_bytes sector_bytes)
      ≡ any (touches access_bytes sector_bytes s) addresses
unfolding touched_sectors
touched_sectors-touches s access_bytes sector_bytes addresses accesses sectors =
    contains-sorted_set s (collected access_bytes sector_bytes addresses)
    ∙ contains-collected s access_bytes sector_bytes addresses
