-- ===== src/ComputerArchitecture/Cache.antt =====
-- learning/computer-architecture/examples/cache_model.py: tag, set index and offset of an address
-- of a 2-way cache of 4 KiB with lines of 64 bytes.
use netai_devsecops_runbook.Prelude.{ℕ, ◌+◌, ◌*◌, ◌/◌, ◌%◌, ◌<◌, ◌≡◌, arith}

unfoldable pub capacity : ℕ
capacity = 4096

unfoldable pub line : ℕ
line = 64

unfoldable pub ways : ℕ
ways = 2

unfoldable pub sets : ℕ
unfolding capacity line ways
sets = capacity / line / ways

-- `(tag, set_index, offset)`
unfoldable pub fields : ℕ → ℕ × ℕ × ℕ
unfolding sets line
fields address =
    let line_number = address / line in (line_number / sets, line_number % sets, address % line)

-- The fields are within their bounds, and rebuild the address.
pub fields-rebuild :
    (address : ℕ)
    → ((fields address).2 < line)
      × ((fields address).1 < sets)
      × (((fields address).0 * sets + (fields address).1) * line + (fields address).2 ≡ address)
unfolding fields sets line capacity ways
fields-rebuild address = (omega arith, omega arith, omega arith)
