-- ===== src/Consensus/Emission.antt =====
-- The emission curve of crates/scytale-consensus/src/lib.rs.
pub mod Supply
use scytale.Base.{ℕ, zero, suc, ◌+◌, ◌*◌, ◌/◌, ◌^◌, leb, if◌then◌else◌}

-- QUANTA_PER_SCY.
abbrev pub coin : ℕ
coin = 100_000_000

abbrev pub max_supply : ℕ
max_supply = 66_000_000 * coin

abbrev pub initial_subsidy : ℕ
initial_subsidy = 25 * coin

abbrev pub halving_interval : ℕ
halving_interval = 660_000

-- `>>` on a `u64` by less than 64.
unfoldable pub get_block_subsidy : ℕ → ℕ
get_block_subsidy height =
    let halvings = height / halving_interval in
    if leb 64 halvings then 0 else initial_subsidy / 2 ^ halvings

-- The subsidies of the first `n` heights together.
unfoldable pub emitted : ℕ → ℕ
emitted zero = 0
emitted (suc n) = emitted n + get_block_subsidy n
