-- ===== src/Consensus/Emission/Supply.antt =====
-- The hard cap: genesis and all subsidies together stay within the maximum supply.
use native.Mathlib.Nat.{pow-suc, div-div-eq-div-mul}
use scytale.Base.{
  ℕ, zero, suc, ◌+◌, ◌-◌, ◌*◌, ◌/◌, ◌%◌, ◌^◌, ◌≤◌, ◌<◌, ◌≡◌, refl, sym, ap, ◌⊎◌, inl, inr, leb,
  if◌then◌else◌, arith,
}
use scytale.Core.Genesis.{total_genesis_quanta}
use scytale.Consensus.Emission.{
  initial_subsidy, halving_interval, max_supply, get_block_subsidy, emitted,
}

mod_mul_le : (r s : ℕ) → r < halving_interval → r * s ≤ 1_320_000 * s
mod_mul_le r s h = grind arith

-- The subsidy of an era, with the cut-off at the 64th halving.
abbrev era : ℕ → ℕ
era k = if leb 64 k then 0 else initial_subsidy / 2 ^ k

era_shift : (k : ℕ) → initial_subsidy / 2 ^ suc k ≡ initial_subsidy / 2 ^ k / 2
era_shift k = rw (pow-suc 2 k) (sym (div-div-eq-div-mul initial_subsidy (2 ^ k) 2))

era_halves : (k : ℕ) → 2 * era (suc k) ≤ era k
era_halves k = ground (arith, era_shift k)

get_block_subsidy-era : (n : ℕ) → get_block_subsidy n ≡ era (n / halving_interval)
unfolding get_block_subsidy
get_block_subsidy-era n = refl

-- The next height lies in the same era, or is the first one of the next.
era_cases :
    (n : ℕ)
    → ((suc n / halving_interval ≡ n / halving_interval)
        × (suc n % halving_interval ≡ suc (n % halving_interval)))
      ⊎ ((suc n / halving_interval ≡ suc (n / halving_interval))
          × (suc n % halving_interval ≡ 0)
          × (n % halving_interval ≡ 659_999))
era_cases n = omega arith

emitted_bound :
    (n : ℕ)
    → emitted n + 1_320_000 * get_block_subsidy n
      ≤ 1_320_000 * initial_subsidy + n % halving_interval * get_block_subsidy n
unfolding emitted
emitted_bound zero = omega (arith, get_block_subsidy-era 0)
emitted_bound (suc n) = elim (era_cases n) [
  | inl (same, next) ↦
      rw (next, get_block_subsidy-era (suc n), same, ← get_block_subsidy-era n)
        (omega (arith, emitted_bound n))
  | inr (over, start, last) ↦
      rw (start, get_block_subsidy-era (suc n), over)
        (omega (
          arith,
          emitted_bound n,
          era_halves (n / halving_interval),
          get_block_subsidy-era n,
          ap (λ (t : ℕ). t * get_block_subsidy n) last,
        ))
]

era_antitone : (d k : ℕ) → era (d + k) ≤ era k
era_antitone zero k = let e : 0 + k ≡ k = omega arith in rw e (omega arith)
era_antitone (suc d) k =
    let e : suc d + k ≡ suc (d + k) = omega arith in
    rw e (omega (arith, era_halves (d + k), era_antitone d k))

-- No later block is paid more than an earlier one.
pub get_block_subsidy_antitone : (h k : ℕ) → h ≤ k → get_block_subsidy k ≤ get_block_subsidy h
get_block_subsidy_antitone h k le =
    let d = k / halving_interval - h / halving_interval in
    let e : d + h / halving_interval ≡ k / halving_interval = omega arith in
    rw (get_block_subsidy-era k, get_block_subsidy-era h, ← e)
      (era_antitone d (h / halving_interval))

-- The genesis allocation and the subsidies of any number of blocks stay within MAX_SUPPLY.
pub emitted-le-max_supply : (n : ℕ) → total_genesis_quanta + emitted n ≤ max_supply
emitted-le-max_supply n =
    omega (
      arith,
      emitted_bound n,
      mod_mul_le (n % halving_interval) (get_block_subsidy n) (omega arith),
    )
