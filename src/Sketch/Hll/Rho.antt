-- ===== src/Sketch/Hll/Rho.antt =====
-- The register index and the rank that a hash gives lie in the ranges that `from_dict` demands.
use native.Mathlib.Nat.{pow-suc, one-le-pow, mul-le-mul, div-lt_iff_lt-mul, mod-eq-sub-mul-div}
use native.Mathlib.Nat.{le_refl}
use native.Mathlib.Decide.{dec_le}
use sketchlog.Prelude.{ℕ, zero, suc, ◌+◌, ◌-◌, ◌*◌, ◌/◌, ◌%◌, ◌^◌, ◌≤◌, ◌<◌, ◌≡◌, ◌≢◌, ap, arith}
use sketchlog.Sketch.Hash.{word}
use sketchlog.Sketch.Hll.{Hll, bit_length, bit_length_from, rho, index, rank}

bit_length_from-le : (fuel w : ℕ) → bit_length_from fuel w ≤ fuel
unfolding bit_length_from
bit_length_from-le zero w = omega arith
bit_length_from-le (suc fuel) w = ground (arith, bit_length_from-le fuel (w / 2))

lt-bit_length_from : (k fuel w : ℕ) → k < fuel → 2 ^ k ≤ w → k < bit_length_from fuel w
unfolding bit_length_from
lt-bit_length_from k zero w p q = absurd (omega arith)
lt-bit_length_from zero (suc fuel) w p q = ground arith
lt-bit_length_from (suc k) (suc fuel) w p q = ground (
  arith,
  pow-suc 2 k,
  one-le-pow k 2,
  lt-bit_length_from k fuel (w / 2) (omega arith) (omega (arith, pow-suc 2 k)),
)

pow_add : (a b : ℕ) → 2 ^ a * 2 ^ b ≡ 2 ^ (a + b)
pow_add zero b = let e : 0 + b ≡ b = omega arith in rw e (omega arith)
pow_add (suc a) b =
    let e : suc a + b ≡ suc (a + b) = omega arith in
    rw e (omega (arith, pow-suc 2 (a + b), pow_add a b, ap (λ (t : ℕ). t * 2 ^ b) (pow-suc 2 a)))

split_word : (p : ℕ) → p ≤ 64 → 2 ^ p * 2 ^ (64 - p) ≡ word
split_word p h = let e : p + (64 - p) ≡ 64 = omega arith in rw (pow_add p (64 - p), e)

-- A multiple of `a`, reduced by a multiple of `a`, is 0 or at least `a`.
mod-multiple : (h a b : ℕ) → 0 < a → h * a % (a * b) ≢ 0 → a ≤ h * a % (a * b)
mod-multiple h a b pos nonzero =
    let q = h * a / (a * b) in
    elim (dec_le h (b * q)) [
      | yes small ↦ absurd (
          nonzero (omega (arith, mod-eq-sub-mul-div (h * a) (a * b), mul-le-mul small (le_refl a))))
      | no large ↦
          let up : b * q + 1 ≤ h = omega arith in
          omega (arith, mod-eq-sub-mul-div (h * a) (a * b), mul-le-mul up (le_refl a))
    ]

two_pow_pos : (n : ℕ) → 0 < 2 ^ n
two_pow_pos n = one-le-pow n 2 (omega arith)

shifted-le : (h p : ℕ) → p ≤ 64 → h * 2 ^ p % word ≢ 0 → 2 ^ p ≤ h * 2 ^ p % word
shifted-le h p fits =
    rw (← split_word p fits) (mod-multiple h (2 ^ p) (2 ^ (64 - p)) (two_pow_pos p))

long : (h p : ℕ) → p < 64 → h * 2 ^ p % word ≢ 0 → p < bit_length_from 64 (h * 2 ^ p % word)
long h p small nonzero =
    lt-bit_length_from p 64 (h * 2 ^ p % word) small (shifted-le h p (omega arith) nonzero)

-- `rho` is at least 1 and at most 64 - p + 1, for the word that is left of the index.
pub rank_bounds : (s : Hll) (h : ℕ) → s.p < 64 → (1 ≤ rank s h) × (rank s h ≤ 64 - s.p + 1)
unfolding rank rho bit_length
rank_bounds s h fits = ground (arith, bit_length_from-le 64 (h * 2 ^ s.p % word), long h s.p fits)

-- The index of a hash is that of a register.
pub index-lt : (s : Hll) (h : ℕ) → s.p < 64 → h < word → index s h < 2 ^ s.p
unfolding index
index-lt s h fits small =
    (div-lt_iff_lt-mul (two_pow_pos (64 - s.p))).1 (rw (split_word s.p (omega arith)) small)
