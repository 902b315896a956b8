-- ===== src/Sketch/Hash/Range.antt =====
-- The finalized hashes stay 64-bit words: the last `^=` of the finalizer is not masked.
use Prim.Native.Nat.{bit_xor, bit_xor-bitwise, digits, differ}
use native.Mathlib.Nat.{pow-suc}
use sketchlog.Prelude.{ℕ, zero, suc, ◌/◌, ◌%◌, ◌^◌, ◌<◌, List, arith}
use sketchlog.Sketch.Hash.{word, xor_shift, rounds, murmur_finalizer, hash_bytes}

differ-lt : (x y : ℕ) → x < 2 → y < 2 → differ x y < 2
differ-lt zero y p q = q
differ-lt (suc zero) zero p q = omega arith
differ-lt (suc zero) (suc y) p q = omega arith
differ-lt (suc (suc x)) y p q = absurd (omega arith)

-- The binary digits of the result stay within those of the two words, with whatever fuel.
digits-lt : (k fuel a b : ℕ) → a < 2 ^ k → b < 2 ^ k → digits (λ y. y) differ fuel a b < 2 ^ k
digits-lt k zero a b p q = q
digits-lt k (suc fuel) zero b p q = q
digits-lt zero (suc fuel) (suc a) b p q = absurd (omega arith)
digits-lt (suc k) (suc fuel) (suc a) b p q =
    let bit = differ-lt (suc a % 2) (b % 2) (omega arith) (omega arith) in
    omega (
      arith,
      pow-suc 2 k,
      digits-lt k fuel (suc a / 2) (b / 2) (omega (arith, pow-suc 2 k))
          (omega (arith, pow-suc 2 k)),
    )

pub bit_xor-lt : (k a b : ℕ) → a < 2 ^ k → b < 2 ^ k → bit_xor a b < 2 ^ k
bit_xor-lt k a b p q = omega (arith, bit_xor-bitwise a b, digits-lt k a a b p q)

xor_shift-lt : (h : ℕ) → h < word → xor_shift 33 h < word
unfolding xor_shift
xor_shift-lt h p = bit_xor-lt 64 h (h / 2 ^ 33) p (omega arith)

rounds-lt : (h : ℕ) → h < word → rounds h < word
unfolding rounds
rounds-lt h p = xor_shift-lt _ (omega arith)

pub murmur_finalizer-lt : (h : ℕ) → murmur_finalizer h < word
unfolding murmur_finalizer
murmur_finalizer-lt h = rounds-lt _ (omega arith)

pub hash_bytes-lt : (bs : List ℕ) → hash_bytes bs < word
unfolding hash_bytes
hash_bytes-lt bs = murmur_finalizer-lt _
