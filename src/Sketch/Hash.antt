-- ===== src/Sketch/Hash.antt =====
-- The 64-bit hashes that core/cms.py and core/hll.py share: FNV-1a over bytes, and the finalizer.
-- A word is a number below 2 ^ 64; `h & 0xFFFFFFFFFFFFFFFF` is the remainder by 2 ^ 64 and
-- `h >> k` the quotient by 2 ^ k.
pub mod Range
use Prim.Native.Nat.{bit_xor}
use sketchlog.Prelude.{
  ℕ, zero, suc, ◌+◌, ◌-◌, ◌*◌, ◌/◌, ◌%◌, ◌^◌, ◌≤◌, ◌<◌, ◌≡◌, refl, List, [], ◌∷◌, arith,
}
use sketchlog.Prelude.Int.{ℤ, pos, negsuc}

abbrev pub word : ℕ
word = 2 ^ 64

-- An event name: `str` carries the UTF-8 bytes of the text.
pub data EventKey : Type 0 where
  int : ℤ → EventKey
  bytes : List ℕ → EventKey
  str : List ℕ → EventKey

-- `h ^= h >> k`
xor_shift : ℕ → ℕ → ℕ
xor_shift k h = bit_xor h (h / 2 ^ k)

-- The steps of the finalizer after its mask.
pub rounds : ℕ → ℕ
unfolding xor_shift
rounds h =
    let a = xor_shift 33 h in
    let b = xor_shift 33 (a * 0xff51afd7ed558ccd % word) in
    xor_shift 33 (b * 0xc4ceb9fe1a85ec53 % word)

-- `HyperLogLog._murmur_finalizer`
unfoldable pub murmur_finalizer : ℕ → ℕ
unfolding rounds
murmur_finalizer h = rounds (h % word)

-- `(key ^ seed) & mask`: Python's `^` on a negative integer works on its two's complement, and
-- `-(n + 1)` is the complement of `n`.
xor_word : ℤ → ℕ → ℕ
xor_word (pos n) seed = bit_xor n seed % word
xor_word (negsuc n) seed = word - 1 - bit_xor n seed % word

-- `CountMinSketch._hash`
unfoldable pub hash : ℤ → ℕ → ℕ
unfolding rounds xor_word
hash key seed = rounds (xor_word key seed)

-- FNV-1a: the loop over the bytes of `_key_from_bytes` and `_hash_bytes`.
fnv_loop : ℕ → List ℕ → ℕ
fnv_loop h [] = h
fnv_loop h (b ∷ data') = fnv_loop (bit_xor h b * 0x100000001b3 % word) data'

unfoldable pub key_from_bytes : List ℕ → ℕ
unfolding fnv_loop
key_from_bytes data' = fnv_loop 0xcbf29ce484222325 data'

unfoldable pub hash_bytes : List ℕ → ℕ
unfolding fnv_loop murmur_finalizer
hash_bytes data' = murmur_finalizer (fnv_loop 0xcbf29ce484222325 data')
