-- ===== src/Sketch/Hll.antt =====
-- core/hll.py: the HyperLogLog sketch; its `estimate` is in Estimate.
-- `merge` is the register-wise maximum in `_PythonStreamLog.merge` of facade.py.
pub mod Rho
pub mod Valid
pub mod Merge
pub mod Estimate
use Prim.Native.Nat.{min, max}
use sketchlog.Prelude.{
  ℕ, zero, suc, ◌+◌, ◌-◌, ◌*◌, ◌/◌, ◌%◌, ◌^◌, ◌≤◌, ◌≡◌, Bool, true, false, ◌&&◌, List, [], ◌∷◌,
  arith, ltb, leb, ◌==◌, if◌then◌else◌, get_or, set, replicate,
}
use sketchlog.Prelude.Int.{ℤ, pos, negsuc}
use sketchlog.Prelude.Exec.{Result, ok, err, Exec}
use sketchlog.Sketch.Hash.{word, hash_bytes}

pub data HllError : Type 0 where
  bad_precision out_of_range : HllError

-- An argument of `add`: a `str` carries its UTF-8 bytes, and a value of any other type those of
-- its `str()`.
pub data Item : Type 0 where
  int : ℤ → Item
  bytes : List ℕ → Item
  str : List ℕ → Item
  other : List ℕ → Item

pub record Hll : Type 0 where
  pub p : ℕ
  pub registers : List ℕ

-- `__init__`; `_m` is `2 ^ p`.
unfoldable pub init : ℤ → Result HllError Hll
init (pos p) =
    if leb 4 p && leb p 18
    then ok (record { p = p; registers = replicate (2 ^ p) 0 })
    else err bad_precision
init (negsuc n) = err bad_precision

-- `int.bit_length` of a 64-bit word: 64 rounds halve it to 0.
bit_length_from : ℕ → ℕ → ℕ
bit_length_from zero w = 0
bit_length_from (suc fuel) w =
    let rest = suc (bit_length_from fuel (w / 2)) in if w == 0 then 0 else rest

unfoldable pub bit_length : ℕ → ℕ
unfolding bit_length_from
bit_length = bit_length_from 64

-- `_rho`
unfoldable pub rho : ℕ → ℕ → ℕ
rho w p = if w == 0 then 64 - p + 1 else 64 - bit_length w + 1

-- `value.to_bytes(8, byteorder='little', signed=False)`
little_endian : ℕ → ℕ → List ℕ
little_endian zero n = []
little_endian (suc k) n = n % 256 ∷ little_endian k (n / 256)

-- The hash of a value, or the ValueError for an integer that is no unsigned 64-bit one.
unfoldable pub hash_item : Item → Result HllError ℕ
unfolding little_endian
hash_item (int (pos n)) =
    if ltb (word - 1) n then err out_of_range else ok (hash_bytes (little_endian 8 n))
hash_item (int (negsuc n)) = err out_of_range
hash_item (bytes b) = ok (hash_bytes b)
hash_item (str b) = ok (hash_bytes b)
hash_item (other b) = ok (hash_bytes b)

-- `h >> (64 - p)`, and the rank of the remaining bits.
unfoldable pub index : Hll → ℕ → ℕ
index s h = h / 2 ^ (64 - s.p)

unfoldable pub rank : Hll → ℕ → ℕ
rank s h = rho (h * 2 ^ s.p % word) s.p

-- `if rho > self._registers[idx]: self._registers[idx] = min(rho, 255)`
unfoldable pub update : Hll → ℕ → Hll
update s h =
    if ltb (get_or s.registers (index s h) 0) (rank s h)
    then record s { registers = set s.registers (index s h) (min (rank s h) 255) }
    else s

abbrev pub add_hashed : Result HllError ℕ → Exec HllError Hll (Unit {0})
add_hashed (err e) s = (err e, s)
add_hashed (ok h) s = (ok tt, update s h)

unfoldable pub add : Item → Exec HllError Hll (Unit {0})
add item = add_hashed (hash_item item)

unfoldable pub memory_bytes : Hll → ℕ
memory_bytes s = 32 + 2 ^ s.p

unfoldable pub reset : Hll → Hll
reset s = record s { registers = replicate (2 ^ s.p) 0 }

-- `max(left, right) for left, right in zip(...)`
unfoldable pub zip_max : List ℕ → List ℕ → List ℕ
zip_max [] ys = []
zip_max (x ∷ xs) [] = []
zip_max (x ∷ xs) (y ∷ ys) = max x y ∷ zip_max xs ys

unfoldable pub merge : Hll → Hll → Hll
merge s t = record s { registers = zip_max s.registers t.registers }
