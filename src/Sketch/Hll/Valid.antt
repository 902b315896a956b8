-- ===== src/Sketch/Hll/Valid.antt =====
-- The invariant of the HyperLogLog sketch: `2 ^ p` registers, none above 64 - p + 1.
use Prim.Native.Nat.{min}
use mathlib.Core.Path.{subst}
use sketchlog.Prelude.{
  sym, ◌∙◌, ℕ, zero, suc, ◌+◌, ◌-◌, ◌^◌, ◌≤◌, ◌≡◌, refl, ap, List, [], ◌∷◌, arith, ltb, leb, length,
  get_or, set, All, replicate, length-set, length-replicate, Bool-cases, inl, inr,
}
use sketchlog.Prelude.Int.{ℤ, pos, negsuc}
use sketchlog.Prelude.Exec.{Result, ok, err}
use sketchlog.Sketch.Hll.{
  Hll, HllError, Item, init, hash_item, index, rank, update, add, add_hashed, zip_max, merge, reset,
}
use sketchlog.Sketch.Hll.Rho.{rank_bounds}

-- What `StreamLog.from_dict` asks of stored registers.
pub record IsHll (s : Hll) : Type 0 where
  pub low : 4 ≤ s.p
  pub high : s.p ≤ 18
  pub count : length s.registers ≡ 2 ^ s.p
  pub ranks : All (λ r. r ≤ 64 - s.p + 1) s.registers

All-set :
    {bound : ℕ} (xs : List ℕ) (i v : ℕ)
    → v ≤ bound
    → All (λ r. r ≤ bound) xs
    → All (λ r. r ≤ bound) (set xs i v)
All-set [] i v p h = tt
All-set (x ∷ xs) zero v p h = (p, h.1)
All-set (x ∷ xs) (suc i) v p h = (h.0, All-set xs i v p h.1)

All-replicate : (bound n : ℕ) → All (λ r. r ≤ bound) (replicate n 0)
All-replicate bound zero = tt
All-replicate bound (suc n) = (omega arith, All-replicate bound n)

-- Every precision that the constructor accepts gives a valid sketch.
pub init-IsHll : (p : ℤ) (s : Hll) → init p ≡ ok s → IsHll s
unfolding init
init-IsHll (negsuc n) s h = cc
init-IsHll (pos p) s h = elim (Bool-cases (leb 4 p)) [
  | inr small ↦ absurd (ground arith)
  | inl low ↦ elim (Bool-cases (leb p 18)) [
    | inr large ↦ absurd (ground arith)
    | inl high ↦ subst IsHll (ground arith) (record {
      low = ground arith;
      high = ground arith;
      count = length-replicate (2 ^ p) 0;
      ranks = All-replicate (64 - p + 1) (2 ^ p);
    })
  ]
]

update-IsHll : (s : Hll) (h : ℕ) → IsHll s → IsHll (update s h)
unfolding update
update-IsHll s h v = elim (Bool-cases (ltb (get_or s.registers (index s h) 0) (rank s h))) [
  | inr old ↦ rw old v
  | inl new ↦ rw new (record {
    low = v.low;
    high = v.high;
    count = omega (arith, length-set s.registers (index s h) (min (rank s h) 255), v.count);
    ranks =
        All-set s.registers (index s h) _ (omega (arith, (rank_bounds s h (omega arith)).1))
          v.ranks;
  })
]

-- `add` keeps a valid sketch valid, whether it returns or raises: `2 ^ p` registers, none above 64
-- - p + 1.
pub add-IsHll : (item : Item) (s : Hll) → IsHll s → IsHll (add item s).1
unfolding add
add-IsHll item s v = go (hash_item item)
  where
    go : (r : Result HllError ℕ) → IsHll (add_hashed r s).1
    go (ok h) = update-IsHll s h v
    go (err e) = v

length-zip_max : (xs ys : List ℕ) → length xs ≡ length ys → length (zip_max xs ys) ≡ length xs
unfolding zip_max
length-zip_max [] ys h = refl
length-zip_max (x ∷ xs) [] h = absurd (omega arith)
length-zip_max (x ∷ xs) (y ∷ ys) h = ap suc (length-zip_max xs ys (omega arith))

All-zip_max :
    (bound : ℕ) (xs ys : List ℕ)
    → All (λ r. r ≤ bound) xs
    → All (λ r. r ≤ bound) ys
    → All (λ r. r ≤ bound) (zip_max xs ys)
unfolding zip_max
All-zip_max bound [] ys h k = tt
All-zip_max bound (x ∷ xs) [] h k = tt
All-zip_max bound (x ∷ xs) (y ∷ ys) h k = (omega (arith, h.0, k.0), All-zip_max bound xs ys h.1 k.1)

-- The merge of two valid sketches of one precision is valid.
pub merge-IsHll : (s t : Hll) → s.p ≡ t.p → IsHll s → IsHll t → IsHll (merge s t)
unfolding merge
merge-IsHll s t same v w = record {
  low = v.low;
  high = v.high;
  count =
      length-zip_max s.registers t.registers (v.count ∙ ap (λ p. 2 ^ p) same ∙ sym w.count)
      ∙ v.count;
  ranks = All-zip_max (64 - s.p + 1) s.registers t.registers v.ranks (rw same w.ranks);
}

pub reset-IsHll : (s : Hll) → IsHll s → IsHll (reset s)
unfolding reset
reset-IsHll s v = record {
  low = v.low;
  high = v.high;
  count = length-replicate (2 ^ s.p) 0;
  ranks = All-replicate (64 - s.p + 1) (2 ^ s.p);
}
