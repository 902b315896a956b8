-- ===== src/Sketch/Ddsketch/Union.antt =====
-- Temporary buckets added to a store: the size, the counts and the total of the result.
use sketchlog.Prelude.{
  ℕ, suc, ◌+◌, ◌<◌, ◌≡◌, refl, false, [], ◌∷◌, arith, ltb, if◌then◌else◌, length,
}
use sketchlog.Prelude.Int.{ℤ}
use sketchlog.Prelude.Key.{int_key, ◌==◌}
use sketchlog.Prelude.Dict
use sketchlog.Prelude.Dict.{IsDict}
use sketchlog.Sketch.Count.{max_int64}
use sketchlog.Sketch.Bins.{
  Bins, bump, bump_all, total, IsCounts, total-bump, bump-IsCounts, bump-IsDict, length-bump,
  get_or-bump,
}
use sketchlog.Sketch.Ddsketch.Batch.{union_size, any_over}

contains-bump :
    (idx j : ℤ) (n : ℕ) (store : Bins)
    → (idx == j) ≡ false
    → Dict.contains j (bump idx n store) ≡ Dict.contains j store
unfolding bump
contains-bump idx j n store other = rw (Dict.contains-put idx j _ store, other)

-- The key of a bucket that is not in a dictionary is none of its keys.
pub absent :
    (idx j : ℤ) (m : ℕ) (tmp : Bins)
    → Dict.contains idx ((j, m) ∷ tmp) ≡ false
    → ((idx == j) ≡ false) × (Dict.contains idx tmp ≡ false)
unfolding Dict.contains
absent idx j m tmp h = ground (arith, int_key.beq_iff idx j, int_key.beq_iff j idx)

any_over-bump :
    (idx : ℤ) (n : ℕ) (store tmp : Bins)
    → Dict.contains idx tmp ≡ false
    → any_over (bump idx n store) tmp ≡ any_over store tmp
unfolding any_over
any_over-bump idx n store [] h = refl
any_over-bump idx n store ((j, m) ∷ tmp) h =
    let (other, rest) = absent idx j m tmp h in
    rw (get_or-bump idx j n store, other, any_over-bump idx n store tmp rest)

union_size-bump :
    (idx : ℤ) (n : ℕ) (store tmp : Bins)
    → Dict.contains idx tmp ≡ false
    → union_size (bump idx n store) tmp
      ≡ (if Dict.contains idx store then union_size store tmp else suc (union_size store tmp))
unfolding union_size
union_size-bump idx n store [] h = length-bump idx n store
union_size-bump idx n store ((j, m) ∷ tmp) h =
    let (other, rest) = absent idx j m tmp h in
    rw (contains-bump idx j n store other, union_size-bump idx n store tmp rest) (ground arith)

-- The counts of temporary buckets are positive.
abbrev pub IsPositive : Bins → Type 0
IsPositive [] = Unit
IsPositive ((k, n) ∷ store) = (0 < n) × IsPositive store

pub record IsUnion (store tmp new : Bins) : Type 0 where
  pub distinct : IsDict new
  pub counts : IsCounts max_int64 new
  pub sums : total new ≡ total store + total tmp
  pub size : length new ≡ union_size store tmp

pub bump_all-IsUnion :
    (tmp store : Bins)
    → IsDict tmp
    → IsPositive tmp
    → IsDict store
    → IsCounts max_int64 store
    → any_over store tmp ≡ false
    → IsUnion store tmp (bump_all tmp store)
unfolding bump_all union_size
bump_all-IsUnion [] store d p e c h = record {
  distinct = e;
  counts = c;
  sums = omega arith;
  size = refl;
}
bump_all-IsUnion ((idx, n) ∷ tmp) store d p e c h =
    let over : (ltb max_int64 (Dict.get_or idx 0 store + n) ≡ false)
        × (any_over store tmp ≡ false) =
      unfold any_over in ground arith in
    let u =
      bump_all-IsUnion tmp (bump idx n store) d.1 p.1 (bump-IsDict idx n store e)
        (bump-IsCounts max_int64 idx n store p.0 (ground arith) c)
        (rw (any_over-bump idx n store tmp d.0) over.1) in
    record {
      distinct = u.distinct;
      counts = u.counts;
      sums = omega (arith, u.sums, total-bump idx n store);
      size = ground (arith, u.size, union_size-bump idx n store tmp d.0);
    }
