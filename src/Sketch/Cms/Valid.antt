-- ===== src/Sketch/Cms/Valid.antt =====
-- The invariant of the Count-Min sketch, kept by every method and on every branch of `add`.
use sketchlog.Prelude.{◌∙◌}
use native.Mathlib.Nat.{mod-lt}
use mathlib.Core.Path.{subst}
use sketchlog.Prelude.{
  ◌⊎◌, ℕ, zero, suc, ◌+◌, ◌-◌, ◌≤◌, ◌<◌, ◌%◌, ◌≡◌, refl, ap, not, List, [], ◌∷◌, map, arith, ltb,
  length, sum, All, replicate, length-map, length-replicate, if◌then◌else◌, Bool-cases, inl, inr,
}
use sketchlog.Prelude.Int.{ℤ, pos, negsuc}
use sketchlog.Prelude.Exec.{ok, err}
use sketchlog.Sketch.Hash.{EventKey, hash}
use sketchlog.Sketch.Count.{Count, int, other, max_int64, is_positive, amount}
use sketchlog.Sketch.Cms.{
  Cms, CmsError, not_positive, count_capacity, total_overflow, init, seeds_from, key_of, columns,
  bump, add_checked, add, reset, empty_table,
}
use sketchlog.Sketch.Cms.Bump.{IsRow, bump-IsRow, length-bump, any_above-false}

-- The shape is what `StreamLog.from_dict` asks of a stored table.
pub record IsCms (s : Cms) : Type 0 where
  pub wide : 0 < s.width
  pub deep : 0 < s.depth
  pub seeded : s.seeds ≡ seeds_from s.depth 42
  pub tall : length s.table ≡ s.depth
  pub rows : All (IsRow s.width s.total) s.table
  pub fits : s.total ≤ max_int64

length-seeds_from : (depth state : ℕ) → length (seeds_from depth state) ≡ depth
unfolding seeds_from
length-seeds_from zero state = refl
length-seeds_from (suc depth) state = ap suc (length-seeds_from depth _)

columns_inside :
    (width : ℕ) (key : ℤ) (seeds : List ℕ)
    → 0 < width
    → All (λ c. c < width) (map (λ seed. hash key seed % width) seeds)
columns_inside width key [] p = tt
columns_inside width key (x ∷ seeds) p = (mod-lt _ p, columns_inside width key seeds p)

module _ {s : Cms} (v : IsCms s) (key : ℤ) where
  pub columns-inside : All (λ c. c < s.width) (columns s key)
  unfolding columns
  columns-inside = columns_inside s.width key s.seeds v.wide

  pub length-columns : length s.table ≡ length (columns s key)
  unfolding columns
  length-columns =
      let seeds = ap length v.seeded ∙ length-seeds_from s.depth 42 in
      omega (arith, v.tall, seeds, length-map s.seeds (λ seed. hash key seed % s.width))

sum-replicate : (n : ℕ) → sum (replicate n 0) ≡ 0
sum-replicate zero = refl
sum-replicate (suc n) = omega (arith, sum-replicate n)

empty_rows : (width depth : ℕ) → All (IsRow width 0) (empty_table width depth)
empty_rows width zero = tt
empty_rows width (suc depth) =
    ((length-replicate width 0, sum-replicate width), empty_rows width depth)

abbrev fresh : ℕ → ℕ → Cms
fresh w d = record {
  width = suc w;
  depth = suc d;
  table = empty_table (suc w) (suc d);
  total = 0;
  seeds = seeds_from (suc d) 42;
}

fresh-IsCms : (w d : ℕ) → IsCms (fresh w d)
fresh-IsCms w d = record {
  wide = omega arith;
  deep = omega arith;
  seeded = refl;
  tall = length-replicate (suc d) (replicate (suc w) 0);
  rows = empty_rows (suc w) (suc d);
  fits = omega arith;
}

-- Every sketch that the constructor accepts is valid.
pub init-IsCms : (width depth : ℤ) (s : Cms) → init width depth ≡ ok s → IsCms s
unfolding init
init-IsCms (pos (suc w)) (pos (suc d)) s h = subst IsCms (cc) (fresh-IsCms w d)
init-IsCms _ _ s h = cc

pub reset-IsCms : (s : Cms) → IsCms s → IsCms (reset s)
unfolding reset
reset-IsCms s v = record {
  wide = v.wide;
  deep = v.deep;
  seeded = v.seeded;
  tall = length-replicate s.depth _;
  rows = empty_rows s.width s.depth;
  fits = omega arith;
}

-- What `add` of `n` does to the sketch when it returns.
abbrev pub added : Cms → ℤ → ℕ → Cms
added s key n = record s { table = bump s.table (columns s key) n; total = s.total + n }

pub added-IsCms :
    (s : Cms) (key : ℤ) (n : ℕ) → IsCms s → s.total + n ≤ max_int64 → IsCms (added s key n)
added-IsCms s key n v h = record {
  wide = v.wide;
  deep = v.deep;
  seeded = v.seeded;
  tall = omega (arith, length-bump s.table (columns s key) n, v.tall);
  rows =
      bump-IsRow s.width s.total n s.table (columns s key) (length-columns v key)
        (columns-inside v key) v.rows;
  fits = h;
}

-- On a valid sketch `add` either raises with the sketch unchanged, for one of three reasons, or
-- adds the count; the check of the single cells is never the one that fails.
pub add_cases :
    (item : EventKey) (n : ℤ) (s : Cms)
    → IsCms s
    → add item (int n) s ≡ (
        if not (is_positive n)
        then (err not_positive, s)
        else if ltb max_int64 (amount n)
        then (err count_capacity, s)
        else if ltb max_int64 (s.total + amount n)
        then (err total_overflow, s)
        else (ok tt, added s (key_of item) (amount n)))
unfolding add add_checked
add_cases item n s v = elim (Bool-cases (ltb max_int64 (s.total + amount n))) [
  | inl over ↦ ground arith
  | inr fits ↦ ground (
    arith,
    any_above-false s.width s.total (max_int64 - amount n) s.table (columns s (key_of item))
        (ground arith) v.rows,
  )
]

-- `add` raises and leaves the sketch as it was, or returns and has added its count.
pub add_outcome :
    (item : EventKey) (count : Count) (s : Cms)
    → IsCms s
    → ((e : CmsError) × (add item count s ≡ (err e, s)))
      ⊎ ((n : ℕ) × (count ≡ int (pos n))
          × (s.total + n ≤ max_int64)
          × (add item count s ≡ (ok tt, added s (key_of item) n)))
add_outcome item other s v = inl (not_positive, unfold add in refl)
add_outcome item (int (negsuc n)) s v = inl (not_positive, rw (add_cases item (negsuc n) s v))
add_outcome item (int (pos zero)) s v = inl (not_positive, rw (add_cases item (pos zero) s v))
add_outcome item (int (pos (suc n))) s v = elim (Bool-cases (ltb max_int64 (suc n))) [
  | inl over ↦ inl (count_capacity, rw (add_cases item (pos (suc n)) s v, over))
  | inr small ↦ elim (Bool-cases (ltb max_int64 (s.total + suc n))) [
    | inl over ↦ inl (total_overflow, rw (add_cases item (pos (suc n)) s v, small, over))
    | inr room ↦ inr (suc n, refl, ground arith, rw (add_cases item (pos (suc n)) s v, small, room))
  ]
]

-- `add` keeps the invariant of a valid sketch, whatever the item and the count, and whether it
-- raises or not: the shape of the table, each row with the total as its sum, and the total within
-- an int64.
pub add-IsCms : (item : EventKey) (count : Count) (s : Cms) → IsCms s → IsCms (add item count s).1
add-IsCms item count s v = elim (add_outcome item count s v) [
  | inl (e, raised) ↦ rw raised v
  | inr (n, _, room, returned) ↦ rw returned (added-IsCms s (key_of item) n v room)
]
