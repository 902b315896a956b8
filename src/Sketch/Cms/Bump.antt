-- ===== src/Sketch/Cms/Bump.antt =====
-- The effect of `self._table[i][col] += count` on one row in each position, and on the minimum.
use Prim.Native.Nat.{min}
use sketchlog.Prelude.{
  ℕ, suc, ◌+◌, ◌≤◌, ◌<◌, ◌≡◌, refl, ap, Option, none, some, List, [], ◌∷◌, arith, length, get_or,
  set, sum, All, sum-set, length-set, get_or-set_self, get_or-set_ne, get_or-le-sum, false,
}
use sketchlog.Sketch.Cms.{bump, any_above, least, estimate_from}
use native.Mathlib.Decide.{ℕ_discrete}

-- The shape of a table: rows of `width` cells, whose sum is `total`.
abbrev pub IsRow : ℕ → ℕ → List ℕ → Type 0
IsRow width total row = (length row ≡ width) × (sum row ≡ total)

pub bump-IsRow :
    (width total n : ℕ) (rows : List (List ℕ)) (cols : List ℕ)
    → length rows ≡ length cols
    → All (λ c. c < width) cols
    → All (IsRow width total) rows
    → All (IsRow width (total + n)) (bump rows cols n)
unfolding bump
bump-IsRow width total n [] cols e inside h = tt
bump-IsRow width total n (row ∷ rows) [] e inside h = absurd (omega arith)
bump-IsRow width total n (row ∷ rows) (c ∷ cols) e inside h = (
  (
    omega (arith, length-set row c (get_or row c 0 + n), h.0.0),
    omega (arith, sum-set row c n (omega (arith, h.0.0, inside.0)), h.0.1),
  ),
  bump-IsRow width total n rows cols (omega arith) inside.1 h.1,
)

pub length-bump :
    (rows : List (List ℕ)) (cols : List ℕ) (n : ℕ) → length (bump rows cols n) ≡ length rows
unfolding bump
length-bump [] cols n = refl
length-bump (row ∷ rows) [] n = refl
length-bump (row ∷ rows) (c ∷ cols) n = ap suc (length-bump rows cols n)

-- A cell is at most the total, so the check of the total covers the check of the cells.
pub any_above-false :
    (width total limit : ℕ) (rows : List (List ℕ)) (cols : List ℕ)
    → total ≤ limit
    → All (IsRow width total) rows
    → any_above limit rows cols ≡ false
unfolding any_above
any_above-false width total limit [] cols fits h = refl
any_above-false width total limit (row ∷ rows) [] fits h = refl
any_above-false width total limit (row ∷ rows) (c ∷ cols) fits h =
    ground (arith, get_or-le-sum row c, h.0.1, any_above-false width total limit rows cols fits h.1)

-- The minimum over the same columns grows by exactly `n`.
abbrev pub grow : ℕ → Option ℕ → Option ℕ
grow n none = none
grow n (some m) = some (m + n)

pub estimate_from-bump_self :
    (width total n : ℕ) (acc : Option ℕ) (rows : List (List ℕ)) (cols : List ℕ)
    → All (λ c. c < width) cols
    → All (IsRow width total) rows
    → estimate_from (grow n acc) (bump rows cols n) cols ≡ grow n (estimate_from acc rows cols)
unfolding estimate_from bump
estimate_from-bump_self width total n acc [] cols inside h = refl
estimate_from-bump_self width total n acc (row ∷ rows) [] inside h = refl
estimate_from-bump_self width total n none (row ∷ rows) (c ∷ cols) inside h =
    rw
      (get_or-set_self row c (get_or row c 0 + n) 0 (omega (arith, h.0.0, inside.0)), estimate_from)
      (estimate_from-bump_self width total n (some (get_or row c 0)) rows cols inside.1 h.1)
estimate_from-bump_self width total n (some m) (row ∷ rows) (c ∷ cols) inside h =
    let m' : ℕ = min m (get_or row c 0) in
    let e : min (m + n) (get_or row c 0 + n) ≡ m' + n = omega arith in
    rw
      (
        get_or-set_self row c (get_or row c 0 + n) 0 (omega (arith, h.0.0, inside.0)),
        e,
        estimate_from,
      )
      (estimate_from-bump_self width total n (some m') rows cols inside.1 h.1)

-- Over any columns the minimum does not fall, and grows by `n` at most.
abbrev pub Grown : ℕ → Option ℕ → Option ℕ → Type 0
Grown n none none = Unit
Grown n (some a) (some b) = (a ≤ b) × (b ≤ a + n)
Grown n _ _ = ⊥

cell-set :
    (row : List ℕ) (c d n : ℕ)
    → c < length row
    → (get_or row d 0 ≤ get_or (set row c (get_or row c 0 + n)) d 0)
      × (get_or (set row c (get_or row c 0 + n)) d 0 ≤ get_or row d 0 + n)
cell-set row c d n inside = elim (ℕ_discrete c d) [
  | yes same ↦ rw (← same) (rw (get_or-set_self row c (get_or row c 0 + n) 0 inside) (omega arith))
  | no other ↦ rw (get_or-set_ne row c d (get_or row c 0 + n) 0 other) (omega arith)
]

least-Grown :
    (n : ℕ) (a b : Option ℕ) (x y : ℕ)
    → Grown n a b
    → x ≤ y
    → y ≤ x + n
    → Grown n (some (least a x)) (some (least b y))
least-Grown n none none x y h p q = (p, q)
least-Grown n none (some b) x y h p q = absurd h
least-Grown n (some a) none x y h p q = absurd h
least-Grown n (some a) (some b) x y h p q = omega arith

pub estimate_from-bump :
    (width total n : ℕ) (rows : List (List ℕ)) (cols other : List ℕ) (acc acc' : Option ℕ)
    → length rows ≡ length cols
    → All (λ c. c < width) cols
    → All (IsRow width total) rows
    → Grown n acc acc'
    → Grown n (estimate_from acc rows other) (estimate_from acc' (bump rows cols n) other)
unfolding estimate_from bump
estimate_from-bump width total n [] cols other acc acc' l inside h g = g
estimate_from-bump width total n (row ∷ rows) [] other acc acc' l inside h g = absurd (omega arith)
estimate_from-bump width total n (row ∷ rows) (c ∷ cols) [] acc acc' l inside h g = g
estimate_from-bump width total n (row ∷ rows) (c ∷ cols) (d ∷ other) acc acc' l inside h g =
    let cell = cell-set row c d n (omega (arith, h.0.0, inside.0)) in
    estimate_from-bump width total n rows cols other (some (least acc (get_or row d 0)))
      (some (least acc' (get_or (set row c (get_or row c 0 + n)) d 0))) (omega arith) inside.1 h.1
      (least-Grown n acc acc' _ _ g cell.0 cell.1)
