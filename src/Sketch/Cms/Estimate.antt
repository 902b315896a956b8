-- ===== src/Sketch/Cms/Estimate.antt =====
-- The guarantee of the Count-Min sketch: an estimate is never below the true count, and never
-- above the total.
use Prim.Native.Nat.{min}
use sketchlog.Prelude.{
  ℕ, suc, ◌+◌, ◌≤◌, ◌<◌, ◌≡◌, refl, Option, none, some, List, [], ◌∷◌, arith, length, get_or,
  get_or-le-sum, All, if◌then◌else◌, Bool-cases, inl, inr,
}
use sketchlog.Prelude.Int.{ℤ, pos}
use sketchlog.Prelude.Key.{◌==◌, int_key}
use sketchlog.Prelude.Exec.{Result, ok, err}
use sketchlog.Sketch.Hash.{EventKey}
use sketchlog.Sketch.Count.{Count, int, other, amount}
use sketchlog.Sketch.Cms.{
  Cms, CmsError, key_of, columns, init, add, estimate, estimate_from, total_count,
}
use sketchlog.Sketch.Cms.Bump.{IsRow, Grown, grow, estimate_from-bump, estimate_from-bump_self}
use sketchlog.Sketch.Cms.Valid.{
  IsCms, added, added-IsCms, add_outcome, columns-inside, length-columns, init-IsCms,
}

-- The estimate of an item grows by exactly the count that is added under its key.
estimate-added_self :
    (s : Cms) (item : EventKey) (n : ℕ)
    → IsCms s
    → estimate (added s (key_of item) n) item ≡ grow n (estimate s item)
unfolding estimate columns
estimate-added_self s item n v =
    estimate_from-bump_self s.width s.total n none s.table (columns s (key_of item))
      (columns-inside v (key_of item)) v.rows

-- The estimate of another item does not fall, and grows by the count at most.
estimate-added :
    (s : Cms) (key : ℤ) (item : EventKey) (n : ℕ)
    → IsCms s
    → Grown n (estimate s item) (estimate (added s key n) item)
unfolding estimate columns
estimate-added s key item n v =
    estimate_from-bump s.width s.total n s.table (columns s key) (columns s (key_of item)) none none
      (length-columns v key) (columns-inside v key) v.rows tt

abbrev pub Call : Type 0
Call = EventKey × Count

-- The calls that returned, as the keys and counts that they added.
abbrev pub Log : Type 0
Log = List (ℤ × ℕ)

abbrev pub tally : ℤ → Log → ℕ
tally k [] = 0
tally k ((j, n) ∷ log) = let rest = tally k log in if j == k then n + rest else rest

abbrev pub added_total : Log → ℕ
added_total [] = 0
added_total ((j, n) ∷ log) = n + added_total log

-- A call that raised has added nothing.
abbrev note : Call → Result CmsError (Unit {0}) → Log → Log
note (item, int n) (ok _) log = (key_of item, amount n) ∷ log
note (item, other) (ok _) log = log
note call (err e) log = log

-- The sketch and the log after a sequence of calls, whether they return or raise.
pub run : List Call → Cms → Log → Cms × Log
run [] s log = (s, log)
run ((item, count) ∷ calls) s log =
    let (r, s') = add item count s in run calls s' (note (item, count) r log)

pub record Covers (s : Cms) (log : Log) : Type 0 where
  pub valid : IsCms s
  pub total : s.total ≡ added_total log
  pub below :
      (item : EventKey)
      → (e : ℕ) × (estimate s item ≡ some e) × (tally (key_of item) log ≤ e) × (e ≤ s.total)

-- The bounds on the estimate of one item.
abbrev Bounds : Cms → EventKey → ℕ → Type 0
Bounds s item n = (e : ℕ) × (estimate s item ≡ some e) × (n ≤ e) × (e ≤ s.total)

Bounds-self :
    (s : Cms) (key : ℤ) (item : EventKey) (n m : ℕ)
    → IsCms s
    → key ≡ key_of item
    → Bounds s item m
    → Bounds (added s key n) item (n + m)
Bounds-self s key item n m v same (e, known, lo, hi) =
    (e + n, rw same (cc (estimate-added_self s item n v, known)), omega arith, omega arith)

Bounds-other :
    (s : Cms) (key : ℤ) (item : EventKey) (n m : ℕ)
    → IsCms s
    → Bounds s item m
    → Bounds (added s key n) item m
Bounds-other s key item n m v (e, known, lo, hi) =
    go (estimate (added s key n) item) refl (rw known at (estimate-added s key item n v))
  where
    go :
        (o : Option ℕ)
        → estimate (added s key n) item ≡ o
        → Grown n (some e) (estimate (added s key n) item)
        → Bounds (added s key n) item m
    go none is g = absurd (rw is at g)
    go (some e') is g =
        let g' : Grown n (some e) (some e') = rw is at g in (e', is, omega arith, omega arith)

Covers-add :
    (item : EventKey) (count : Count) (s : Cms) (log : Log)
    → Covers s log
    → Covers (add item count s).1 (note (item, count) (add item count s).0 log)
Covers-add item count s log c = elim (add_outcome item count s c.valid) [
  | inl (e, raised) ↦ rw raised c
  | inr (n, is, room, returned) ↦
      rw (returned, is)
        (record {
          valid = added-IsCms s (key_of item) n c.valid room;
          total = omega (arith, c.total);
          below = λ other. elim (Bool-cases (key_of item == key_of other)) [
            | inl same ↦ rw same (
                Bounds-self s (key_of item) other n _ c.valid ((int_key.beq_iff _ _).0 same)
                  (c.below other))
            | inr differs ↦
                rw differs (Bounds-other s (key_of item) other n _ c.valid (c.below other))
          ];
        })
]

Covers-run :
    (calls : List Call) (s : Cms) (log : Log)
    → Covers s log
    → Covers (run calls s log).0 (run calls s log).1
unfolding run
Covers-run [] s log c = c
Covers-run ((item, count) ∷ calls) s log c =
    Covers-run calls (add item count s).1 (note (item, count) (add item count s).0 log)
      (Covers-add item count s log c)

-- The minimum over a table of zeros.
estimate_from-zero :
    (rows : List (List ℕ)) (cols : List ℕ) → estimate_from (some 0) rows cols ≡ some 0
unfolding estimate_from
estimate_from-zero [] cols = refl
estimate_from-zero (row ∷ rows) [] = refl
estimate_from-zero (row ∷ rows) (c ∷ cols) =
    let e : min 0 (get_or row c 0) ≡ 0 = omega arith in rw e (estimate_from-zero rows cols)

estimate_from-zeros :
    (width : ℕ) (rows : List (List ℕ)) (cols : List ℕ)
    → length rows ≡ length cols
    → 0 < length rows
    → All (IsRow width 0) rows
    → estimate_from none rows cols ≡ some 0
unfolding estimate_from
estimate_from-zeros width [] cols e p h = absurd (omega arith)
estimate_from-zeros width (row ∷ rows) [] e p h = absurd (omega arith)
estimate_from-zeros width (row ∷ rows) (c ∷ cols) e p h =
    let zero_cell : get_or row c 0 ≡ 0 = omega (arith, get_or-le-sum row c, h.0.1) in
    rw zero_cell (estimate_from-zero rows cols)

pub total-init : (width depth : ℤ) (s : Cms) → init width depth ≡ ok s → s.total ≡ 0
unfolding init
total-init (pos (suc w)) (pos (suc d)) s h = ground arith
total-init _ _ s h = cc

Covers-init : (width depth : ℤ) (s : Cms) → init width depth ≡ ok s → Covers s []
Covers-init width depth s h =
    let v = init-IsCms width depth s h in
    let zero_total = total-init width depth s h in
    record {
      valid = v;
      total = zero_total;
      below = λ item. (
        0,
        unfold estimate in
            estimate_from-zeros s.width s.table (columns s (key_of item))
              (length-columns v (key_of item)) (omega (arith, v.tall, v.deep))
              (rw zero_total at v.rows),
        omega arith,
        omega arith,
      );
    }

-- After any calls of `add` on a new sketch, whether they return or raise, the estimate of an item
-- exists, is at least the sum of the counts that were added under the item's key, and is at most
-- the sum of all counts that were added; that sum is `total_count`.
pub estimate_bounds :
    (width depth : ℤ) (s : Cms) (calls : List Call) (item : EventKey)
    → init width depth ≡ ok s
    → (e : ℕ) × (estimate (run calls s []).0 item ≡ some e)
      × (tally (key_of item) (run calls s []).1 ≤ e)
      × (e ≤ total_count (run calls s []).0)
      × (total_count (run calls s []).0 ≡ added_total (run calls s []).1)
unfolding total_count
estimate_bounds width depth s calls item h =
    let c = Covers-run calls s [] (Covers-init width depth s h) in
    let (e, known, lo, hi) = c.below item in (e, known, lo, hi, c.total)
