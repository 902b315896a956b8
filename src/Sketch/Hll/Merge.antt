-- ===== src/Sketch/Hll/Merge.antt =====
-- What a HyperLogLog sketch remembers of a stream: neither the order of the items nor how often
-- each came, and the merge of two sketches is the sketch of both streams.
use Prim.Native.Nat.{min, max}
use mathlib.Core.Logic.Or
use mathlib.Core.List.{Mem, Subset, not-mem-nil, mem-cons, mem-cons_self, mem-cons_of_mem}
use sketchlog.Sketch.Hash.{word}
use sketchlog.Prelude.{
  ◌*◌, ◌/◌, ◌%◌, ℕ, zero, suc, ◌-◌, ◌^◌, ◌≤◌, ◌≡◌, refl, sym, ◌∙◌, ap, List, [], ◌∷◌, ◌++◌, arith,
  ltb, length, get_or, set, if◌then◌else◌, replicate,
}
use sketchlog.Prelude.Exec.{Result, ok, err}
use sketchlog.Sketch.Hll.{
  rho, Hll, HllError, Item, hash_item, index, rank, update, add, add_hashed, zip_max, merge, reset,
}
use sketchlog.Sketch.Hll.Rho.{rank_bounds}
use sketchlog.Sketch.Hll.Valid.{IsHll, add-IsHll, reset-IsHll}

-- One register raised to a rank.
raise_at : List ℕ → ℕ → ℕ → List ℕ
raise_at [] i r = []
raise_at (x ∷ xs) zero r = max x r ∷ xs
raise_at (x ∷ xs) (suc i) r = x ∷ raise_at xs i r

set-raise_at :
    (xs : List ℕ) (i r : ℕ) → (if ltb (get_or xs i 0) r then set xs i r else xs) ≡ raise_at xs i r
unfolding raise_at
set-raise_at [] i r = ground arith
set-raise_at (x ∷ xs) zero r = ground arith
set-raise_at (x ∷ xs) (suc i) r = ground (arith, set-raise_at xs i r)

raise_at_twice : (xs : List ℕ) (i r : ℕ) → raise_at (raise_at xs i r) i r ≡ raise_at xs i r
unfolding raise_at
raise_at_twice [] i r = refl
raise_at_twice (x ∷ xs) zero r = ground arith
raise_at_twice (x ∷ xs) (suc i) r = ap (◌∷◌ x) (raise_at_twice xs i r)

raise_at_comm :
    (xs : List ℕ) (i j q r : ℕ) → raise_at (raise_at xs i q) j r ≡ raise_at (raise_at xs j r) i q
unfolding raise_at
raise_at_comm [] i j q r = refl
raise_at_comm (x ∷ xs) zero zero q r = ground arith
raise_at_comm (x ∷ xs) zero (suc j) q r = refl
raise_at_comm (x ∷ xs) (suc i) zero q r = refl
raise_at_comm (x ∷ xs) (suc i) (suc j) q r = ap (◌∷◌ x) (raise_at_comm xs i j q r)

zip_max-raise_at :
    (xs ys : List ℕ) (i r : ℕ) → zip_max xs (raise_at ys i r) ≡ raise_at (zip_max xs ys) i r
unfolding zip_max raise_at
zip_max-raise_at [] ys i r = refl
zip_max-raise_at (x ∷ xs) [] i r = refl
zip_max-raise_at (x ∷ xs) (y ∷ ys) zero r = ground arith
zip_max-raise_at (x ∷ xs) (y ∷ ys) (suc i) r = ap (◌∷◌ (max x y)) (zip_max-raise_at xs ys i r)

abbrev raised : Hll → ℕ → Hll
raised s h = record s { registers = raise_at s.registers (index s h) (rank s h) }

update_lem : (s : Hll) (h : ℕ) → s.p ≤ 18 → update s h ≡ raised s h
unfolding update
update_lem s h high =
    let small : min (rank s h) 255 ≡ rank s h = omega (arith, (rank_bounds s h (omega arith)).1) in
    rw small (ground (arith, set-raise_at s.registers (index s h) (rank s h)))

update_twice : (s : Hll) (a b : ℕ) → s.p ≤ 18 → update (update s a) b ≡ raised (raised s a) b
update_twice s a b h = ap (λ t. update t b) (update_lem s a h) ∙ update_lem (raised s a) b h

update_comm : (s : Hll) (a b : ℕ) → s.p ≤ 18 → update (update s a) b ≡ update (update s b) a
unfolding index rank
update_comm s a b h =
    update_twice s a b h
    ∙ ap (λ regs. record s { registers = regs })
        (raise_at_comm s.registers (index s a) (index s b) (rank s a) (rank s b))
    ∙ sym (update_twice s b a h)

update_idem : (s : Hll) (a : ℕ) → s.p ≤ 18 → update (update s a) a ≡ update s a
unfolding index rank
update_idem s a h =
    update_twice s a a h
    ∙ ap (λ regs. record s { registers = regs }) (raise_at_twice s.registers (index s a) (rank s a))
    ∙ sym (update_lem s a h)

merge-update :
    (s t : Hll) (a : ℕ) → s.p ≡ t.p → s.p ≤ 18 → merge s (update t a) ≡ update (merge s t) a
unfolding index rank merge
merge-update s t a same h =
    ap (merge s) (update_lem t a (omega arith))
    ∙ ap (λ regs. record s { registers = regs })
        (zip_max-raise_at s.registers t.registers (index t a) (rank t a)
          ∙ ap
              (λ p.
                raise_at (zip_max s.registers t.registers) (a / 2 ^ (64 - p))
                  (rho (a * 2 ^ p % word) p))
              (sym same))
    ∙ sym (update_lem (merge s t) a h)

-- The sketch after an `add`, whether it returned or raised, and after a stream of them.
abbrev pub step : Hll → Item → Hll
step s item = (add item s).1

pub add_all : List Item → Hll → Hll
add_all [] s = s
add_all (item ∷ items) s = add_all items (step s item)

p-update : (s : Hll) (h : ℕ) → (update s h).p ≡ s.p
unfolding update
p-update s h = ground arith

p-step : (s : Hll) (item : Item) → (step s item).p ≡ s.p
unfolding add
p-step s item = go (hash_item item)
  where
    go : (r : Result HllError ℕ) → (add_hashed r s).1.p ≡ s.p
    go (ok h) = p-update s h
    go (err e) = refl

step_comm : (s : Hll) (a b : Item) → s.p ≤ 18 → step (step s a) b ≡ step (step s b) a
unfolding add
step_comm s a b h = go (hash_item a) (hash_item b)
  where
    go :
        (q r : Result HllError ℕ)
        → (add_hashed r (add_hashed q s).1).1 ≡ (add_hashed q (add_hashed r s).1).1
    go (err e) r = refl
    go (ok x) (err e) = refl
    go (ok x) (ok y) = update_comm s x y h

step_idem : (s : Hll) (a : Item) → s.p ≤ 18 → step (step s a) a ≡ step s a
unfolding add
step_idem s a h = go (hash_item a)
  where
    go : (r : Result HllError ℕ) → (add_hashed r (add_hashed r s).1).1 ≡ (add_hashed r s).1
    go (err e) = refl
    go (ok x) = update_idem s x h

merge-step : (s t : Hll) (a : Item) → s.p ≡ t.p → s.p ≤ 18 → merge s (step t a) ≡ step (merge s t) a
unfolding add
merge-step s t a same h = go (hash_item a)
  where
    go : (r : Result HllError ℕ) → merge s (add_hashed r t).1 ≡ (add_hashed r (merge s t)).1
    go (err e) = refl
    go (ok x) = merge-update s t x same h

-- One `add` can be moved behind a stream.
add_all-step :
    (items : List Item) (s : Hll) (a : Item)
    → s.p ≤ 18
    → add_all items (step s a) ≡ step (add_all items s) a
unfolding add_all
add_all-step [] s a h = refl
add_all-step (item ∷ items) s a h =
    ap (add_all items) (step_comm s a item h)
    ∙ add_all-step items (step s item) a (omega (arith, p-step s item))

merge-add_all :
    (items : List Item) (s t : Hll)
    → s.p ≡ t.p
    → s.p ≤ 18
    → merge s (add_all items t) ≡ add_all items (merge s t)
unfolding add_all
merge-add_all [] s t same h = refl
merge-add_all (item ∷ items) s t same h =
    merge-add_all items s (step t item) (same ∙ sym (p-step t item)) h
    ∙ ap (add_all items) (merge-step s t item same h)

p-add_all : (items : List Item) (s : Hll) → (add_all items s).p ≡ s.p
unfolding add_all
p-add_all [] s = refl
p-add_all (item ∷ items) s = p-add_all items (step s item) ∙ p-step s item

zip_max-zeros : (xs : List ℕ) (n : ℕ) → length xs ≡ n → zip_max xs (replicate n 0) ≡ xs
unfolding zip_max
zip_max-zeros [] zero h = refl
zip_max-zeros [] (suc n) h = absurd (omega arith)
zip_max-zeros (x ∷ xs) zero h = absurd (omega arith)
zip_max-zeros (x ∷ xs) (suc n) h =
    let e : max x 0 ≡ x = omega arith in rw (e, zip_max-zeros xs n (omega arith))

add_all-append : (xs ys : List Item) (s : Hll) → add_all (xs ++ ys) s ≡ add_all ys (add_all xs s)
unfolding add_all
add_all-append [] ys s = refl
add_all-append (x ∷ xs) ys s = add_all-append xs ys (step s x)

add_all-IsHll : (items : List Item) (s : Hll) → IsHll s → IsHll (add_all items s)
unfolding add_all
add_all-IsHll [] s v = v
add_all-IsHll (item ∷ items) s v = add_all-IsHll items (step s item) (add-IsHll item s v)

merge-reset : (s t : Hll) → s.p ≡ (reset t).p → IsHll s → merge s (reset t) ≡ s
unfolding merge reset
merge-reset s t same v =
    ap (λ regs. record s { registers = regs })
      (zip_max-zeros s.registers (2 ^ t.p) (v.count ∙ ap (λ p. 2 ^ p) same))

-- The merge of the sketches of two streams, both from the empty sketch of one valid precision, is
-- the sketch of the two streams one after the other.
pub merge-streams :
    (s : Hll) (xs ys : List Item)
    → IsHll s
    → merge (add_all xs (reset s)) (add_all ys (reset s)) ≡ add_all (xs ++ ys) (reset s)
merge-streams s xs ys v =
    let r = reset-IsHll s v in
    let one = add_all-IsHll xs (reset s) r in
    merge-add_all ys (add_all xs (reset s)) (reset s) (p-add_all xs (reset s)) one.high
    ∙ ap (add_all ys) (merge-reset (add_all xs (reset s)) s (p-add_all xs (reset s)) one)
    ∙ sym (add_all-append xs ys (reset s))

-- A stream that contains an item has recorded it.
absorb :
    (items : List Item) (s : Hll) (a : Item)
    → s.p ≤ 18
    → Mem a items
    → step (add_all items s) a ≡ add_all items s
unfolding add_all
absorb [] s a h m = absurd (not-mem-nil m)
absorb (x ∷ items) s a h m =
    Or.elim (hlevel) (mem-cons.0 m)
      (λ e. rw e (
        sym (add_all-step items (step s x) x (omega (arith, p-step s x)))
        ∙ ap (add_all items) (step_idem s x h)))
      (λ rest. absorb items (step s x) a (omega (arith, p-step s x)) rest)

absorb_all :
    (items given : List Item) (s : Hll)
    → s.p ≤ 18
    → Subset items given
    → add_all items (add_all given s) ≡ add_all given s
unfolding add_all
absorb_all [] given s h inside = refl
absorb_all (x ∷ items) given s h inside =
    ap (add_all items) (absorb given s x h (inside x mem-cons_self))
    ∙ absorb_all items given s h (λ a m. inside a (mem-cons_of_mem x m))

add_all_comm :
    (xs ys : List Item) (s : Hll) → s.p ≤ 18 → add_all xs (add_all ys s) ≡ add_all ys (add_all xs s)
unfolding add_all
add_all_comm [] ys s h = refl
add_all_comm (x ∷ xs) ys s h =
    ap (add_all xs) (sym (add_all-step ys s x h))
    ∙ add_all_comm xs ys (step s x) (omega (arith, p-step s x))

-- Two streams with the same items, in whatever order and however often, leave the same sketch,
-- when they start from one valid sketch.
pub add_all-same_items :
    (xs ys : List Item) (s : Hll)
    → IsHll s
    → Subset xs ys
    → Subset ys xs
    → add_all xs s ≡ add_all ys s
add_all-same_items xs ys s v there back =
    sym (absorb_all ys xs s v.high back)
    ∙ add_all_comm ys xs s v.high
    ∙ absorb_all xs ys s v.high there
