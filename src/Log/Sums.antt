-- ===== src/Log/Sums.antt =====
-- `merge` and the frequencies of events: no estimate falls below the sum of the two.
use sketchlog.Log.Valid.{IsStreamLog, Compatible, plan-Ensures}
use sketchlog.Log.{
  StreamLog, Parts, event_count, merged, merge, merge_store, plan, plan_parts, commit_merge,
}
use sketchlog.Sketch.Cms.{seeds_from}
use sketchlog.Sketch.Cms
use sketchlog.Sketch.Bins.{Bins}
use sketchlog.Sketch.Hash.{EventKey}
use sketchlog.Prelude.Float.{Float}
use sketchlog.Prelude.{sym, ap, ◌∙◌}
use sketchlog.Log.Merge.{IsTable}
use sketchlog.Prelude.{
  ℕ, zero, suc, ◌+◌, ◌≤◌, ◌≡◌, refl, Option, none, some, List, [], ◌∷◌, arith, length, get_or, ltb,
}
use sketchlog.Prelude.Exec.{Result, ok, err, bind, Ensures, Ensures-refuse_if, Ensures-bind}
use sketchlog.Sketch.Count.{max_int64}
use sketchlog.Sketch.Cms.{least, estimate_from}
use sketchlog.Log.{LogError, merge_row, merge_table, cell_overflow}

-- Every cell of a merged row is the sum of two.
abbrev IsRowSum : List ℕ → List ℕ → List ℕ → Type 0
IsRowSum row other merged = (c : ℕ) → get_or row c 0 + get_or other c 0 ≡ get_or merged c 0

merge_row-IsRowSum :
    (row other : List ℕ)
    → length row ≡ length other
    → Ensures (IsRowSum row other) (merge_row row other)
unfolding merge_row
merge_row-IsRowSum [] [] e = λ c. ground arith
merge_row-IsRowSum [] (right ∷ other) e = absurd (omega arith)
merge_row-IsRowSum (left ∷ row) [] e = absurd (omega arith)
merge_row-IsRowSum (left ∷ row) (right ∷ other) e =
    Ensures-refuse_if (IsRowSum (left ∷ row) (right ∷ other)) (ltb max_int64 (left + right))
      cell_overflow (bind (merge_row row other) (λ rest. ok ((left + right) ∷ rest)))
      λ _.
        Ensures-bind (IsRowSum row other) (IsRowSum (left ∷ row) (right ∷ other))
          (merge_row row other) (λ rest. ok ((left + right) ∷ rest))
          (merge_row-IsRowSum row other (omega arith)) λ rest sums. step rest sums
  where
    step :
        (rest : List ℕ)
        → IsRowSum row other rest
        → IsRowSum (left ∷ row) (right ∷ other) ((left + right) ∷ rest)
    step rest sums zero = refl
    step rest sums (suc c) = sums c

-- The third value is at least the sum of the first two.
abbrev AtLeast : Option ℕ → Option ℕ → Option ℕ → Type 0
AtLeast none none none = Unit
AtLeast (some a) (some b) (some c) = a + b ≤ c
AtLeast _ _ _ = 1 ≤ 0

AtLeast-least :
    (a b c : Option ℕ) (x y z : ℕ) → AtLeast a b c → x + y ≡ z → least a x + least b y ≤ least c z
AtLeast-least none none none x y z h e = omega arith
AtLeast-least (some a) (some b) (some c) x y z h e = omega arith
AtLeast-least _ _ _ x y z h e = ground arith

abbrev IsTableSum : List (List ℕ) → List (List ℕ) → List (List ℕ) → Type 0
IsTableSum rows others merged =
    (cols : List ℕ) (a b c : Option ℕ)
    → AtLeast a b c
    → AtLeast (estimate_from a rows cols) (estimate_from b others cols)
        (estimate_from c merged cols)

merge_table-IsTableSum :
    (width depth a b : ℕ) (rows others : List (List ℕ))
    → IsTable width depth a rows
    → IsTable width depth b others
    → Ensures (IsTableSum rows others) (merge_table rows others)
unfolding merge_table estimate_from
merge_table-IsTableSum width depth a b [] [] h k = λ cols x y z o. o
merge_table-IsTableSum width depth a b [] (other ∷ others) h k = absurd (omega (arith, h.0, k.0))
merge_table-IsTableSum width depth a b (row ∷ rows) [] h k = absurd (omega (arith, h.0, k.0))
merge_table-IsTableSum width depth a b (row ∷ rows) (other ∷ others) h k =
    Ensures-bind (IsRowSum row other) (IsTableSum (row ∷ rows) (other ∷ others))
      (merge_row row other) (λ merged. bind (merge_table rows others) (λ rest. ok (merged ∷ rest)))
      (merge_row-IsRowSum row other (omega (arith, h.1.0.0, k.1.0.0)))
      λ merged sums.
        Ensures-bind (IsTableSum rows others) (IsTableSum (row ∷ rows) (other ∷ others))
          (merge_table rows others) (λ rest. ok (merged ∷ rest))
          (merge_table-IsTableSum width (length rows) a b rows others (refl, h.1.1)
            (omega (arith, h.0, k.0), k.1.1))
          λ rest tables. step merged rest sums tables
  where
    step :
        (merged : List ℕ) (rest : List (List ℕ))
        → IsRowSum row other merged
        → IsTableSum rows others rest
        → IsTableSum (row ∷ rows) (other ∷ others) (merged ∷ rest)
    step merged rest sums tables [] x y z o = o
    step merged rest sums tables (c ∷ cols) x y z o =
        tables cols (some (least x (get_or row c 0))) (some (least y (get_or other c 0)))
          (some (least z (get_or merged c 0)))
          (AtLeast-least x y z (get_or row c 0) (get_or other c 0) (get_or merged c 0) o (sums c))

module _ (f : Float) where
  open f use {F}

  -- What the merged log says of every event.
  IsCountSum : StreamLog F → StreamLog F → Parts → Type 0
  IsCountSum s t parts =
      (name : EventKey)
      → AtLeast (event_count f s name) (event_count f t name)
          (event_count f (merged f s t parts) name)

  plan_parts-IsCountSum :
      (s t : StreamLog F)
      → IsStreamLog s
      → IsStreamLog t
      → Compatible s t
      → Ensures (IsCountSum s t) (plan_parts f s t)
  unfolding plan_parts IsCountSum event_count merged Cms.estimate Cms.columns
  plan_parts-IsCountSum s t v w c =
      let any = λ (store : Bins). Unit in
      let seeds : t.events.seeds ≡ s.events.seeds =
        w.events.seeded ∙ ap (λ d. seeds_from d 42) (sym c.depth) ∙ sym v.events.seeded in
      Ensures-bind any (IsCountSum s t) (merge_store s.latency.positive t.latency.positive) _
        (always (merge_store s.latency.positive t.latency.positive))
        λ positive _.
          Ensures-bind any (IsCountSum s t) (merge_store s.latency.negative t.latency.negative) _
            (always (merge_store s.latency.negative t.latency.negative))
            λ negative _.
              Ensures-bind (IsTableSum s.events.table t.events.table) (IsCountSum s t)
                (merge_table s.events.table t.events.table) _
                (merge_table-IsTableSum s.events.width s.events.depth s.events.total t.events.total
                  s.events.table t.events.table (v.events.tall, v.events.rows)
                  (omega (arith, w.events.tall, c.depth), rw c.width w.events.rows))
                λ table sums name.
                  rw (seeds, ← c.width)
                    (sums (Cms.columns s.events (Cms.key_of name)) none none none tt)
    where
      always : (r : Result LogError Bins) → Ensures (λ store. Unit) r
      always (ok a) = tt
      always (err e) = tt

  -- A `merge` of two valid logs that returns gives every event an estimate that is at least the sum
  -- of its estimates in the two logs.
  pub merge-event_count :
      (s t : StreamLog F) (name : EventKey) (a b : ℕ)
      → IsStreamLog s
      → IsStreamLog t
      → (merge f t s).0 ≡ ok tt
      → event_count f s name ≡ some a
      → event_count f t name ≡ some b
      → (c : ℕ) × (event_count f (merge f t s).1 name ≡ some c) × (a + b ≤ c)
  unfolding merge IsCountSum
  merge-event_count s t name a b v w done known_s known_t =
      go (plan f s t) (plan-Ensures f s t (IsCountSum s t) (plan_parts-IsCountSum s t v w)) done
    where
      pick : (o : Option ℕ) → AtLeast (some a) (some b) o → (c : ℕ) × (o ≡ some c) × (a + b ≤ c)
      pick none h = absurd (omega arith)
      pick (some c) h = (c, refl, h)

      go :
          (r : Result LogError Parts)
          → Ensures (IsCountSum s t) r
          → (commit_merge f s t r).0 ≡ ok tt
          → (c : ℕ) × (event_count f (commit_merge f s t r).1 name ≡ some c) × (a + b ≤ c)
      go (err e) h d = cc
      go (ok parts) h d = pick _ (rw (known_s, known_t) at (h name))
