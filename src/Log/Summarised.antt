-- ===== src/Log/Summarised.antt =====
-- Every StreamLog that the methods can produce summarises some latencies.
use sketchlog.Prelude.{true, false}
use sketchlog.Sketch.Ddsketch.Summary.{Stream, weight, weight-append}
use sketchlog.Prelude.{
  ℕ, ◌<◌, ◌∙◌, lt→ltb, if◌then◌else◌, ◌++◌, ◌∷◌, ◌+◌, ◌≡◌, refl, inl, inr, not, ◌&&◌, ◌||◌, List,
  [], arith, ltb, ◌==◌, Bool-cases,
}
use sketchlog.Prelude.Int.{ℤ, pos}
use sketchlog.Prelude.Exec.{
  Result, ok, err, lift, Ensures, Ensures-unless, Ensures-bind, Ensures-lift,
}
use sketchlog.Prelude.Float.{Float, FloatKeys}
use sketchlog.Sketch.Hash.{EventKey}
use sketchlog.Sketch.Hll.{Item}
use sketchlog.Sketch.Count.{Count, max_uint64, is_positive}
use sketchlog.Sketch.Ddsketch.{Dd, DdError}
use sketchlog.Sketch.Ddsketch
use sketchlog.Sketch.Cms
use sketchlog.Sketch.Hll
use sketchlog.Sketch.Ddsketch.Batch.{add_batch, finite_count}
use sketchlog.Sketch.Ddsketch.Summary.{IsSummary, fresh-IsSummary, reset-IsSummary}
use sketchlog.Sketch.Ddsketch.Joins.{add-IsSummary}
use sketchlog.Sketch.Ddsketch.Batched.{add_batch-IsSummary, finite_values}
use sketchlog.Log
use sketchlog.Log.{StreamLog, LogError, count_latency, count_batch}
use sketchlog.Log.Summary.{HasSummary, merge-HasSummary, after_return}
use sketchlog.Log.Reach.{
  Reachable, start, after_latency, after_latencies, after_event, after_unique, after_reset,
  after_merge, Reachable-IsStreamLog,
}

module _ (f : Float) (laws : FloatKeys f) where
  open f use {F, of_nat, lt, le, is_nan, is_inf, millionth}

  -- A log that summarises other values at the same accuracy.
  abbrev summarised :
      {s t : StreamLog F} (h : HasSummary f s) (ys : Stream F)
      → IsSummary f h.accuracy t.latency ys
      → HasSummary f t
  summarised h ys k = record {
    accuracy = h.accuracy;
    low = h.low;
    high = h.high;
    values = ys;
    summary = k;
  }

  -- What a method leaves of the latencies.
  abbrev with_latency :
      (s t : StreamLog F) → t.latency ≡ s.latency → HasSummary f s → HasSummary f t
  with_latency s t e h = summarised h h.values (rw e (h.summary))

  -- A log that summarises just these values.
  abbrev Summarises : StreamLog F → Stream F → Type 0
  Summarises s xs = (h : HasSummary f s) × (h.values ≡ xs)

  abbrev IsNew : Dd F → Type 0
  IsNew d =
      (accuracy : F) × (le millionth accuracy ≡ true)
      × (lt accuracy (of_nat 1) ≡ true)
      × (d ≡ Ddsketch.fresh f accuracy)

  init-IsNew : (accuracy : F) → Ensures IsNew (Ddsketch.init f accuracy)
  unfolding Ddsketch.init
  init-IsNew accuracy = elim (Bool-cases (le millionth accuracy && lt accuracy (of_nat 1))) [
    | inr other ↦ rw other tt
    | inl fit ↦ rw fit (accuracy, ground arith, ground arith, refl)
  ]

  init-Summarises :
      (accuracy : F) (precision width depth : ℤ)
      → Ensures (λ s. Summarises s []) (Log.init f accuracy precision width depth)
  unfolding Log.init
  init-Summarises accuracy precision width depth =
      Ensures-unless (λ s. Summarises s []) (not (is_positive width) || not (is_positive depth))
        LogError.bad_dimensions _
        (Ensures-unless (λ s. Summarises s []) _ LogError.too_many_cells
          (Log.init_sketches f accuracy precision width depth)
          (Ensures-bind IsNew (λ s. Summarises s [])
            (lift LogError.of_latency (Ddsketch.init f accuracy))
            (Log.init_events f precision width depth)
            (Ensures-lift IsNew LogError.of_latency (Ddsketch.init f accuracy)
              λ d e. rw e at (init-IsNew accuracy))
            λ latency d.
              Ensures-bind (λ _. Unit) (λ s. Summarises s [])
                (lift LogError.of_events (Cms.init width depth)) _
                (anything (lift LogError.of_events (Cms.init width depth)))
                λ events _.
                  Ensures-bind (λ _. Unit) (λ s. Summarises s [])
                    (lift LogError.of_uniques (Hll.init precision)) _
                    (anything (lift LogError.of_uniques (Hll.init precision)))
                    λ uniques _. (
                      record {
                        accuracy = d.0;
                        low = d.1;
                        high = d.2;
                        values = [];
                        summary = rw (d.3) (fresh-IsSummary f d.0);
                      },
                      refl,
                    )))
    where
      anything : {A : Type 0} (r : Result LogError A) → Ensures (λ _. Unit) r
      anything (ok a) = tt
      anything (err e) = tt

  latency-count_latency :
      (s : StreamLog F) (x : Result DdError (Unit {0}) × Dd F)
      → (count_latency f s x).1.latency ≡ x.1
  latency-count_latency s (err e, d) = refl
  latency-count_latency s (ok _, d) = refl

  -- The latencies of a log that has received one: it is there if the call has counted it.
  abbrev pub with_value : F → StreamLog F → StreamLog F → Stream F → Stream F
  with_value value s t xs =
      if ltb s.latency.count t.latency.count then xs ++ (value, 1) ∷ [] else xs

  counted_value :
      (value : F) (s t : StreamLog F) (h : HasSummary f s)
      → IsSummary f h.accuracy t.latency (h.values ++ (value, 1) ∷ [])
      → Summarises t (with_value value s t h.values)
  counted_value value s t h k =
      let more : ltb s.latency.count t.latency.count ≡ true =
        lt→ltb s.latency.count t.latency.count (
          grown (k.counted ∙ weight-append (λ _. true) h.values ((value, 1) ∷ []))
            h.summary.counted) in
      (summarised h _ k, rw more refl)
    where
      grown : {a b w : ℕ} → a ≡ w + weight (λ (_ : F). true) ((value, 1) ∷ []) → b ≡ w → b < a
      grown e e' =
          let one : weight (λ (_ : F). true) ((value, 1) ∷ []) ≡ 1 = unfold weight in refl in
          omega (arith, e, e', one)

  uncounted_value :
      (value : F) (s t : StreamLog F) (h : HasSummary f s)
      → t.latency ≡ s.latency
      → Summarises t (with_value value s t h.values)
  uncounted_value value s t h e =
      let same : ltb s.latency.count t.latency.count ≡ false = rw e (ground arith) in
      (with_latency s t e h, rw same refl)

  add_latency-Summarises :
      (value : F) (s : StreamLog F) (h : HasSummary f s)
      → Summarises
          (Log.add_latency f value s).1
          (with_value value s (Log.add_latency f value s).1 h.values)
  unfolding Log.add_latency
  add_latency-Summarises value s h =
      elim (Bool-cases (not (is_nan value || is_inf value) && s.total == max_uint64)) [
        | inl full ↦ rw full (uncounted_value value s s h refl)
        | inr room ↦
            let x = Ddsketch.add f value (Count.int (pos 1)) s.latency in
            let is = latency-count_latency s x in
            rw room
              (elim (add-IsSummary f laws value (Count.int (pos 1)) h.accuracy s.latency h.values
                h.summary) [
                  | inl same ↦ uncounted_value value s (count_latency f s x).1 h (is ∙ same)
                  | inr (n, one, k) ↦
                      counted_value value s (count_latency f s x).1 h
                        (rw is (rw (← one_of n one) at k))
                ])
      ]
    where
      one_of : (n : ℕ) → Count.int (pos 1) ≡ Count.int (pos n) → 1 ≡ n
      one_of n e = cc e

  add_latencies-Summarises :
      (values : List F) (s : StreamLog F) (h : HasSummary f s)
      → Summarises
          (Log.add_latencies f values s).1
          (after_return f (Log.add_latencies f values s).0 (finite_values f values) h.values)
  unfolding Log.add_latencies
  add_latencies-Summarises values s h =
      elim (Bool-cases (ltb max_uint64 (s.total + finite_count f values))) [
        | inl full ↦ rw full (h, refl)
        | inr room ↦
            rw room
              (elim (add_batch-IsSummary f laws h.accuracy s.latency h.values h.summary values) [
                | inl (e, same) ↦ rw same (with_latency s _ refl h, refl)
                | inr (done, k) ↦ after (add_batch f values s.latency) done k
              ])
      ]
    where
      after :
          (x : Result DdError (Unit {0}) × Dd F)
          → x.0 ≡ ok tt
          → IsSummary f h.accuracy x.1 (h.values ++ finite_values f values)
          → Summarises
              (count_batch f s x).1
              (after_return f (count_batch f s x).0 (finite_values f values) h.values)
      after (err e, d) done k = cc done
      after (ok _, d) done k = (summarised h _ k, refl)

  latency-add_event :
      (name : EventKey) (n : ℤ) (s : StreamLog F) → (Log.add_event f name n s).1.latency ≡ s.latency
  unfolding Log.add_event
  latency-add_event name n s = ground arith

  latency-add_unique :
      (item : Item) (s : StreamLog F) → (Log.add_unique f item s).1.latency ≡ s.latency
  unfolding Log.add_unique
  latency-add_unique item s = ground arith

  reset-Summarises : (s : StreamLog F) → HasSummary f s → Summarises (Log.reset f s) []
  unfolding Log.reset
  reset-Summarises s h =
      (summarised h [] (reset-IsSummary f h.accuracy s.latency h.values h.summary), refl)

  -- The latencies that the calls gave to a log, from the last reset on: one that `add_latency` has
  -- counted, the finite ones of a batch that has returned, and those of a log whose merge has
  -- returned.
  abbrev pub given : (s : StreamLog F) → Reachable f s → Stream F
  given _ (start accuracy precision width depth s made) = []
  given _ (after_latency value s r) = with_value value s (Log.add_latency f value s).1 (given s r)
  given _ (after_latencies values s r) =
      after_return f (Log.add_latencies f values s).0 (finite_values f values) (given s r)
  given _ (after_event name n s r) = given s r
  given _ (after_unique item s r) = given s r
  given _ (after_reset s r) = []
  given _ (after_merge s t r q) = after_return f (Log.merge f t s).0 (given t q) (given s r)

  -- A log summarises the latencies that its calls gave.
  pub Reachable-Summarises : (s : StreamLog F) (r : Reachable f s) → Summarises s (given s r)
  Reachable-Summarises _ (start accuracy precision width depth s made) =
      rw made at (init-Summarises accuracy precision width depth)
  Reachable-Summarises _ (after_latency value s r) =
      let (h, e) = Reachable-Summarises s r in rw (← e) (add_latency-Summarises value s h)
  Reachable-Summarises _ (after_latencies values s r) =
      let (h, e) = Reachable-Summarises s r in rw (← e) (add_latencies-Summarises values s h)
  Reachable-Summarises _ (after_event name n s r) =
      let (h, e) = Reachable-Summarises s r in (with_latency s _ (latency-add_event name n s) h, e)
  Reachable-Summarises _ (after_unique item s r) =
      let (h, e) = Reachable-Summarises s r in (with_latency s _ (latency-add_unique item s) h, e)
  Reachable-Summarises _ (after_reset s r) = reset-Summarises s (Reachable-Summarises s r).0
  Reachable-Summarises _ (after_merge s t r q) =
      let (h, e) = Reachable-Summarises s r in
      let (k, e') = Reachable-Summarises t q in
      rw (← e, ← e') (merge-HasSummary f laws s t (Reachable-IsStreamLog f laws.order t q) h k)

  -- Every log that the methods produce from new ones, by calls that return or raise and by merges
  -- of logs so produced, summarises a stream of finite latencies, each with its count: the bucket
  -- of an index holds the counts of the latencies that belong to it, the zeros and the total are
  -- theirs, and the extrema are the least and the greatest of them.
  pub Reachable-HasSummary : (s : StreamLog F) → Reachable f s → HasSummary f s
  Reachable-HasSummary s r = (Reachable-Summarises s r).0
