-- ===== src/Log/Methods.antt =====
-- The methods of a StreamLog that change it, `merge` aside, keep its invariant.
use sketchlog.Prelude.{List}
use sketchlog.Log.{add_latencies, count_batch}
use sketchlog.Sketch.Ddsketch.Gather.{add_batch-IsDd}
use sketchlog.Sketch.Ddsketch.Batch.{add_batch, finite_count}
use sketchlog.Prelude.{◌/◌}
use sketchlog.Log.{
  init_uniques, init_events, init_sketches, bad_dimensions, too_many_cells, max_cells,
}
use sketchlog.Sketch.Cms.Estimate.{total-init}
use sketchlog.Prelude.{
  ℕ, ◌+◌, ◌-◌, ◌≡◌, false, not, ◌&&◌, ◌||◌, arith, ltb, ◌==◌, Bool-cases, inl, inr,
}
use sketchlog.Prelude.Int.{ℤ, pos}
use sketchlog.Prelude.Exec.{
  Result, ok, err, lift, Ensures, Ensures-refuse_if, Ensures-bind, Ensures-lift,
}
use sketchlog.Prelude.Float.{Float, FloatOrder}
use sketchlog.Sketch.Hash.{EventKey}
use sketchlog.Sketch.Count.{Count, max_int64, max_uint64, is_positive, amount}
use sketchlog.Sketch.Cms
use sketchlog.Sketch.Cms.{Cms, CmsError}
use sketchlog.Sketch.Cms.Valid.{IsCms, init-IsCms, reset-IsCms, added-IsCms, add_outcome}
use sketchlog.Sketch.Hll
use sketchlog.Sketch.Hll.{Hll, Item, HllError}
use sketchlog.Sketch.Hll.Valid.{IsHll, init-IsHll, reset-IsHll, add-IsHll}
use sketchlog.Sketch.Ddsketch
use sketchlog.Sketch.Ddsketch.{Dd, DdError}
use sketchlog.Sketch.Ddsketch.Outcome.{add-Outcome}
use sketchlog.Sketch.Ddsketch.Valid.{IsDd, init-IsDd, reset-IsDd, add-IsDd}
use sketchlog.Log.{
  StreamLog, init, add_latency, add_event, add_unique, reset, count_latency, count_event,
  of_latency, of_events, of_uniques, bad_key, bad_item,
}
use sketchlog.Log.Valid.{IsStreamLog}

module _ (f : Float) (laws : FloatOrder f) where
  open f use {F, is_nan, is_inf}

  count-init : (accuracy : F) (s : Dd F) → Ddsketch.init f accuracy ≡ ok s → s.count ≡ 0
  unfolding Ddsketch.init Ddsketch.fresh
  count-init accuracy s h = ground arith

  -- A sketch that has counted nothing.
  abbrev IsFreshDd : Dd F → Type 0
  IsFreshDd s = IsDd s × (s.count ≡ 0)

  abbrev IsFreshCms : Cms → Type 0
  IsFreshCms s = IsCms s × (s.total ≡ 0)

  init_uniques-IsStreamLog :
      (precision : ℤ) (latency : Dd F) (events : Cms)
      → IsFreshDd latency
      → IsFreshCms events
      → Ensures IsStreamLog (init_uniques f precision latency events)
  init_uniques-IsStreamLog precision latency events d c =
      Ensures-bind IsHll IsStreamLog (lift of_uniques (Hll.init precision))
        (λ uniques.
          ok (record { latency = latency; events = events; uniques = uniques; total = 0 }))
        (Ensures-lift IsHll of_uniques (Hll.init precision) (init-IsHll precision))
        λ uniques h. record {
          latency = d.0;
          events = c.0;
          uniques = h;
          counted = omega (arith, d.1, c.1);
          fits = omega arith;
        }

  init_sketches-IsStreamLog :
      (accuracy : F) (precision width depth : ℤ)
      → Ensures IsStreamLog (init_sketches f accuracy precision width depth)
  init_sketches-IsStreamLog accuracy precision width depth =
      Ensures-bind IsFreshDd IsStreamLog (lift of_latency (Ddsketch.init f accuracy))
        (init_events f precision width depth)
        (Ensures-lift IsFreshDd of_latency (Ddsketch.init f accuracy)
          λ s h. (init-IsDd f laws accuracy s h, count-init accuracy s h))
        λ latency d.
          Ensures-bind IsFreshCms IsStreamLog (lift of_events (Cms.init width depth))
            (init_uniques f precision latency)
            (Ensures-lift IsFreshCms of_events (Cms.init width depth)
              λ s h. (init-IsCms width depth s h, total-init width depth s h))
            λ events c. init_uniques-IsStreamLog precision latency events d c

  init-Ensures :
      (accuracy : F) (precision width depth : ℤ)
      → Ensures IsStreamLog (init f accuracy precision width depth)
  unfolding init
  init-Ensures accuracy precision width depth =
      Ensures-refuse_if IsStreamLog (not (is_positive width) || not (is_positive depth))
        bad_dimensions _
        λ _.
          Ensures-refuse_if IsStreamLog (ltb (max_cells / amount depth) (amount width))
            too_many_cells (init_sketches f accuracy precision width depth)
            λ _. init_sketches-IsStreamLog accuracy precision width depth

  pub init-IsStreamLog :
      (accuracy : F) (precision width depth : ℤ) (s : StreamLog F)
      → init f accuracy precision width depth ≡ ok s
      → IsStreamLog s
  init-IsStreamLog accuracy precision width depth s h =
      rw h at (init-Ensures accuracy precision width depth)

  pub reset-IsStreamLog : (s : StreamLog F) → IsStreamLog s → IsStreamLog (reset f s)
  unfolding reset Ddsketch.reset Cms.reset
  reset-IsStreamLog s v = record {
    latency = reset-IsDd f laws s.latency;
    events = reset-IsCms s.events v.events;
    uniques = reset-IsHll s.uniques v.uniques;
    counted = omega arith;
    fits = omega arith;
  }

  count-commit : (value : F) (n : ℕ) (s : Dd F) → (Ddsketch.commit f value n s).count ≡ s.count + n
  unfolding Ddsketch.commit
  count-commit value n s = ground arith

  pub add_latency-IsStreamLog :
      (value : F) (s : StreamLog F) → IsStreamLog s → IsStreamLog (add_latency f value s).1
  unfolding add_latency
  add_latency-IsStreamLog value s v =
      elim (Bool-cases (not (is_nan value || is_inf value) && s.total == max_uint64)) [
        | inl full ↦ rw full v
        | inr room ↦ rw room (counted room)
      ]
    where
      unchanged : (r : Result DdError (Unit {0})) → IsStreamLog (count_latency f s (r, s.latency)).1
      unchanged (err e) = v
      unchanged (ok _) = record {
        latency = v.latency;
        events = v.events;
        uniques = v.uniques;
        counted = ground (arith, v.counted);
        fits = ground (arith, v.fits);
      }

      counted :
          (not (is_nan value || is_inf value) && s.total == max_uint64) ≡ false
          → IsStreamLog (count_latency f s (Ddsketch.add f value (Count.int (pos 1)) s.latency)).1
      counted room =
          let valid = add-IsDd f laws value (Count.int (pos 1)) s.latency v.latency in
          elim (add-Outcome f value (Count.int (pos 1)) s.latency) [
            | inl (r, same) ↦ rw same (unchanged r)
            | inr (n, is, a, done) ↦
                let one : n ≡ 1 = ground arith in
                let grown = count-commit value n s.latency in
                rw done (record {
                  latency = rw done at valid;
                  events = v.events;
                  uniques = v.uniques;
                  counted = ground (arith, grown, v.counted);
                  fits = ground (arith, a.finite.0, a.finite.1, v.fits, room);
                })
          ]

  pub add_latencies-IsStreamLog :
      (values : List F) (s : StreamLog F) → IsStreamLog s → IsStreamLog (add_latencies f values s).1
  unfolding add_latencies
  add_latencies-IsStreamLog values s v =
      elim (Bool-cases (ltb max_uint64 (s.total + finite_count f values))) [
        | inl full ↦ rw full v
        | inr room ↦ rw room (counted room)
      ]
    where
      after_batch :
          (r : Result DdError (Unit {0})) (d : Dd F)
          → ltb max_uint64 (s.total + finite_count f values) ≡ false
          → r ≡ ok tt
          → IsDd d
          → d.count ≡ s.latency.count + finite_count f values
          → IsStreamLog (count_batch f s (r, d)).1
      after_batch (err e) d room done w grown = cc
      after_batch (ok _) d room done w grown = record {
        latency = w;
        events = v.events;
        uniques = v.uniques;
        counted = omega (arith, v.counted, grown);
        fits = ground (arith, grown);
      }

      counted :
          ltb max_uint64 (s.total + finite_count f values) ≡ false
          → IsStreamLog (count_batch f s (add_batch f values s.latency)).1
      counted room = elim (add_batch-IsDd f values s.latency v.latency) [
        | inl (e, raised) ↦ rw raised v
        | inr (done, w, grown) ↦
            after_batch (add_batch f values s.latency).0 (add_batch f values s.latency).1 room done
              w grown
      ]

  pub add_unique-IsStreamLog :
      (item : Item) (s : StreamLog F) → IsStreamLog s → IsStreamLog (add_unique f item s).1
  unfolding add_unique
  add_unique-IsStreamLog item s v = elim (Bool-cases (bad_item item)) [
    | inl bad ↦ rw bad v
    | inr good ↦ rw good (record {
      latency = v.latency;
      events = v.events;
      uniques = add-IsHll item s.uniques v.uniques;
      counted = v.counted;
      fits = v.fits;
    })
  ]

  pub add_event-IsStreamLog :
      (name : EventKey) (n : ℤ) (s : StreamLog F)
      → IsStreamLog s
      → IsStreamLog (add_event f name n s).1
  unfolding add_event
  add_event-IsStreamLog name n s v = elim (Bool-cases (is_positive n)) [
    | inr nonpos ↦ rw nonpos v
    | inl positive ↦ elim (Bool-cases (ltb max_int64 (amount n))) [
      | inl large ↦ rw (positive, large) v
      | inr small ↦ elim (Bool-cases (bad_key name)) [
        | inl bad ↦ rw (positive, small, bad) v
        | inr good ↦ elim (Bool-cases (ltb (max_uint64 - amount n) s.total)) [
          | inl full ↦ rw (positive, small, good, full) v
          | inr room ↦ rw (positive, small, good, room) (counted small room)
        ]
      ]
    ]
  ]
    where
      counted :
          ltb max_int64 (amount n) ≡ false
          → ltb (max_uint64 - amount n) s.total ≡ false
          → IsStreamLog (count_event f (amount n) s (Cms.add name (Count.int n) s.events)).1
      counted small room = elim (add_outcome name (Count.int n) s.events v.events) [
        | inl (e, raised) ↦ rw raised v
        | inr (m, is, fits, returned) ↦
            let same : amount n ≡ m = ground arith in
            rw returned (record {
              latency = v.latency;
              events = added-IsCms s.events (Cms.key_of name) m v.events fits;
              uniques = v.uniques;
              counted = omega (arith, v.counted, same);
              fits = ground arith;
            })
      ]
