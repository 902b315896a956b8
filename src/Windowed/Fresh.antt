-- ===== src/Windowed/Fresh.antt =====
-- A StreamLog as its constructor makes it is what `reset` would make of it.
use sketchlog.Prelude.{◌≡◌, refl, not, ◌&&◌, ◌||◌, ◌/◌, inl, inr, Bool-cases, ltb, leb}
use sketchlog.Prelude.Int.{ℤ, pos, negsuc}
use sketchlog.Prelude.Exec.{ok, lift, Ensures, Ensures-refuse_if, Ensures-bind, Ensures-lift}
use sketchlog.Prelude.Float.{Float}
use sketchlog.Sketch.Count.{is_positive, amount}
use sketchlog.Sketch.Cms
use sketchlog.Sketch.Cms.{Cms, empty_table}
use sketchlog.Sketch.Hll
use sketchlog.Sketch.Hll.{Hll}
use sketchlog.Sketch.Ddsketch
use sketchlog.Sketch.Ddsketch.{Dd}
use sketchlog.Log
use sketchlog.Log.{
  StreamLog, init, init_sketches, init_events, init_uniques, of_latency, of_events, of_uniques,
  bad_dimensions, too_many_cells, max_cells,
}
use sketchlog.Windowed.Ring.{IsFresh}

abbrev IsFreshCms : Cms → Type 0
IsFreshCms s = Cms.reset s ≡ s

abbrev IsFreshHll : Hll → Type 0
IsFreshHll s = Hll.reset s ≡ s

IsFreshCms-init : (width depth : ℤ) → Ensures IsFreshCms (Cms.init width depth)
unfolding Cms.init Cms.reset
IsFreshCms-init width depth = elim (Bool-cases (is_positive width)) [
  | inl wide ↦ elim (Bool-cases (is_positive depth)) [
    | inl deep ↦ rw (wide, deep) refl
    | inr flat ↦ rw (wide, flat) tt
  ]
  | inr narrow ↦ rw narrow tt
]

IsFreshHll-init : (precision : ℤ) → Ensures IsFreshHll (Hll.init precision)
unfolding Hll.init Hll.reset
IsFreshHll-init (pos p) = elim (Bool-cases (leb 4 p && leb p 18)) [
  | inl good ↦ rw good refl
  | inr bad ↦ rw bad tt
]
IsFreshHll-init (negsuc n) = tt

module _ (f : Float) where
  open f use {F, le, lt, of_nat, millionth}

  abbrev IsFreshDd : Dd F → Type 0
  IsFreshDd s = Ddsketch.reset f s ≡ s

  IsFreshDd-init : (accuracy : F) → Ensures IsFreshDd (Ddsketch.init f accuracy)
  unfolding Ddsketch.init Ddsketch.reset Ddsketch.fresh
  IsFreshDd-init accuracy = elim (Bool-cases (le millionth accuracy && lt accuracy (of_nat 1))) [
    | inl good ↦ rw good refl
    | inr bad ↦ rw bad tt
  ]

  IsFresh-init_uniques :
      (precision : ℤ) (latency : Dd F) (events : Cms)
      → IsFreshDd latency
      → IsFreshCms events
      → Ensures (IsFresh f) (init_uniques f precision latency events)
  IsFresh-init_uniques precision latency events d c =
      Ensures-bind IsFreshHll (IsFresh f) (lift of_uniques (Hll.init precision))
        (λ uniques.
          ok (record { latency = latency; events = events; uniques = uniques; total = 0 }))
        (Ensures-lift IsFreshHll of_uniques (Hll.init precision)
          (λ s h. rw h at (IsFreshHll-init precision)))
        (λ uniques h.
          unfold Log.reset in λ i. record { latency = d i; events = c i; uniques = h i; total = 0 })

  IsFresh-init_sketches :
      (accuracy : F) (precision width depth : ℤ)
      → Ensures (IsFresh f) (init_sketches f accuracy precision width depth)
  IsFresh-init_sketches accuracy precision width depth =
      Ensures-bind IsFreshDd (IsFresh f) (lift of_latency (Ddsketch.init f accuracy))
        (init_events f precision width depth)
        (Ensures-lift IsFreshDd of_latency (Ddsketch.init f accuracy)
          (λ s h. rw h at (IsFreshDd-init accuracy)))
        (λ latency d.
          Ensures-bind IsFreshCms (IsFresh f) (lift of_events (Cms.init width depth))
            (init_uniques f precision latency)
            (Ensures-lift IsFreshCms of_events (Cms.init width depth)
              (λ s h. rw h at (IsFreshCms-init width depth)))
            (λ events c. IsFresh-init_uniques precision latency events d c))

  pub init-IsFresh :
      (accuracy : F) (precision width depth : ℤ)
      → Ensures (IsFresh f) (init f accuracy precision width depth)
  unfolding init
  init-IsFresh accuracy precision width depth =
      Ensures-refuse_if (IsFresh f) (not (is_positive width) || not (is_positive depth))
        bad_dimensions _
        (λ _.
          Ensures-refuse_if (IsFresh f) (ltb (max_cells / amount depth) (amount width))
            too_many_cells (init_sketches f accuracy precision width depth)
            (λ _. IsFresh-init_sketches accuracy precision width depth))
