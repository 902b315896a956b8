-- ===== src/Log/State/Made.antt =====
-- The log that the constructor makes, where it does not raise.
use sketchlog.Prelude.{
  ℕ, zero, suc, ◌/◌, ◌^◌, ◌≡◌, refl, inl, inr, not, ◌&&◌, ◌||◌, arith, ltb, leb, replicate,
  Bool-cases,
}
use sketchlog.Prelude.Int.{pos}
use sketchlog.Prelude.Key.{int_key}
use sketchlog.Prelude.Exec.{lift, Ensures, Ensures-unless, Ensures-bind, Ensures-lift}
use sketchlog.Prelude.Float.{Float}
use sketchlog.Sketch.Count.{is_positive}
use sketchlog.Sketch.Cms.{Cms, seeds_from, empty_table}
use sketchlog.Sketch.Cms
use sketchlog.Sketch.Hll
use sketchlog.Sketch.Ddsketch.{Dd, max_bins, fresh, key}
use sketchlog.Sketch.Ddsketch
use sketchlog.Log
use sketchlog.Log.{StreamLog, LogError, max_cells}

-- What the constructor makes, where it does not raise.
abbrev pub new_events : (width depth : ℕ) → Cms
new_events width depth = record {
  width = width;
  depth = depth;
  table = empty_table width depth;
  total = 0;
  seeds = seeds_from depth 42;
}

abbrev pub new_uniques : ℕ → Hll.Hll
new_uniques precision = record { p = precision; registers = replicate (2 ^ precision) 0 }

pub init-new_events :
    (width depth : ℕ) → Ensures (λ s. s ≡ new_events width depth) (Cms.init (pos width) (pos depth))
unfolding Cms.init
init-new_events zero depth = tt
init-new_events (suc width) zero = tt
init-new_events (suc width) (suc depth) = refl

init-new_uniques :
    (precision : ℕ) → Ensures (λ s. s ≡ new_uniques precision) (Hll.init (pos precision))
unfolding Hll.init
init-new_uniques precision = elim (Bool-cases (leb 4 precision && leb precision 18)) [
  | inl fit ↦ rw fit refl
  | inr other ↦ rw other tt
]

module _ (f : Float) where
  open f use {F, of_nat, lt, eq, log, tiny, largest}

  abbrev pub new_log : F → (precision width depth : ℕ) → StreamLog F
  new_log alpha precision width depth = record {
    latency = fresh f alpha;
    events = new_events width depth;
    uniques = new_uniques precision;
    total = 0;
  }

  pub init-new_log :
      (alpha : F) (precision width depth : ℕ)
      → Ensures
          (λ s. s ≡ new_log alpha precision width depth)
          (Log.init f alpha (pos precision) (pos width) (pos depth))
  unfolding Log.init Ddsketch.init
  init-new_log alpha precision width depth =
      let P : StreamLog F → Type 0 = λ s. s ≡ new_log alpha precision width depth in
      Ensures-unless P (not (is_positive (pos width)) || not (is_positive (pos depth)))
        LogError.bad_dimensions _
        (Ensures-unless P (ltb (max_cells / depth) width) LogError.too_many_cells
          (Log.init_sketches f alpha (pos precision) (pos width) (pos depth))
          (Ensures-bind (λ d. d ≡ fresh f alpha) P
            (lift LogError.of_latency (Ddsketch.init f alpha)) _ (ground arith)
            λ latency d.
              Ensures-bind (λ s. s ≡ new_events width depth) P
                (lift LogError.of_events (Cms.init (pos width) (pos depth))) _
                (Ensures-lift (λ s. s ≡ new_events width depth) LogError.of_events
                  (Cms.init (pos width) (pos depth)) λ s e. rw e at (init-new_events width depth))
                λ events c.
                  Ensures-bind (λ s. s ≡ new_uniques precision) P
                    (lift LogError.of_uniques (Hll.init (pos precision))) _
                    (Ensures-lift (λ s. s ≡ new_uniques precision) LogError.of_uniques
                      (Hll.init (pos precision)) λ s e. rw e at (init-new_uniques precision))
                    λ uniques u. rw (d, c, u) refl))
