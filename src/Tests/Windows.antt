-- ===== src/Tests/Windows.antt =====
-- Runs of the theorems about sliding windows.
use sketchlog.Prelude.{ℕ, ◌+◌, ◌*◌, ◌/◌, ◌%◌, ◌<◌, ◌≡◌, refl, arith, [], ◌∷◌, replicate}
use sketchlog.Prelude.Int.{ℤ, pos, negsuc, ltb_ℤ, ◌*ℤ◌, ◌+ℤ◌, ◌-ℤ◌}
use sketchlog.Prelude.Exec.{ok}
use sketchlog.Tests.Whole.{whole}
use sketchlog.Sketch.Cms
use sketchlog.Sketch.Hll
use sketchlog.Sketch.Ddsketch
use sketchlog.Log
use sketchlog.Log.{StreamLog}
use sketchlog.Windowed.{Window, Turn, turn, start_at, init, init_with, parse_window, nanoseconds}
use sketchlog.Windowed.Methods.{advance, rotate, add_latency}
use sketchlog.Windowed.Rounds.{advance_lem}
use sketchlog.Windowed.Valid.{IsMonotone, IsRing, Rotated}
use sketchlog.Windowed.Turned.{rotate_lem}
use sketchlog.Windowed.Reach.{Reachable, start, after_latency, Reachable-IsRing}

-- A reading every 200 milliseconds.
abbrev clock : ℕ → ℕ
clock n = n * 200000000

clock-IsMonotone : IsMonotone clock
clock-IsMonotone k = omega arith

abbrev new_log : StreamLog ℤ
new_log = record {
  latency = record {
    alpha = pos 0;
    gamma = pos 1;
    multiplier = pos 1;
    positive = [];
    negative = [];
    zero_count = 0;
    count = 0;
    min = pos 1000000;
    max = negsuc 999999;
  };
  events = record {
    width = 2;
    depth = 1;
    table = (0 ∷ 0 ∷ []) ∷ [];
    total = 0;
    seeds = 13679457532755275413 ∷ [];
  };
  uniques = record { p = 4; registers = replicate 16 0 };
  total = 0;
}

-- One second in three buckets.
abbrev new_window : Window ℤ
new_window = init_with whole 3 0 1000000000 new_log

new_window-made :
    init whole (pos 1) (pos 3) (pos 0) (pos 4) (pos 2) (pos 1) (clock 0) ≡ ok new_window
unfolding init parse_window nanoseconds Log.init Ddsketch.init Ddsketch.fresh Cms.init Hll.init
    ltb_ℤ ◌*ℤ◌ ◌+ℤ◌ ◌-ℤ◌
new_window-made = refl

started : Reachable whole clock clock-IsMonotone new_window
started =
    start (pos 1) (pos 3) (pos 0) (pos 4) (pos 2) (pos 1) new_window new_window-made (omega arith)

rotate_example : Rotated whole clock (clock 2) new_window (rotate whole clock new_window).1
rotate_example =
    rotate_lem whole clock clock-IsMonotone new_window
      (Reachable-IsRing whole clock clock-IsMonotone new_window started)

Reachable-IsRing_example : IsRing whole clock (add_latency whole clock (pos 7) new_window).1
Reachable-IsRing_example =
    Reachable-IsRing whole clock clock-IsMonotone (add_latency whole clock (pos 7) new_window).1
      (after_latency (pos 7) new_window started)

-- The same window 800 milliseconds later, when two buckets have passed.
abbrev late_window : Window ℤ
late_window = record new_window { ticks = 4 }

late_window-IsRing : IsRing whole clock late_window
late_window-IsRing =
    let h = Reachable-IsRing whole clock clock-IsMonotone new_window started in
    record {
      sized = h.sized;
      placed = h.placed;
      lasting = h.lasting;
      covered = h.covered;
      begun = omega arith;
      aged = h.aged;
    }

advance_example :
    let t : Turn whole = record { elapsed = 800000000; turned = late_window.buckets; cursor = 0 } in
    let s' = advance whole clock 800000000 late_window in
    (800000000 / 333333334 < 3)
    × (s'.current ≡ (0 + 800000000 / 333333334) % 3)
    × (start_at s'.current s'.buckets ≡ 0 + 800000000 / 333333334 * 333333334)
    × ((turn whole 3 333333334 3 t).elapsed < 333333334)
    × (turn whole 7 333333334 3 t ≡ turn whole 3 333333334 3 t)
unfolding start_at
advance_example =
    advance_lem whole clock late_window 7 late_window-IsRing (omega arith) (omega arith)
