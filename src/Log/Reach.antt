-- ===== src/Log/Reach.antt =====
-- Every StreamLog that the methods can produce is valid, `merge` of two such logs included.
use sketchlog.Log.Methods.{add_latencies-IsStreamLog}
use sketchlog.Log.{add_latencies}
use sketchlog.Prelude.{List}
use sketchlog.Prelude.{◌≡◌}
use sketchlog.Prelude.Int.{ℤ}
use sketchlog.Prelude.Exec.{ok}
use sketchlog.Prelude.Float.{Float, FloatOrder}
use sketchlog.Sketch.Hash.{EventKey}
use sketchlog.Sketch.Hll.{Item}
use sketchlog.Log.{StreamLog, init, add_latency, add_event, add_unique, reset, merge}
use sketchlog.Log.Valid.{IsStreamLog, merge-IsStreamLog}
use sketchlog.Log.Methods.{
  init-IsStreamLog, add_latency-IsStreamLog, add_event-IsStreamLog, add_unique-IsStreamLog,
  reset-IsStreamLog,
}

-- The logs that a program can hold; a call that raises leaves one, too.
pub data Reachable (f : Float) : StreamLog f.F → Type 0 where
  start :
      (accuracy : f.F) (precision width depth : ℤ) (s : StreamLog f.F)
      → init f accuracy precision width depth ≡ ok s
      → Reachable f s
  after_latency :
      (value : f.F) (s : StreamLog f.F) → Reachable f s → Reachable f (add_latency f value s).1
  after_latencies :
      (values : List f.F) (s : StreamLog f.F)
      → Reachable f s
      → Reachable f (add_latencies f values s).1
  after_event :
      (name : EventKey) (n : ℤ) (s : StreamLog f.F)
      → Reachable f s
      → Reachable f (add_event f name n s).1
  after_unique :
      (item : Item) (s : StreamLog f.F) → Reachable f s → Reachable f (add_unique f item s).1
  after_reset : (s : StreamLog f.F) → Reachable f s → Reachable f (reset f s)
  after_merge : (s t : StreamLog f.F) → Reachable f s → Reachable f t → Reachable f (merge f t s).1

-- Every log that the methods produce from new ones, by calls that return or raise and by merges of
-- logs so produced, is valid: its sketches are, and its total is the number of the latencies and
-- events that they count.
pub Reachable-IsStreamLog :
    (f : Float) (laws : FloatOrder f) (s : StreamLog f.F) → Reachable f s → IsStreamLog s
Reachable-IsStreamLog f laws _ (start accuracy precision width depth s made) =
    init-IsStreamLog f laws accuracy precision width depth s made
Reachable-IsStreamLog f laws _ (after_latency value s r) =
    add_latency-IsStreamLog f laws value s (Reachable-IsStreamLog f laws s r)
Reachable-IsStreamLog f laws _ (after_latencies values s r) =
    add_latencies-IsStreamLog f laws values s (Reachable-IsStreamLog f laws s r)
Reachable-IsStreamLog f laws _ (after_event name n s r) =
    add_event-IsStreamLog f laws name n s (Reachable-IsStreamLog f laws s r)
Reachable-IsStreamLog f laws _ (after_unique item s r) =
    add_unique-IsStreamLog f laws item s (Reachable-IsStreamLog f laws s r)
Reachable-IsStreamLog f laws _ (after_reset s r) =
    reset-IsStreamLog f laws s (Reachable-IsStreamLog f laws s r)
Reachable-IsStreamLog f laws _ (after_merge s t r q) =
    (merge-IsStreamLog f s t (Reachable-IsStreamLog f laws s r)
      (Reachable-IsStreamLog f laws t q)).0
