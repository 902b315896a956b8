-- ===== src/Windowed/Reach.antt =====
-- The windows that the methods can produce.
use mathlib.Core.Path.{subst}
use native.Mathlib.Nat.{lt-div-mul-add}
use sketchlog.Prelude.{
  sym, ℕ, zero, suc, ◌+◌, ◌-◌, ◌*◌, ◌/◌, ◌≤◌, ◌<◌, ◌≡◌, refl, inl, false, not, some, get_elem?,
  arith, replicate, length-replicate,
}
use sketchlog.Prelude.Int.{ℤ, pos, negsuc, pos_part, ltb_ℤ}
use sketchlog.Prelude.Exec.{
  Result, ok, err, Ensures, Ensures-bind, Ensures-lift, Ensures-refuse_if, lift,
}
use sketchlog.Prelude.Float.{Float}
use sketchlog.Sketch.Hash.{EventKey}
use sketchlog.Sketch.Hll.{Item}
use sketchlog.Log.{StreamLog, LogError}
use sketchlog.Log
use sketchlog.Windowed.{
  Bucket, Window, bad_buckets, of_log, start_at, init, init_with, parse_window, nanoseconds,
}
use sketchlog.Windowed.Methods.{rotate, reset, add_latency, add_event, add_unique}
use sketchlog.Windowed.Ring.{IsFresh}
use sketchlog.Windowed.Fresh.{init-IsFresh}
use sketchlog.Windowed.Valid.{IsMonotone, IsRing}
use sketchlog.Windowed.Turned.{rotate_lem}
use sketchlog.Windowed.Write.{write-IsRing, reset-IsRing}

-- Rounding up: the parts of a window that is divided into `n` cover it.
covers_up : (w n : ℕ) → 0 < n → w ≤ n * ((w + n - 1) / n)
covers_up w n h = let up = lt-div-mul-add {a = w + n - 1} {b = n} h in go ((w + n - 1) / n) up
  where
    go : (q : ℕ) → w + n - 1 < q * n + n → w ≤ n * q
    go q up = omega (arith, h)

positive_up : (w n : ℕ) → 0 < w → 0 < n → 0 < (w + n - 1) / n
positive_up w n h k = let up = lt-div-mul-add {a = w + n - 1} {b = n} k in go ((w + n - 1) / n) up
  where
    go : (q : ℕ) → w + n - 1 < q * n + n → 0 < q
    go zero up = absurd (omega (arith, h))
    go (suc q) up = omega arith

-- Whatever a result is, it is one.
Ensures-any : {E A : Type 0} (r : Result E A) → Ensures (λ a. Unit {0}) r
Ensures-any (ok a) = tt
Ensures-any (err e) = tt

module _ {F : Type 0} where
  get_elem?-replicate : (n i : ℕ) (b c : Bucket F) → get_elem? (replicate n b) i ≡ some c → b ≡ c
  get_elem?-replicate zero i b c h = cc
  get_elem?-replicate (suc n) zero b c h = cc
  get_elem?-replicate (suc n) (suc i) b c h = get_elem?-replicate n i b c h

  start_at-replicate : (n : ℕ) (b : Bucket F) → 0 < n → start_at 0 (replicate n b) ≡ b.start
  unfolding start_at
  start_at-replicate zero b h = absurd (omega arith)
  start_at-replicate (suc n) b h = refl

module _ (f : Float) (clock : ℕ → ℕ) (mono : IsMonotone clock) where
  open f use {F}

  init_with-IsRing :
      (n w : ℕ) (log : StreamLog F)
      → 0 < n
      → IsFresh f log
      → 0 < w
      → IsRing f clock (init_with f n (clock 0) w log)
  init_with-IsRing n w log h fresh k =
      let started = start_at-replicate n (record { log = log; start = clock 0 }) h in
      let first = mono 0 in
      let second = mono 1 in
      record {
        sized = length-replicate n (record { log = log; start = clock 0 });
        placed = h;
        lasting = positive_up w n k h;
        covered = covers_up w n h;
        begun = subst (λ t. t ≤ clock 2) (sym started) (omega arith);
        aged = λ i b l found.
            let is = get_elem?-replicate n i (record { log = log; start = clock 0 }) b found in
            inl (subst (λ x. IsFresh f x.log) is fresh);
      }

  -- A window of no length cannot come of a positive number of seconds, which `math.ceil` rounds up.
  init-IsRing :
      (window : F) (n : ℤ) (accuracy : F) (precision width depth : ℤ)
      → Ensures
          (λ s. 0 < s.window_ns → IsRing f clock s)
          (init f window n accuracy precision width depth (clock 0))
  unfolding init ltb_ℤ
  init-IsRing window n accuracy precision width depth =
      Ensures-refuse_if (λ s. 0 < s.window_ns → IsRing f clock s) (not (ltb_ℤ (pos 0) n))
        bad_buckets _
        (λ some_buckets.
          Ensures-bind (λ a. Unit {0}) (λ s. 0 < s.window_ns → IsRing f clock s)
            (parse_window f window) _ (Ensures-any (parse_window f window))
            (λ seconds _.
              Ensures-bind (λ a. Unit {0}) (λ s. 0 < s.window_ns → IsRing f clock s)
                (nanoseconds f seconds) _ (Ensures-any (nanoseconds f seconds))
                (λ w _.
                  Ensures-bind (IsFresh f) (λ s. 0 < s.window_ns → IsRing f clock s)
                    (lift of_log (Log.init f accuracy precision width depth)) _
                    (Ensures-lift (IsFresh f) of_log (Log.init f accuracy precision width depth)
                      (λ log made. rw made at (init-IsFresh f accuracy precision width depth)))
                    (λ log fresh k.
                      init_with-IsRing (pos_part n) w log (positive n some_buckets) fresh k))))
    where
      positive : (n : ℤ) → not (ltb_ℤ (pos 0) n) ≡ false → 0 < pos_part n
      positive (pos k) h = unfold ltb_ℤ in ground arith
      positive (negsuc k) h = absurd (unfold ltb_ℤ in ground arith)

  -- The windows that a program can hold, where the clock has been read as often as they say.
  pub data Reachable : Window F → Type 0 where
    start :
        (window : F) (n : ℤ) (accuracy : F) (precision width depth : ℤ) (s : Window F)
        → init f window n accuracy precision width depth (clock 0) ≡ ok s
        → 0 < s.window_ns
        → Reachable s
    after_latency :
        (value : F) (s : Window F) → Reachable s → Reachable (add_latency f clock value s).1
    after_event :
        (name : EventKey) (n : ℤ) (s : Window F)
        → Reachable s
        → Reachable (add_event f clock name n s).1
    after_unique :
        (item : Item) (s : Window F) → Reachable s → Reachable (add_unique f clock item s).1
    after_read : (s : Window F) → Reachable s → Reachable (rotate f clock s).1
    after_reset : (s : Window F) → Reachable s → Reachable (reset f clock s)

  -- On a clock that never goes back, the ring of every window that the methods produce is valid,
  -- after calls that raise too: a bucket that is `k` steps behind the current one is empty or
  -- started at least `k` durations before it.
  pub Reachable-IsRing : (s : Window F) → Reachable s → IsRing f clock s
  Reachable-IsRing _ (start window n accuracy precision width depth s made long) =
      (rw made at (init-IsRing window n accuracy precision width depth)) long
  Reachable-IsRing _ (after_latency value s r) =
      write-IsRing f clock mono (Log.add_latency f value) s (Reachable-IsRing s r)
  Reachable-IsRing _ (after_event name n s r) =
      write-IsRing f clock mono (Log.add_event f name n) s (Reachable-IsRing s r)
  Reachable-IsRing _ (after_unique item s r) =
      write-IsRing f clock mono (Log.add_unique f item) s (Reachable-IsRing s r)
  Reachable-IsRing _ (after_read s r) = (rotate_lem f clock mono s (Reachable-IsRing s r)).0
  Reachable-IsRing _ (after_reset s r) = reset-IsRing f clock mono s (Reachable-IsRing s r)
