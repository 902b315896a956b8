-- ===== src/Windowed/Write.antt =====
-- The writes and `reset` leave the ring valid.
use mathlib.Core.Path.{subst}
use sketchlog.Prelude.{
  ap, sym, ◌∙◌, ℕ, zero, suc, ◌+◌, ◌*◌, ◌≤◌, ◌<◌, ◌≡◌, ◌≢◌, refl, inl, inr, some, List, [], ◌∷◌,
  length, get_elem?, ◌==◌, arith, Bool-cases,
}
use sketchlog.Prelude.Exec.{Result, ok, err, Exec, and_then}
use sketchlog.Prelude.Float.{Float}
use sketchlog.Log.{StreamLog, LogError}
use sketchlog.Windowed.{Bucket, Window, start_at}
use sketchlog.Windowed.Methods.{rotate, on_bucket, on_current, on_merged, write, reset}
use sketchlog.Windowed.Ring.{
  back, back_self, start_at-get_elem?, length-restart_all, start_at-restart_all,
}
use sketchlog.Windowed.Rotate.{IsAged}
use sketchlog.Windowed.Valid.{IsMonotone, IsRing, IsFresh-restart_all}
use sketchlog.Windowed.Turned.{rotate_lem}

module _ {F : Type 0} where
  length-on_bucket :
      (op : Exec LogError (StreamLog F) (Unit {0})) (i : ℕ) (bs : List (Bucket F))
      → length (on_bucket op i bs).1 ≡ length bs
  unfolding on_bucket
  length-on_bucket op i [] = refl
  length-on_bucket op zero (b ∷ bs) = refl
  length-on_bucket op (suc i) (b ∷ bs) = ap suc (length-on_bucket op i bs)

  start_at-on_bucket :
      (op : Exec LogError (StreamLog F) (Unit {0})) (i j : ℕ) (bs : List (Bucket F))
      → start_at j (on_bucket op i bs).1 ≡ start_at j bs
  unfolding on_bucket start_at
  start_at-on_bucket op i j [] = refl
  start_at-on_bucket op zero zero (b ∷ bs) = refl
  start_at-on_bucket op zero (suc j) (b ∷ bs) = refl
  start_at-on_bucket op (suc i) zero (b ∷ bs) = refl
  start_at-on_bucket op (suc i) (suc j) (b ∷ bs) = start_at-on_bucket op i j bs

  get_elem?-on_bucket_ne :
      (op : Exec LogError (StreamLog F) (Unit {0})) (i j : ℕ) (bs : List (Bucket F))
      → j ≢ i
      → get_elem? (on_bucket op i bs).1 j ≡ get_elem? bs j
  unfolding on_bucket
  get_elem?-on_bucket_ne op i j [] h = refl
  get_elem?-on_bucket_ne op zero zero (b ∷ bs) h = absurd (h refl)
  get_elem?-on_bucket_ne op zero (suc j) (b ∷ bs) h = refl
  get_elem?-on_bucket_ne op (suc i) zero (b ∷ bs) h = refl
  get_elem?-on_bucket_ne op (suc i) (suc j) (b ∷ bs) h =
      get_elem?-on_bucket_ne op i j bs (λ e. h (ap suc e))

module _ (f : Float) (clock : ℕ → ℕ) (mono : IsMonotone clock) where
  open f use {F}

  -- A write may fill the current bucket, which is of age 0.
  on_current-IsRing :
      (op : Exec LogError (StreamLog F) (Unit {0})) (s : Window F)
      → IsRing f clock s
      → IsRing f clock (on_current op s).1
  on_current-IsRing op s h =
      let started = start_at-on_bucket op s.current s.current s.buckets in
      record {
        sized = length-on_bucket op s.current s.buckets ∙ h.sized;
        placed = h.placed;
        lasting = h.lasting;
        covered = h.covered;
        begun = subst (λ t. t ≤ clock s.ticks) (sym started) h.begun;
        aged = λ i b k found.
            subst (λ t. IsAged f s.duration t (back s.n_buckets s.current i) b) (sym started)
              (aged i b k found started);
      }
    where
      newest : (x latest n d : ℕ) → x ≡ latest → n ≡ 0 → x + n * d ≤ latest
      newest x latest n d e z = rw z (omega (arith, e))

      aged :
          (i : ℕ) (b : Bucket F)
          → i < s.n_buckets
          → get_elem? (on_bucket op s.current s.buckets).1 i ≡ some b
          → start_at s.current (on_bucket op s.current s.buckets).1 ≡ start_at s.current s.buckets
          → IsAged f s.duration (start_at s.current s.buckets) (back s.n_buckets s.current i) b
      aged i b k found started = elim (Bool-cases (i == s.current)) [
        | inl here ↦
            let e : i ≡ s.current = ground arith in
            let own = start_at-get_elem? i (on_bucket op s.current s.buckets).1 b found in
            let same =
              sym own ∙ ap (λ j. start_at j (on_bucket op s.current s.buckets).1) e ∙ started in
            inr (
              newest b.start (start_at s.current s.buckets) (back s.n_buckets s.current i)
                s.duration same
                (ap (back s.n_buckets s.current) e ∙ back_self s.n_buckets s.current))
        | inr other ↦
            h.aged i b k
              (sym (get_elem?-on_bucket_ne op s.current i s.buckets (ground arith)) ∙ found)
      ]

  on_merged-IsRing :
      (op : Exec LogError (StreamLog F) (Unit {0})) (s : Window F)
      → IsRing f clock s
      → IsRing f clock (on_merged op s).1
  on_merged-IsRing op s h = record {
    sized = h.sized;
    placed = h.placed;
    lasting = h.lasting;
    covered = h.covered;
    begun = h.begun;
    aged = h.aged;
  }

  and_then-IsRing :
      {A B : Type 0} (x : Result LogError A × Window F) (k : Exec LogError (Window F) B)
      → IsRing f clock x.1
      → ((s : Window F) → IsRing f clock s → IsRing f clock (k s).1)
      → IsRing f clock (and_then x k).1
  and_then-IsRing (ok a, s) k h step = step s h
  and_then-IsRing (err e, s) k h step = h

  pub write-IsRing :
      (op : Exec LogError (StreamLog F) (Unit {0})) (s : Window F)
      → IsRing f clock s
      → IsRing f clock (write f clock op s).1
  unfolding write
  write-IsRing op s h =
      and_then-IsRing (rotate f clock s) _ (rotate_lem f clock mono s h).0 (λ s' h'.
        and_then-IsRing (on_current op s') (on_merged op) (on_current-IsRing op s' h')
          (on_merged-IsRing op))

  pub reset-IsRing : (s : Window F) → IsRing f clock s → IsRing f clock (reset f clock s)
  unfolding reset
  reset-IsRing s h =
      let now = clock s.ticks in
      let later = mono s.ticks in
      let size : 0 < length s.buckets = omega (arith, h.sized, h.placed) in
      let started = start_at-restart_all f 0 now s.buckets size in
      record {
        sized = length-restart_all f now s.buckets ∙ h.sized;
        placed = omega (arith, h.placed);
        lasting = h.lasting;
        covered = h.covered;
        begun = subst (λ t. t ≤ clock (s.ticks + 1)) (sym started) later;
        aged = λ i b k found. inl (IsFresh-restart_all f clock s now i b found);
      }
