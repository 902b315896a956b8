-- ===== src/Windowed/Turned.antt =====
-- `_rotate` as a whole.
use sketchlog.Prelude.{
  ℕ, ◌-◌, ◌*◌, ◌<◌, ◌≡◌, inl, inr, false, ◌||◌, Option, leb, leb→le, arith, Bool-cases,
}
use sketchlog.Prelude.Exec.{Result, ok, err}
use sketchlog.Prelude.Float.{Float}
use sketchlog.Log.{StreamLog, LogError}
use sketchlog.Windowed.{Window, is_past, start_at}
use sketchlog.Windowed.Methods.{finish_rebuild, rebuild_merged, advance, reset_all, rotate}
use sketchlog.Windowed.Valid.{IsMonotone, IsRing, Rotated, reset_all-Rotated, advance-Rotated}

module _ (f : Float) (clock : ℕ → ℕ) (mono : IsMonotone clock) where
  open f use {F}

  -- The merged log is no part of the ring.
  finish_rebuild-IsRing :
      (s : Window F) (x : Result LogError (Option ℕ) × StreamLog F)
      → IsRing f clock s
      → IsRing f clock (finish_rebuild f clock s x).1
  finish_rebuild-IsRing s (ok e, m) h = record {
    sized = h.sized;
    placed = h.placed;
    lasting = h.lasting;
    covered = h.covered;
    begun = (let b = h.begun in let l = mono s.ticks in omega arith);
    aged = h.aged;
  }
  finish_rebuild-IsRing s (err e, m) h = record {
    sized = h.sized;
    placed = h.placed;
    lasting = h.lasting;
    covered = h.covered;
    begun = (let b = h.begun in let l = mono s.ticks in omega arith);
    aged = h.aged;
  }

  finish_rebuild-Rotated :
      (now : ℕ) (s s' : Window F) (x : Result LogError (Option ℕ) × StreamLog F)
      → Rotated f clock now s s'
      → Rotated f clock now s (finish_rebuild f clock s' x).1
  finish_rebuild-Rotated now s s' (ok e, m) (ring, covers, keeps) =
      (finish_rebuild-IsRing s' (ok e, m) ring, covers, keeps)
  finish_rebuild-Rotated now s s' (err e, m) (ring, covers, keeps) =
      (finish_rebuild-IsRing s' (err e, m) ring, covers, keeps)

  -- A rotation of a valid ring on a clock that never goes back, whether or not the merge of the
  -- buckets raises: the ring is valid after it, its current bucket covers the present, and every
  -- bucket is as it was unless it held nothing or had started at least a window before the reading
  -- of the clock. (Values are as old as their bucket or younger, so a bucket that is reset may
  -- have held some that are younger than a window.)
  pub rotate_lem :
      (s : Window F) → IsRing f clock s → Rotated f clock (clock s.ticks) s (rotate f clock s).1
  unfolding rotate rebuild_merged
  rotate_lem s h =
      let now = clock s.ticks in
      let elapsed = now - start_at s.current s.buckets in
      elim (Bool-cases (leb (s.n_buckets * s.duration) elapsed)) [
        | inl idle ↦ rw idle (
            finish_rebuild-Rotated now s (reset_all f clock now s) _
              (reset_all-Rotated f clock s mono h (leb→le (s.n_buckets * s.duration) elapsed idle)))
        | inr busy ↦
            let turned =
              advance-Rotated f clock s mono h (below (s.n_buckets * s.duration) elapsed busy) in
            rw busy (elim (Bool-cases (is_past now s.expires_at || leb s.duration elapsed)) [
              | inl rotated ↦
                  rw rotated (finish_rebuild-Rotated now s (advance f clock now s) _ turned)
              | inr same ↦ rw same turned
            ])
      ]
    where
      below : (a b : ℕ) → leb a b ≡ false → b < a
      below a b h = ground arith
