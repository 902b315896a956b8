-- ===== src/Windowed/Valid.antt =====
-- The ring of a window is valid after every method, and a rotation keeps what is in the window.
use mathlib.Core.Path.{subst}
use sketchlog.Prelude.{
  sym, ◌∙◌, ℕ, ◌+◌, ◌-◌, ◌*◌, ◌≤◌, ◌<◌, ◌≡◌, ◌⊎◌, inl, inr, some, length, get_elem?, arith,
}
use sketchlog.Prelude.Float.{Float}
use sketchlog.Windowed.{Bucket, Window, Turn, start_at, restart_all, turn}
use sketchlog.Windowed.Methods.{advance, reset_all}
use sketchlog.Windowed.Ring.{
  back, length-restart_all, get_elem?-restart_all, start_at-restart_all, IsFresh, reset-IsFresh,
}
use sketchlog.Windowed.Rotate.{IsAged, IsSpent, IsTurn, turn-IsTurn, turn-ends}

-- A clock that never goes back.
abbrev pub IsMonotone : (ℕ → ℕ) → Type 0
IsMonotone clock = (k : ℕ) → clock k ≤ clock (k + 1)

module _ (f : Float) (clock : ℕ → ℕ) where
  open f use {F}

  -- There are `n_buckets` buckets, which together cover the window; each is empty or as old as its
  -- distance from the current one says, and the current one started in the past.
  pub record IsRing (s : Window F) : Type 0 where
    pub sized : length s.buckets ≡ s.n_buckets
    pub placed : s.current < s.n_buckets
    pub lasting : 0 < s.duration
    pub covered : s.window_ns ≤ s.n_buckets * s.duration
    pub begun : start_at s.current s.buckets ≤ clock s.ticks
    pub aged :
        (i : ℕ) (b : Bucket F)
        → i < s.n_buckets
        → get_elem? s.buckets i ≡ some b
        → IsAged f s.duration (start_at s.current s.buckets) (back s.n_buckets s.current i) b

  -- A bucket is as it was, or held nothing, or started at least a window ago; what was added to it
  -- later may be younger.
  abbrev pub Keeps : (now : ℕ) → Window F → Window F → Type 0
  Keeps now s s' =
      (i : ℕ) (b : Bucket F)
      → i < s.n_buckets
      → get_elem? s.buckets i ≡ some b
      → (get_elem? s'.buckets i ≡ some b) ⊎ IsSpent f s.window_ns now b

  -- The current bucket covers the present.
  abbrev pub Covers : (now : ℕ) → Window F → Type 0
  Covers now s =
      (start_at s.current s.buckets ≤ now) × (now < start_at s.current s.buckets + s.duration)

  abbrev pub Rotated : (now : ℕ) → Window F → Window F → Type 0
  Rotated now s s' = IsRing s' × Covers now s' × Keeps now s s'

  pub IsFresh-restart_all :
      (s : Window F) (now i : ℕ) (b : Bucket F)
      → get_elem? (restart_all f now s.buckets) i ≡ some b
      → IsFresh f b.log
  IsFresh-restart_all s now i b found =
      let (old, _, is) = get_elem?-restart_all f i now s.buckets b found in
      rw is (reset-IsFresh f old.log)

  pub reset_all-Rotated :
      (s : Window F)
      → IsMonotone clock
      → IsRing s
      → s.n_buckets * s.duration ≤ clock s.ticks - start_at s.current s.buckets
      → Rotated (clock s.ticks) s (reset_all f clock (clock s.ticks) s)
  reset_all-Rotated s mono h idle =
      let now = clock s.ticks in
      let later = mono s.ticks in
      let started =
        start_at-restart_all f s.current now s.buckets (in_range (length s.buckets) h.sized) in
      (
        record {
          sized = length-restart_all f now s.buckets ∙ h.sized;
          placed = h.placed;
          lasting = h.lasting;
          covered = h.covered;
          begun = subst (λ t. t ≤ clock (s.ticks + 1)) (sym started) later;
          aged = λ i b k found. inl (IsFresh-restart_all s now i b found);
        },
        (omega (arith, started), omega (arith, started, h.lasting)),
        λ i b k found. inr (elim (h.aged i b k found) [
          | inl fresh ↦ inl fresh
          | inr old ↦ inr (
              spent b.start (back s.n_buckets s.current i * s.duration)
                (start_at s.current s.buckets) (s.n_buckets * s.duration) now old h.begun h.covered
                idle)
        ]),
      )
    where
      in_range : (size : ℕ) → size ≡ s.n_buckets → s.current < size
      in_range size e = omega (arith, e, h.placed)

      spent :
          (x y latest span now : ℕ)
          → x + y ≤ latest
          → latest ≤ now
          → s.window_ns ≤ span
          → span ≤ now - latest
          → x + s.window_ns ≤ now
      spent x y latest span now a b c d = omega arith

  pub advance-Rotated :
      (s : Window F)
      → IsMonotone clock
      → IsRing s
      → clock s.ticks - start_at s.current s.buckets < s.n_buckets * s.duration
      → Rotated (clock s.ticks) s (advance f clock (clock s.ticks) s)
  unfolding advance
  advance-Rotated s mono h busy =
      let now = clock s.ticks in
      let t : Turn f = record {
        elapsed = now - start_at s.current s.buckets;
        turned = s.buckets;
        cursor = s.current;
      } in
      let t' = turn f s.n_buckets s.duration s.n_buckets t in
      let is : IsTurn f s.duration s.n_buckets now s.buckets t = record {
        sized = h.sized;
        placed = h.placed;
        timed = timed_by (start_at s.current s.buckets) now h.begun;
        aged = h.aged;
        kept = λ i b k found. inl found;
      } in
      let is' = turn-IsTurn f s.duration s.n_buckets now s.buckets s.n_buckets t is in
      let ended = turn-ends f s.duration s.n_buckets s.n_buckets t busy in
      let timed = is'.timed in
      let later = mono s.ticks in
      let begun = begun_by (start_at t'.cursor t'.turned) t'.elapsed now timed in
      (
        record {
          sized = is'.sized;
          placed = is'.placed;
          lasting = h.lasting;
          covered = h.covered;
          begun = trans_le (start_at t'.cursor t'.turned) now (clock (s.ticks + 1)) begun later;
          aged = is'.aged;
        },
        (begun, ends_by (start_at t'.cursor t'.turned) t'.elapsed now timed ended),
        λ i b k found. elim (is'.kept i b k found) [
          | inl there ↦ inl there
          | inr gone ↦ inr (spent_by b now gone)
        ],
      )
    where
      timed_by : (start now : ℕ) → start ≤ now → start + (now - start) ≡ now
      timed_by start now h = omega arith

      begun_by : (start e now : ℕ) → start + e ≡ now → start ≤ now
      begun_by start e now h = omega arith

      trans_le : (a b c : ℕ) → a ≤ b → b ≤ c → a ≤ c
      trans_le a b c h k = omega arith

      ends_by : (start e now : ℕ) → start + e ≡ now → e < s.duration → now < start + s.duration
      ends_by start e now h k = omega arith

      spent_by :
          (b : Bucket F) (now : ℕ)
          → IsSpent f (s.n_buckets * s.duration) now b
          → IsSpent f s.window_ns now b
      spent_by b now (inl fresh) = inl fresh
      spent_by b now (inr old) = inr (omega (arith, h.covered))
