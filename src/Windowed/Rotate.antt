-- ===== src/Windowed/Rotate.antt =====
-- The `while` loop of `_rotate`: its rounds keep the ages of the buckets in order, and restart only
-- buckets that hold nothing or started at least the span of the whole ring ago.
use mathlib.Core.Path.{subst}
use native.Mathlib.Nat.{mod-lt}
use sketchlog.Prelude.{
  ap, sym, ◌∙◌, ℕ, zero, suc, ◌+◌, ◌-◌, ◌*◌, ◌%◌, ◌≤◌, ◌<◌, ◌≡◌, ◌≢◌, ◌⊎◌, inl, inr, some, List,
  length, get_elem?, leb, leb→le, ◌==◌, arith, Bool-cases,
}
use sketchlog.Prelude.Float.{Float}
use sketchlog.Windowed.{Bucket, Turn, start_at, restart, turn_once, turn}
use sketchlog.Windowed.Ring.{
  back, IsNext, IsNext-mod, back-next, back-oldest, length-restart, start_at-restart,
  get_elem?-restart_ne, get_elem?-restart_self, IsFresh, reset-IsFresh,
}

one_older : (x k s d : ℕ) → x + k * d ≤ s → x + suc k * d ≤ s + d
one_older x k s d h = omega arith

module _ (f : Float) where
  open f use {F}

  -- A bucket holds nothing, or started at least as many durations before the current one as it
  -- lies behind it.
  abbrev pub IsAged : (duration latest steps : ℕ) → Bucket F → Type 0
  IsAged duration latest steps b = IsFresh f b.log ⊎ (b.start + steps * duration ≤ latest)

  -- What may be restarted: a bucket that holds nothing, or one that started so long ago.
  abbrev pub IsSpent : (span now : ℕ) → Bucket F → Type 0
  IsSpent span now b = IsFresh f b.log ⊎ (b.start + span ≤ now)

module _ (f : Float) (duration n now : ℕ) (before : List (Bucket f.F)) where
  open f use {F}

  pub record IsTurn (t : Turn f) : Type 0 where
    pub sized : length t.turned ≡ n
    pub placed : t.cursor < n
    pub timed : start_at t.cursor t.turned + t.elapsed ≡ now
    pub aged :
        (i : ℕ) (b : Bucket F)
        → i < n
        → get_elem? t.turned i ≡ some b
        → IsAged f duration (start_at t.cursor t.turned) (back n t.cursor i) b
    pub kept :
        (i : ℕ) (b : Bucket F)
        → i < n
        → get_elem? before i ≡ some b
        → (get_elem? t.turned i ≡ some b) ⊎ IsSpent f (n * duration) now b

  IsAged-turn_once :
      (t : Turn f)
      → IsTurn t
      → duration ≤ t.elapsed
      → (i : ℕ) (b : Bucket F) → i < n
      → get_elem? (turn_once f duration n t).turned i ≡ some b
      → IsAged f duration (start_at t.cursor t.turned + duration) (back n ((t.cursor + 1) % n) i) b
  unfolding turn_once
  IsAged-turn_once t h late i b k found =
      let next = (t.cursor + 1) % n in
      let place = IsNext-mod n t.cursor h.placed in
      let s = start_at t.cursor t.turned in
      elim (Bool-cases (i == next)) [
        | inl here ↦
            let e : i ≡ next = ground arith in
            let (old, _, is) =
              get_elem?-restart_self f next (s + duration) t.turned b
                (ap (get_elem? (restart f next (s + duration) t.turned)) (sym e) ∙ found) in
            inl (rw is (reset-IsFresh f old.log))
        | inr other ↦
            let ne : i ≢ next = ground arith in
            let there = sym (get_elem?-restart_ne f next i (s + duration) t.turned ne) ∙ found in
            let older = back-next n t.cursor next i place k ne in
            elim (h.aged i b k there) [
              | inl fresh ↦ inl fresh
              | inr old ↦ inr (rw older (one_older b.start (back n t.cursor i) s duration old))
            ]
      ]

  -- The next bucket is the oldest one: it holds nothing, or started a whole ring ago.
  kept_once :
      (t : Turn f)
      → IsTurn t
      → duration ≤ t.elapsed
      → (i : ℕ) (b : Bucket F) → i < n
      → get_elem? t.turned i ≡ some b
      → (get_elem? (turn_once f duration n t).turned i ≡ some b) ⊎ IsSpent f (n * duration) now b
  unfolding turn_once
  kept_once t h late i b k found =
      let next = (t.cursor + 1) % n in
      let place = IsNext-mod n t.cursor h.placed in
      let s = start_at t.cursor t.turned in
      elim (Bool-cases (i == next)) [
        | inl here ↦
            let e : next ≡ i = ground arith in
            inr (elim (h.aged i b k found) [
              | inl fresh ↦ inl fresh
              | inr old ↦
                  let oldest =
                    ap (λ j. suc (back n t.cursor j)) (sym e) ∙ back-oldest n t.cursor next place in
                  let older = one_older b.start (back n t.cursor i) s duration old in
                  let timed = h.timed in
                  inr
                    (spent_by b.start (suc (back n t.cursor i)) s t.elapsed oldest older late timed)
            ])
        | inr other ↦
            inl (get_elem?-restart_ne f next i (s + duration) t.turned (ground arith) ∙ found)
      ]
    where
      spent_by :
          (x k s e : ℕ)
          → k ≡ n
          → x + k * duration ≤ s + duration
          → duration ≤ e
          → s + e ≡ now
          → x + n * duration ≤ now
      spent_by x k s e h u v w = let u' : x + n * duration ≤ s + duration = rw h at u in omega arith

  start_at-turn_once :
      (t : Turn f)
      → IsTurn t
      → start_at ((t.cursor + 1) % n) (turn_once f duration n t).turned
        ≡ start_at t.cursor t.turned + duration
  unfolding turn_once
  start_at-turn_once t h =
      start_at-restart f ((t.cursor + 1) % n) (start_at t.cursor t.turned + duration) t.turned
        (next_placed (IsNext-mod n t.cursor h.placed) h.sized)
    where
      next_placed : {next size : ℕ} → IsNext n t.cursor next → size ≡ n → next < size
      next_placed (inl k) e = omega arith
      next_placed (inr k) e = omega arith

  turn_once-IsTurn :
      (t : Turn f) → IsTurn t → duration ≤ t.elapsed → IsTurn (turn_once f duration n t)
  unfolding turn_once
  turn_once-IsTurn t h late = record {
    sized =
        length-restart f ((t.cursor + 1) % n) (start_at t.cursor t.turned + duration) t.turned
        ∙ h.sized;
    placed = mod-lt (t.cursor + 1) (omega (arith, h.placed));
    timed = later;
    aged = λ i b k found.
        subst (λ s. IsAged f duration s (back n ((t.cursor + 1) % n) i) b)
          (sym (start_at-turn_once t h)) (IsAged-turn_once t h late i b k found);
    kept = λ i b k found. elim (h.kept i b k found) [
      | inl there ↦ kept_once t h late i b k there
      | inr spent ↦ inr spent
    ];
  }
    where
      shift :
          (s s' e : ℕ) → s + e ≡ now → s' ≡ s + duration → duration ≤ e → s' + (e - duration) ≡ now
      shift s s' e timed is l = omega arith

      later :
          start_at (turn_once f duration n t).cursor (turn_once f duration n t).turned
            + (turn_once f duration n t).elapsed
          ≡ now
      later =
          let is = start_at-turn_once t h in
          unfold turn_once in shift (start_at t.cursor t.turned) _ t.elapsed h.timed is late

  pub turn-IsTurn : (fuel : ℕ) (t : Turn f) → IsTurn t → IsTurn (turn f fuel duration n t)
  unfolding turn
  turn-IsTurn zero t h = h
  turn-IsTurn (suc fuel) t h = elim (Bool-cases (leb duration t.elapsed)) [
    | inl late ↦ rw late (
        turn-IsTurn fuel (turn_once f duration n t)
          (turn_once-IsTurn t h (leb→le duration t.elapsed late)))
    | inr early ↦ rw early h
  ]

module _ (f : Float) (duration n : ℕ) where
  open f use {F}

  -- Fuel for more than the time that is left is enough: the loop leaves less than a duration.
  pub turn-ends :
      (fuel : ℕ) (t : Turn f)
      → t.elapsed < fuel * duration
      → (turn f fuel duration n t).elapsed < duration
  unfolding turn turn_once
  turn-ends zero t h = absurd (omega arith)
  turn-ends (suc fuel) t h = elim (Bool-cases (leb duration t.elapsed)) [
    | inl late ↦ rw late (
        turn-ends fuel (turn_once f duration n t)
          (less fuel t.elapsed (leb→le duration t.elapsed late) h))
    | inr early ↦ rw early (ground arith)
  ]
    where
      less : (k e : ℕ) → duration ≤ e → e < suc k * duration → e - duration < k * duration
      less k e l h = omega arith
