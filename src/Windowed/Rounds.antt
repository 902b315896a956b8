-- ===== src/Windowed/Rounds.antt =====
-- The `while` loop of `_rotate` in closed form: how many rounds it runs, and where it ends.
use native.Mathlib.Nat.{
  mod-lt, div-lt_iff_lt-mul, mod-add-mod, mod-eq-sub-mod, mod-eq_of_lt, div-eq-sub-div,
  div-eq_of_lt, div-add-mod,
}
use sketchlog.Prelude.{
  ap, sym, ◌∙◌, ℕ, zero, suc, ◌+◌, ◌-◌, ◌*◌, ◌/◌, ◌%◌, ◌≤◌, ◌<◌, ◌≡◌, refl, inl, inr, leb, leb→le,
  arith, Bool-cases,
}
use sketchlog.Prelude.Float.{Float}
use sketchlog.Windowed.{Window, Turn, start_at, turn_once, turn}
use sketchlog.Windowed.Rotate.{IsTurn, turn-IsTurn, turn-ends}
use sketchlog.Windowed.Methods.{advance}
use sketchlog.Windowed.Valid.{IsRing}

module _ (f : Float) (duration n : ℕ) (lasting : 0 < duration) where
  open f use {F}

  -- Where a loop ends that starts with so much time to make up, in a ring of `n` buckets.
  abbrev IsEnd : Turn f → Turn f → Type 0
  IsEnd t t' =
      (t'.elapsed ≡ t.elapsed % duration) × (t'.cursor ≡ (t.cursor + t.elapsed / duration) % n)

  IsEnd-turn_once :
      (t t' : Turn f) → duration ≤ t.elapsed → IsEnd (turn_once f duration n t) t' → IsEnd t t'
  unfolding turn_once
  IsEnd-turn_once t t' late (left, place) = (
    left ∙ sym (mod-eq-sub-mod late),
    place
        ∙ mod-add-mod (t.cursor + 1) n ((t.elapsed - duration) / duration)
        ∙ ap (λ k. k % n) (one_more t.cursor _ _ (div-eq-sub-div lasting late)),
  )
    where
      one_more : (c k j : ℕ) → k ≡ j + 1 → c + 1 + j ≡ c + k
      one_more c k j h = omega arith

  ends_now : (t : Turn f) → t.cursor < n → t.elapsed < duration → IsEnd t t
  ends_now t placed early = (
    sym (mod-eq_of_lt early),
    sym (
        ap (λ k. (t.cursor + k) % n) (div-eq_of_lt early)
        ∙ ap (λ c. c % n) (none t.cursor)
        ∙ mod-eq_of_lt placed),
  )
    where
      none : (c : ℕ) → c + 0 ≡ c
      none c = omega arith

  turn-IsEnd :
      (fuel : ℕ) (t : Turn f)
      → t.cursor < n
      → t.elapsed < fuel * duration
      → IsEnd t (turn f fuel duration n t)
  unfolding turn
  turn-IsEnd zero t placed h = absurd (omega arith)
  turn-IsEnd (suc fuel) t placed h = elim (Bool-cases (leb duration t.elapsed)) [
    | inl late ↦
        let l = leb→le duration t.elapsed late in
        rw late (
          IsEnd-turn_once t (turn f fuel duration n (turn_once f duration n t)) l (
            turn-IsEnd fuel (turn_once f duration n t)
              (unfold turn_once in mod-lt (t.cursor + 1) (omega (arith, placed)))
              (unfold turn_once in less fuel t.elapsed l h)))
    | inr early ↦ rw early (ends_now t placed (ground (arith, early)))
  ]
    where
      less : (k e : ℕ) → duration ≤ e → e < suc k * duration → e - duration < k * duration
      less k e l h = omega arith

  turn-more :
      (fuel more : ℕ) (t : Turn f)
      → t.elapsed < fuel * duration
      → fuel ≤ more
      → turn f more duration n t ≡ turn f fuel duration n t
  unfolding turn
  turn-more zero more t h k = absurd (omega arith)
  turn-more (suc fuel) zero t h k = absurd (omega arith)
  turn-more (suc fuel) (suc more) t h k = elim (Bool-cases (leb duration t.elapsed)) [
    | inl late ↦
        let l = leb→le duration t.elapsed late in
        rw late (
          turn-more fuel more (turn_once f duration n t)
            (unfold turn_once in less fuel t.elapsed l h) (omega (arith, k)))
    | inr early ↦ rw early refl
  ]
    where
      less : (k e : ℕ) → duration ≤ e → e < suc k * duration → e - duration < k * duration
      less k e l h = omega arith

module _ (f : Float) (clock : ℕ → ℕ) where
  open f use {F}

  -- The `while` loop of `_rotate`, on a valid ring whose current bucket started less than
  -- `n_buckets` durations ago: it runs as many rounds as whole durations have passed since, which
  -- are fewer than there are buckets. So `n_buckets` rounds of fuel are enough: the condition of
  -- the loop is false after them, and more fuel changes nothing. The loop moves the current bucket
  -- on by the rounds that it ran, and that bucket starts so many durations later.
  pub advance_lem :
      (s : Window F) (fuel : ℕ)
      → IsRing f clock s
      → clock s.ticks - start_at s.current s.buckets < s.n_buckets * s.duration
      → s.n_buckets ≤ fuel
      → let start = start_at s.current s.buckets in
        let passed = clock s.ticks - start in
        let rounds = passed / s.duration in
        let t : Turn f = record { elapsed = passed; turned = s.buckets; cursor = s.current } in
        let s' = advance f clock (clock s.ticks) s in
        (rounds < s.n_buckets)
        × (s'.current ≡ (s.current + rounds) % s.n_buckets)
        × (start_at s'.current s'.buckets ≡ start + rounds * s.duration)
        × ((turn f s.n_buckets s.duration s.n_buckets t).elapsed < s.duration)
        × (turn f fuel s.duration s.n_buckets t ≡ turn f s.n_buckets s.duration s.n_buckets t)
  unfolding advance
  advance_lem s fuel h busy enough =
      let start = start_at s.current s.buckets in
      let passed = clock s.ticks - start in
      let t : Turn f = record { elapsed = passed; turned = s.buckets; cursor = s.current } in
      let t' = turn f s.n_buckets s.duration s.n_buckets t in
      let is : IsTurn f s.duration s.n_buckets (clock s.ticks) s.buckets t = record {
        sized = h.sized;
        placed = h.placed;
        timed = since start (clock s.ticks) h.begun;
        aged = h.aged;
        kept = λ i b k found. inl found;
      } in
      let is' = turn-IsTurn f s.duration s.n_buckets (clock s.ticks) s.buckets s.n_buckets t is in
      let ends = turn-IsEnd f s.duration s.n_buckets h.lasting s.n_buckets t h.placed busy in
      (
        (div-lt_iff_lt-mul h.lasting).1 busy,
        ends.1,
        moved start (start_at t'.cursor t'.turned) passed t'.elapsed s.duration (clock s.ticks)
            is.timed is'.timed ends.0,
        turn-ends f s.duration s.n_buckets s.n_buckets t busy,
        turn-more f s.duration s.n_buckets h.lasting s.n_buckets fuel t busy enough,
      )
    where
      since : (start now : ℕ) → start ≤ now → start + (now - start) ≡ now
      since start now h = omega arith

      moved :
          (start start' e e' d now : ℕ)
          → start + e ≡ now
          → start' + e' ≡ now
          → e' ≡ e % d
          → start' ≡ start + e / d * d
      moved start start' e e' d now u v w = omega (arith, div-add-mod e d)
