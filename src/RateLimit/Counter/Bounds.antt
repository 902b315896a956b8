-- ===== src/RateLimit/Counter/Bounds.antt =====
-- The counters never pass their quotas, and a rolled back request leaves no trace.
use sketchlog.Prelude.{
  ℕ, zero, suc, ◌+◌, ◌-◌, ◌≤◌, ◌<◌, ◌≡◌, refl, Bool, true, false, Option, none, arith, ltb,
  if◌then◌else◌, Bool-cases, inl, inr, ◌⊎◌, ◌≢◌,
}
use sketchlog.Prelude.Int.{ℤ, pos, negsuc}
use sketchlog.Prelude.Float.{Float}
use sketchlog.RateLimit.Counter.{
  QuotaCounter, Refusal, is_spent, increment, decrement, reset_if_needed, check_quotas,
  check_and_increment,
}

-- A count within a quota; a quota that is not positive is no limit.
abbrev pub Within : ℤ → ℕ → Type 0
Within (pos zero) n = Unit
Within (pos (suc q)) n = n ≤ suc q
Within (negsuc q) n = Unit

abbrev pub IsWithin : {F : Type 0} → ℤ → ℤ → QuotaCounter F → Type 0
IsWithin hourly daily c = Within hourly c.hourly_count × Within daily c.daily_count

pub Within-zero : (q : ℤ) → Within q 0
Within-zero (pos zero) = tt
Within-zero (pos (suc q)) = omega arith
Within-zero (negsuc q) = tt

Within-pred : (q : ℤ) (n : ℕ) → Within q n → Within q (if ltb 0 n then n - 1 else n)
Within-pred (pos zero) n h = tt
Within-pred (pos (suc q)) n h = ground arith
Within-pred (negsuc q) n h = tt

pub Within-suc : (q : ℤ) (n : ℕ) → is_spent q n ≡ false → Within q (n + 1)
unfolding is_spent
Within-suc (pos zero) n h = tt
Within-suc (pos (suc q)) n h = ground arith
Within-suc (negsuc q) n h = tt

-- The increment of a request that the token bucket then refuses is rolled back exactly.
pub decrement-increment : {F : Type 0} (c : QuotaCounter F) → decrement (increment c) ≡ c
unfolding decrement
decrement-increment c = ground arith

pub decrement-IsWithin :
    {F : Type 0} (hourly daily : ℤ) (c : QuotaCounter F)
    → IsWithin hourly daily c
    → IsWithin hourly daily (decrement c)
unfolding decrement
decrement-IsWithin hourly daily c h =
    (Within-pred hourly c.hourly_count h.0, Within-pred daily c.daily_count h.1)

-- A quota is a number, and so many requests were counted already.
abbrev pub IsFull : ℤ → ℕ → Type 0
IsFull (pos zero) n = ⊥
IsFull (pos (suc q)) n = suc q ≤ n
IsFull (negsuc q) n = ⊥

-- A quota is no limit, or fewer requests were counted.
abbrev pub HasRoom : ℤ → ℕ → Type 0
HasRoom (pos zero) n = Unit
HasRoom (pos (suc q)) n = n < suc q
HasRoom (negsuc q) n = Unit

-- The answer of a counter `r`, and the counter after it: the request is counted twice, for the hour
-- and for the day, exactly when both quotas have room.
abbrev pub Counted :
    {F : Type 0} → ℤ → ℤ → QuotaCounter F → Option Refusal × QuotaCounter F → Type 0
Counted hourly daily r x =
    ((x.0 ≡ none)
      × HasRoom hourly r.hourly_count
      × HasRoom daily r.daily_count
      × (x.1 ≡ record r { hourly_count = r.hourly_count + 1; daily_count = r.daily_count + 1 }))
    ⊎ ((x.0 ≢ none) × (IsFull hourly r.hourly_count ⊎ IsFull daily r.daily_count) × (x.1 ≡ r))

HasRoom-is_spent : (q : ℤ) (n : ℕ) → is_spent q n ≡ false → HasRoom q n
unfolding is_spent
HasRoom-is_spent (pos zero) n h = tt
HasRoom-is_spent (pos (suc q)) n h = ground arith
HasRoom-is_spent (negsuc q) n h = tt

IsFull-is_spent : (q : ℤ) (n : ℕ) → is_spent q n ≡ true → IsFull q n
unfolding is_spent
IsFull-is_spent (pos zero) n h = ground arith
IsFull-is_spent (pos (suc q)) n h = ground arith
IsFull-is_spent (negsuc q) n h = ground arith

module _ (f : Float) where
  open f use {F}

  -- A period of a number of seconds that began at `start`: a count and its start begin anew once it
  -- is over, and are as they were before.
  abbrev pub IsPeriod : (seconds : ℕ) (now start : F) (count : ℕ) (start' : F) (count' : ℕ) → Type 0
  IsPeriod seconds now start count start' count' =
      ((f.le (f.of_nat seconds) (f.sub now start) ≡ true) × (start' ≡ now) × (count' ≡ 0))
      ⊎ ((f.le (f.of_nat seconds) (f.sub now start) ≡ false) × (start' ≡ start) × (count' ≡ count))

  -- The hour and the day of a counter, each on its own.
  abbrev pub IsRolled : F → QuotaCounter F → QuotaCounter F → Type 0
  IsRolled now c r =
      IsPeriod 3600 now c.hour_start c.hourly_count r.hour_start r.hourly_count
      × IsPeriod 86400 now c.day_start c.daily_count r.day_start r.daily_count

  reset_if_needed-IsRolled :
      (now : F) (c : QuotaCounter F) → IsRolled now c (reset_if_needed f now c)
  unfolding reset_if_needed
  reset_if_needed-IsRolled now c =
      (period 3600 c.hour_start c.hourly_count, period 86400 c.day_start c.daily_count)
    where
      period :
          (seconds : ℕ) (start : F) (count : ℕ)
          → let over = f.le (f.of_nat seconds) (f.sub now start) in
            IsPeriod seconds now start count
              (if over then now else start)
              (if over then 0 else count)
      period seconds start count = elim (Bool-cases (f.le (f.of_nat seconds) (f.sub now start))) [
        | inl over ↦ rw over (inl (refl, refl, refl))
        | inr not_yet ↦ rw not_yet (inr (refl, refl, refl))
      ]

  pub reset_if_needed-IsWithin :
      (hourly daily : ℤ) (now : F) (c : QuotaCounter F)
      → IsWithin hourly daily c
      → IsWithin hourly daily (reset_if_needed f now c)
  unfolding reset_if_needed
  reset_if_needed-IsWithin hourly daily now c h =
      (keep hourly _ c.hourly_count h.0, keep daily _ c.daily_count h.1)
    where
      keep : (q : ℤ) (b : Bool) (n : ℕ) → Within q n → Within q (if b then 0 else n)
      keep q true n k = Within-zero q
      keep q false n k = k

  -- The outcomes in the words of the code.
  check_and_increment_cases :
      (now : F) (hourly daily : ℤ) (c : QuotaCounter F)
      → let r = reset_if_needed f now c in
        let x = check_and_increment f now hourly daily c in
        ((x.0 ≡ none)
          × (is_spent hourly r.hourly_count ≡ false)
          × (is_spent daily r.daily_count ≡ false)
          × (x.1 ≡ increment r))
        ⊎ ((x.0 ≢ none)
            × ((is_spent hourly r.hourly_count ≡ true) ⊎ (is_spent daily r.daily_count ≡ true))
            × (x.1 ≡ r))
  unfolding check_and_increment check_quotas
  check_and_increment_cases now hourly daily c =
      let r = reset_if_needed f now c in
      elim (Bool-cases (is_spent hourly r.hourly_count)) [
        | inl spent ↦ rw spent (inr ((λ e. cc e), inl refl, refl))
        | inr hour ↦ elim (Bool-cases (is_spent daily r.daily_count)) [
          | inl spent ↦ rw (hour, spent) (inr ((λ e. cc e), inr refl, refl))
          | inr day ↦ rw (hour, day) (inl (refl, refl, refl, refl))
        ]
      ]

  -- `check_and_increment` starts the hour and the day anew if 3600 and 86400 seconds of them have
  -- passed. Then it grants a request, and counts it, exactly when each quota that is positive is
  -- above its count; otherwise it refuses and counts nothing.
  pub check_and_increment_lem :
      (now : F) (hourly daily : ℤ) (c : QuotaCounter F)
      → (r : QuotaCounter F) × IsRolled now c r
        × Counted hourly daily r (check_and_increment f now hourly daily c)
  check_and_increment_lem now hourly daily c =
      let r = reset_if_needed f now c in
      (
        r,
        reset_if_needed-IsRolled now c,
        elim (check_and_increment_cases now hourly daily c) [
          | inl (granted, hour, day, e) ↦ inl (
            granted,
            HasRoom-is_spent hourly r.hourly_count hour,
            HasRoom-is_spent daily r.daily_count day,
            e,
          )
          | inr (refused, inl hour, e) ↦
              inr (refused, inl (IsFull-is_spent hourly r.hourly_count hour), e)
          | inr (refused, inr day, e) ↦
              inr (refused, inr (IsFull-is_spent daily r.daily_count day), e)
        ],
      )

  pub check_and_increment-IsWithin :
      (now : F) (hourly daily : ℤ) (c : QuotaCounter F)
      → IsWithin hourly daily c
      → IsWithin hourly daily (check_and_increment f now hourly daily c).1
  check_and_increment-IsWithin now hourly daily c h =
      let r = reset_if_needed-IsWithin hourly daily now c h in
      elim (check_and_increment_cases now hourly daily c) [
        | inl (_, hour, day, e) ↦ rw e (Within-suc hourly _ hour, Within-suc daily _ day)
        | inr (_, _, e) ↦ rw e r
      ]
