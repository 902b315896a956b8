-- ===== src/RateLimit/Counter.antt =====
-- `_QuotaCounter`. The clock is injected: each method takes the reading that it makes.
pub mod Bounds
use sketchlog.Prelude.{ℕ, ◌+◌, ◌-◌, Bool, true, false, ◌&&◌, Option, none, some, ltb, if◌then◌else◌}
use sketchlog.Prelude.Int.{ℤ, pos, ltb_ℤ}
use sketchlog.Prelude.Float.{Float}

pub record QuotaCounter (F : Type 0) : Type 0 where
  pub hourly_count : ℕ
  pub daily_count : ℕ
  pub hour_start : F
  pub day_start : F

-- The text of a refusal, with the numbers that it shows.
pub data Refusal : Type 0 where
  hourly_exceeded daily_exceeded : ℕ → ℤ → Refusal

-- `quota > 0 and count >= quota`
unfoldable pub is_spent : ℤ → ℕ → Bool
unfolding ltb_ℤ
is_spent quota count =
    if ltb_ℤ (pos 0) quota then (if ltb_ℤ (pos count) quota then false else true) else false

module _ {F : Type 0} where
  abbrev pub increment : QuotaCounter F → QuotaCounter F
  increment c = record c { hourly_count = c.hourly_count + 1; daily_count = c.daily_count + 1 }

  -- `decrement`
  unfoldable pub decrement : QuotaCounter F → QuotaCounter F
  decrement c = record c {
    hourly_count = if ltb 0 c.hourly_count then c.hourly_count - 1 else c.hourly_count;
    daily_count = if ltb 0 c.daily_count then c.daily_count - 1 else c.daily_count;
  }

module _ (f : Float) where
  open f use {F, of_nat, le, sub}

  -- `__init__` reads the clock twice.
  unfoldable pub new_counter : F → F → QuotaCounter F
  new_counter first second = record {
    hourly_count = 0;
    daily_count = 0;
    hour_start = first;
    day_start = second;
  }

  abbrev hour_over : F → QuotaCounter F → Bool
  hour_over now c = le (of_nat 3600) (sub now c.hour_start)

  abbrev day_over : F → QuotaCounter F → Bool
  day_over now c = le (of_nat 86400) (sub now c.day_start)

  -- `_reset_if_needed`
  unfoldable pub reset_if_needed : F → QuotaCounter F → QuotaCounter F
  reset_if_needed now c = record {
    hourly_count = if hour_over now c then 0 else c.hourly_count;
    daily_count = if day_over now c then 0 else c.daily_count;
    hour_start = if hour_over now c then now else c.hour_start;
    day_start = if day_over now c then now else c.day_start;
  }

  -- The two tests of `check_and_increment`, after the reset.
  unfoldable pub check_quotas : ℤ → ℤ → QuotaCounter F → Option Refusal × QuotaCounter F
  check_quotas hourly daily c =
      if is_spent hourly c.hourly_count
      then (some (hourly_exceeded c.hourly_count hourly), c)
      else if is_spent daily c.daily_count
      then (some (daily_exceeded c.daily_count daily), c)
      else (none, increment c)

  unfoldable pub check_and_increment : F → ℤ → ℤ → QuotaCounter F → Option Refusal × QuotaCounter F
  check_and_increment now hourly daily c = check_quotas hourly daily (reset_if_needed now c)

  -- The properties `hourly_count` and `daily_count` reset first, too.
  unfoldable pub read_hourly : F → QuotaCounter F → ℕ × QuotaCounter F
  read_hourly now c = ((reset_if_needed now c).hourly_count, reset_if_needed now c)

  unfoldable pub read_daily : F → QuotaCounter F → ℕ × QuotaCounter F
  read_daily now c = ((reset_if_needed now c).daily_count, reset_if_needed now c)
