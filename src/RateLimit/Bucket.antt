-- ===== src/RateLimit/Bucket.antt =====
-- `_TokenBucket`. The clock is injected: each method takes the reading that it makes.
pub mod Bounds
use sketchlog.Prelude.{ℕ, suc, Bool, true, false, if◌then◌else◌}
use sketchlog.Prelude.Int.{ℤ, pos, negsuc}
use sketchlog.Prelude.Float.{Float, of_int, fmin, fmax}

pub record TokenBucket (F : Type 0) : Type 0 where
  pub rate : F
  pub burst : ℤ
  pub tokens : F
  pub last : F

module _ (f : Float) where
  open f use {F, of_nat, le, add, sub, mul, neg}

  -- `__init__`
  unfoldable pub new_bucket : F → ℤ → F → TokenBucket F
  new_bucket rate burst now = record {
    rate = rate;
    burst = burst;
    tokens = of_int f burst;
    last = now;
  }

  -- `_refill`
  unfoldable pub refill : F → TokenBucket F → TokenBucket F
  refill now b =
      let elapsed = fmax f (of_nat 0) (sub now b.last) in
      record b {
        tokens = fmin f (of_int f b.burst) (add b.tokens (mul elapsed b.rate));
        last = now;
      }

  -- `if self._tokens >= tokens`
  unfoldable pub take_tokens : ℤ → TokenBucket F → Bool × TokenBucket F
  take_tokens tokens b =
      if le (of_int f tokens) b.tokens
      then (true, record b { tokens = sub b.tokens (of_int f tokens) })
      else (false, b)

  unfoldable pub consume : F → ℤ → TokenBucket F → Bool × TokenBucket F
  consume now tokens b = take_tokens tokens (refill now b)

  unfoldable pub available : F → TokenBucket F → F × TokenBucket F
  available now b = ((refill now b).tokens, refill now b)
