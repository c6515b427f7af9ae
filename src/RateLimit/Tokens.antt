-- ===== src/RateLimit/Tokens.antt =====
-- One token bucket of internal/ratelimit/ratelimit.go.
use buddynet.Support.{ℕ, ◌+◌, ◌*◌, ◌≤◌, ◌≡◌, Bool, true, false, arith}
use buddynet.Support.Int.{pos, ◌+ℤ◌, ◌-ℤ◌, ◌≤ℤ◌}
use buddynet.RateLimit.{unit, Bucket, take, full}

-- What a call may cost: a whole token where it is granted.
abbrev pub cost : Bool → ℕ
cost true = unit
cost false = 0

pub mul-le : (a b r : ℕ) → a ≤ b → a * r ≤ b * r
mul-le a b r h = grind arith

module _ (b : Bucket) (now rate burst : ℕ) where
  pub last-take : (take b now rate burst).0.last ≡ now
  unfolding take
  last-take = ground arith

  pub tokens-take-le : (take b now rate burst).0.tokens ≤ℤ pos (burst * unit)
  unfolding take ◌+ℤ◌ ◌-ℤ◌
  tokens-take-le = ground arith

  -- No token comes from nowhere: what is left and what was granted is at most what was there
  -- and what time has added.
  pub take_conserves :
      (take b now rate burst).0.tokens +ℤ pos (cost (take b now rate burst).1 + b.last * rate)
      ≤ℤ b.tokens +ℤ pos (now * rate)
  unfolding take ◌+ℤ◌ ◌-ℤ◌
  take_conserves = ground arith

  -- A bucket that holds no debt gets into none while the clock does not go back.
  pub take-nonneg : pos 0 ≤ℤ b.tokens → b.last ≤ now → pos 0 ≤ℤ (take b now rate burst).0.tokens
  unfolding take ◌+ℤ◌ ◌-ℤ◌
  take-nonneg h k = ground (arith, mul-le b.last now rate)

  pub full-covers :
      full b now rate burst ≡ true
      → pos (burst * unit + b.last * rate) ≤ℤ b.tokens +ℤ pos (now * rate)
  unfolding full ◌+ℤ◌
  full-covers h = ground arith
