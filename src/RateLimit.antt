-- ===== src/RateLimit.antt =====
-- internal/ratelimit/ratelimit.go: the token-bucket limiter in front of the UDP servers.
-- A token is counted in units of 1e-9, a time in nanoseconds, so that `seconds * rate` is the
-- number `nanoseconds * rate`: exact where the source rounds a float64. Rates and bursts are the
-- whole numbers that the callers pass. The mutex makes each call one step; the clock is read once
-- in a call and is an argument. A refill may be negative, as when a call that read the clock
-- earlier gets the lock later.
pub mod Tokens
pub mod Global
pub mod Source
mod Tests
use buddynet.Support.{
  ℕ, ◌*◌, Bool, true, false, not, Option, none, some, List, [], ◌∷◌, length, leb, if◌then◌else◌,
  Text, text_key, Map, lookup, insert, retain,
}
use buddynet.Support.Int.{ℤ, pos, sub_ℕ, ◌+ℤ◌, ◌-ℤ◌, leb_ℤ}

abbrev pub unit : ℕ
unit = 1_000_000_000

pub record Bucket : Type 0 where
  pub tokens : ℤ
  pub last : ℕ

-- `now.Sub(b.last).Seconds() * rate`
abbrev pub refill : ℕ → ℕ → ℕ → ℤ
refill now last rate = sub_ℕ (now * rate) (last * rate)

abbrev pub at_most : ℤ → ℤ → ℤ
at_most cap x = if leb_ℤ x cap then x else cap

unfoldable pub take : Bucket → ℕ → ℕ → ℕ → Bucket × Bool
take b now rate burst =
    let tokens = at_most (pos (burst * unit)) (b.tokens +ℤ refill now b.last rate) in
    if leb_ℤ (pos unit) tokens
    then (record { tokens = tokens -ℤ pos unit; last = now }, true)
    else (record { tokens = tokens; last = now }, false)

unfoldable pub full : Bucket → ℕ → ℕ → ℕ → Bool
full b now rate burst = leb_ℤ (pos (burst * unit)) (b.tokens +ℤ refill now b.last rate)

pub record Limiter : Type 0 where
  pub global_rate : ℕ
  pub global_burst : ℕ
  pub src_rate : ℕ
  pub src_burst : ℕ
  pub max_sources : ℕ
  pub global : Bucket
  pub per_src : Map Text Bucket

unfoldable pub new : ℕ → ℕ → ℕ → ℕ → Limiter
new global_rate src_rate max_sources now = record {
  global_rate = global_rate;
  global_burst = 2 * global_rate;
  src_rate = src_rate;
  src_burst = 2 * src_rate;
  max_sources = max_sources;
  global = record { tokens = pos (2 * global_rate * unit); last = now };
  per_src = [];
}

-- The fields that the source leaves out are zero.
unfoldable pub new_global : ℕ → ℕ → Limiter
new_global rate now = record {
  global_rate = rate;
  global_burst = 2 * rate;
  src_rate = 0;
  src_burst = 0;
  max_sources = 0;
  global = record { tokens = pos (2 * rate * unit); last = now };
  per_src = [];
}

unfoldable pub allow_global : Limiter → ℕ → Limiter × Bool
allow_global l now =
    let (global, granted) = take l.global now l.global_rate l.global_burst in
    (record l { global = global }, granted)

-- The loop of `pruneLocked`: the order in which the map is walked does not matter.
unfoldable pub prune : Limiter → ℕ → Limiter
prune l now = record l { per_src = retain (λ b. not (full b now l.src_rate l.src_burst)) l.per_src }

-- The end of `Allow`, once the source has a bucket.
unfoldable pub charge : Limiter → Text → Bucket → ℕ → Limiter × Bool
charge l src b now =
    let (b', granted) = take b now l.src_rate l.src_burst in
    let l' = record l { per_src = insert src b' l.per_src } in
    if granted then allow_global l' now else (l', false)

abbrev pub fresh : Limiter → ℕ → Bucket
fresh l now = record { tokens = pos (l.src_burst * unit); last = now }

-- A source without a bucket: make room, or drop.
unfoldable pub admit_new : Limiter → Text → ℕ → Limiter × Bool
admit_new l src now =
    if leb l.max_sources (length l.per_src)
    then (let l' = prune l now in
        if leb l'.max_sources (length l'.per_src)
        then (l', false)
        else charge l' src (fresh l' now) now)
    else charge l src (fresh l now) now

unfoldable pub allow : Limiter → Text → ℕ → Limiter × Bool
allow l src now = elim (lookup src l.per_src) [
  | some b ↦ charge l src b now
  | none ↦ admit_new l src now
]
