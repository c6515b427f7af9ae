-- ===== src/RateLimit/Global.antt =====
-- The global ceiling of internal/ratelimit/ratelimit.go over a run of calls.
use buddynet.Support.{
  ℕ, ◌+◌, ◌*◌, ◌≤◌, ◌≡◌, Bool, true, false, List, [], ◌∷◌, arith, Text, text_key, lookup,
  Option-cases, Bool-cases, leb, length, inl, inr, refl, ◌∙◌, subst,
}
use buddynet.Support.Int.{pos, ◌+ℤ◌, ◌≤ℤ◌, int_laws}
use buddynet.RateLimit.{
  unit, Bucket, Limiter, take, prune, allow_global, charge, admit_new, allow, new,
}
use buddynet.RateLimit.Tokens.{cost, last-take, take_conserves, take-nonneg, mul-le}

-- A call of `Allow`: the source and the time on the clock.
abbrev pub Call : Type 0
Call = Text × ℕ

-- The clock does not go back from one call to the next.
abbrev pub IsOrdered : ℕ → List Call → ℕ → Type 0
IsOrdered t [] end = t ≤ end
IsOrdered t ((src, now) ∷ calls) end = (t ≤ now) × IsOrdered now calls end

unfoldable pub replay : Limiter → List Call → Limiter
replay l [] = l
replay l ((src, now) ∷ calls) = replay (allow l src now).0 calls

abbrev pub one_if : Bool → ℕ
one_if true = 1
one_if false = 0

-- How many calls of the run were allowed.
unfoldable pub admitted : Limiter → List Call → ℕ
admitted l [] = 0
admitted l ((src, now) ∷ calls) = one_if (allow l src now).1 + admitted (allow l src now).0 calls

-- What one call does to the global bucket: `g` before, `g'` after.
record Charged (rate now : ℕ) (g g' : Bucket) (granted : Bool) : Type 0 where
  conserved : g'.tokens +ℤ pos (cost granted + g.last * rate) ≤ℤ g.tokens +ℤ pos (g'.last * rate)
  settled : pos 0 ≤ℤ g.tokens → g.last ≤ now → pos 0 ≤ℤ g'.tokens
  timed : g.last ≤ now → g'.last ≤ now

allow_global-Charged :
    (l : Limiter) (now : ℕ)
    → let (l', granted) = allow_global l now in Charged l.global_rate now l.global l'.global granted
unfolding allow_global
allow_global-Charged l now = record {
  conserved = ground (
    arith,
    take_conserves l.global now l.global_rate l.global_burst,
    last-take l.global now l.global_rate l.global_burst,
  );
  settled = take-nonneg l.global now l.global_rate l.global_burst;
  timed = ground (arith, last-take l.global now l.global_rate l.global_burst);
}

same-Charged : (rate now : ℕ) (g : Bucket) → Charged rate now g g false
same-Charged rate now g = record { conserved = omega int_laws; settled = λ h k. h; timed = λ h. h }

charge-Charged :
    (l : Limiter) (src : Text) (b : Bucket) (now : ℕ)
    → let (l', granted) = charge l src b now in Charged l.global_rate now l.global l'.global granted
unfolding charge
charge-Charged l src b now = elim (Bool-cases (take b now l.src_rate l.src_burst).1) [
  | inl e ↦ rw (e, charge) (allow_global-Charged _ now)
  | inr e ↦ rw (e, charge) (same-Charged _ now _)
]

admit_new-Charged :
    (l : Limiter) (src : Text) (now : ℕ)
    → let (l', granted) = admit_new l src now in
      Charged l.global_rate now l.global l'.global granted
unfolding admit_new prune
admit_new-Charged l src now = elim (Bool-cases (leb l.max_sources (length l.per_src))) [
  | inr e ↦ rw (e, admit_new) (charge-Charged l src _ now)
  | inl e ↦ elim (Bool-cases (leb l.max_sources (length (prune l now).per_src))) [
    | inr f ↦ rw (e, f, admit_new) (charge-Charged (prune l now) src _ now)
    | inl f ↦ rw (e, f, admit_new) (same-Charged _ now _)
  ]
]

allow-Charged :
    (l : Limiter) (src : Text) (now : ℕ)
    → let (l', granted) = allow l src now in Charged l.global_rate now l.global l'.global granted
unfolding allow
allow-Charged l src now = elim (Option-cases (lookup src l.per_src)) [
  | inl e ↦ rw (e, allow) (admit_new-Charged l src now)
  | inr (b, e) ↦ rw (e, allow) (charge-Charged l src b now)
]

allow-Charged_at :
    (rate : ℕ) (l : Limiter) (src : Text) (now : ℕ)
    → l.global_rate ≡ rate
    → let (l', granted) = allow l src now in Charged rate now l.global l'.global granted
allow-Charged_at rate l src now e =
    let (l', granted) = allow l src now in
    subst (λ r. Charged r now l.global l'.global granted) e (allow-Charged l src now)

-- A call changes no rate, burst or bound.
pub record SameLimits (l l' : Limiter) : Type 0 where
  pub global_rate : l'.global_rate ≡ l.global_rate
  pub src_rate : l'.src_rate ≡ l.src_rate
  pub src_burst : l'.src_burst ≡ l.src_burst
  pub max_sources : l'.max_sources ≡ l.max_sources

pub allow-SameLimits : (l : Limiter) (src : Text) (now : ℕ) → SameLimits l (allow l src now).0
unfolding allow admit_new charge allow_global prune
allow-SameLimits l src now = ground arith

pub cost-one_if : (g : Bool) → cost g ≡ unit * one_if g
cost-one_if true = refl
cost-one_if false = refl

replay_conserves :
    (rate : ℕ) (l : Limiter) (t end : ℕ) (calls : List Call)
    → l.global_rate ≡ rate
    → IsOrdered t calls end
    → l.global.last ≤ t
    → pos 0 ≤ℤ l.global.tokens
    → pos (unit * admitted l calls + l.global.last * rate) ≤ℤ l.global.tokens +ℤ pos (end * rate)
unfolding admitted
replay_conserves rate l t end [] e o h k =
    omega (int_laws, mul-le l.global.last end rate (omega arith))
replay_conserves rate l t end ((src, now) ∷ calls) e o h k =
    let l' = (allow l src now).0 in
    let c = allow-Charged_at rate l src now e in
    omega (
      int_laws,
      cost-one_if (allow l src now).1,
      c.conserved,
      replay_conserves rate l' now end calls ((allow-SameLimits l src now).global_rate ∙ e) o.1
          (c.timed (omega arith)) (c.settled k (omega arith)),
    )

-- Over any run of `Allow` on a new limiter, whatever sources are named and however many there
-- are, if the clock does not go back then the number of calls allowed is at most the burst,
-- which is twice the rate, and the rate times the seconds that have passed.
pub global_ceiling :
    (rate src_rate max_sources start end : ℕ) (calls : List Call)
    → IsOrdered start calls end
    → unit * admitted (new rate src_rate max_sources start) calls + start * rate
      ≤ 2 * rate * unit + end * rate
unfolding new
global_ceiling rate src_rate max_sources start end calls o = omega (
  int_laws,
  replay_conserves rate (new rate src_rate max_sources start) start end calls refl o (omega arith)
      (omega arith),
)
