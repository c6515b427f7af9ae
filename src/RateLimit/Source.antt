-- ===== src/RateLimit/Source.antt =====
-- The ceiling of one source, and the bound on the table, in internal/ratelimit/ratelimit.go.
use buddynet.Support.{
  ℕ, ◌+◌, ◌*◌, ◌≤◌, ◌≡◌, refl, ap, sym, subst, subst₂, ◌∙◌, inl, inr, ite, if_pos, if_neg, not,
  Bool, false, List, [], ◌∷◌, Option, none, some, arith, Text, text_dec, text_key, lookup, insert,
  retain, passing, IsDistinct, lookup-insert, lookup-retain, insert-IsDistinct, retain-IsDistinct,
  length-insert-le, length-insert_present, length-retain-le, length, leb, Option-cases, Bool-cases,
}
use buddynet.Support.Int.{pos, ◌+ℤ◌, ◌≤ℤ◌, int_laws}
use buddynet.RateLimit.{
  unit, Bucket, Limiter, fresh, full, take, prune, allow_global, charge, admit_new, allow, new,
}
use buddynet.RateLimit.Tokens.{last-take, take_conserves, take-nonneg, full-covers, mul-le}
use buddynet.RateLimit.Global.{Call, IsOrdered, allow-SameLimits, cost-one_if, one_if}

-- How many calls of the source were allowed.
unfoldable pub admitted_of : Text → Limiter → List Call → ℕ
admitted_of s l [] = 0
admitted_of s l ((src, now) ∷ calls) =
    ite (text_dec src s) (one_if (allow l src now).1) 0 + admitted_of s (allow l src now).0 calls

-- What the source has been given by time `t`, `n` calls since `start`, against its bucket.
abbrev Spent : ℕ → ℕ → ℕ → ℕ → ℕ → Option Bucket → Type 0
Spent rate burst start n t none = unit * n + start * rate ≤ t * rate
Spent rate burst start n t (some b) =
    (pos (unit * n + start * rate) +ℤ b.tokens ≤ℤ pos (burst * unit + b.last * rate))
    × (pos 0 ≤ℤ b.tokens)
    × (b.last ≤ t)

Spent-later :
    (rate burst start n t now : ℕ) (o : Option Bucket)
    → t ≤ now
    → Spent rate burst start n t o
    → Spent rate burst start n now o
Spent-later rate burst start n t now none h s = omega (arith, mul-le t now rate h)
Spent-later rate burst start n t now (some b) h s = (s.0, s.1, omega arith)

-- Forgetting a bucket that has refilled gives the source nothing.
Spent-pruned :
    (rate burst start n now : ℕ) (o : Option Bucket)
    → Spent rate burst start n now o
    → Spent rate burst start n now (passing (λ b. not (full b now rate burst)) o)
Spent-pruned rate burst start n now none s = s
Spent-pruned rate burst start n now (some b) s = elim (Bool-cases (full b now rate burst)) [
  | inr e ↦ rw e s
  | inl e ↦ rw e (omega (int_laws, full-covers b now rate burst e, s.0))
]

Spent-fresh :
    (rate burst start n now : ℕ)
    → Spent rate burst start n now none
    → Spent rate burst start n now (some (record { tokens = pos (burst * unit); last = now }))
Spent-fresh rate burst start n now s = (omega int_laws, omega arith, omega arith)

Spent-take :
    (rate burst start n now : ℕ) (b : Bucket)
    → Spent rate burst start n now (some b)
    → let (b', granted) = take b now rate burst in
      Spent rate burst start (n + one_if granted) now (some b')
Spent-take rate burst start n now b s = (
  omega (
    int_laws,
    s.0,
    take_conserves b now rate burst,
    last-take b now rate burst,
    ap (λ (x : ℕ). x * rate) (last-take b now rate burst),
    cost-one_if (take b now rate burst).1,
  ),
  take-nonneg b now rate burst s.1 s.2,
  omega (arith, last-take b now rate burst),
)

Spent-fewer :
    (rate burst start n m t : ℕ) (o : Option Bucket)
    → m ≤ n
    → Spent rate burst start n t o
    → Spent rate burst start m t o
Spent-fewer rate burst start n m t none h s = omega arith
Spent-fewer rate burst start n m t (some b) h s = (omega (int_laws, s.0), s.1, s.2)

module _ (s : Text) (start : ℕ) where
  -- What a call for `src` adds to the count of `s`.
  abbrev tally : Text → Bool → ℕ
  tally src granted = ite (text_dec src s) (one_if granted) 0

  per_src-charge :
      (l : Limiter) (src : Text) (b : Bucket) (now : ℕ)
      → ((charge l src b now).0.per_src
          ≡ insert src (take b now l.src_rate l.src_burst).0 l.per_src)
        × (one_if (charge l src b now).1 ≤ one_if (take b now l.src_rate l.src_burst).1)
  unfolding charge allow_global
  per_src-charge l src b now = ground arith

  charge-Spent :
      (n now : ℕ) (l : Limiter) (src : Text) (b : Bucket)
      → Spent l.src_rate l.src_burst start n now (lookup s l.per_src)
      → (src ≡ s → Spent l.src_rate l.src_burst start n now (some b))
      → let (l', granted) = charge l src b now in
        Spent l.src_rate l.src_burst start (n + tally src granted) now (lookup s l'.per_src)
  charge-Spent n now l src b other own =
      let (table, granted) = per_src-charge l src b now in
      rw (table, lookup-insert)
        (elim (text_dec src s) [
          | no p ↦ rw (if_neg _ p, if_neg _ p) (Spent-fewer _ _ _ n _ _ _ (omega arith) other)
          | yes p ↦
              rw (if_pos _ p, if_pos _ p)
                (Spent-fewer l.src_rate l.src_burst start
                  (n + one_if (take b now l.src_rate l.src_burst).1)
                  (n + one_if (charge l src b now).1) now
                  (some (take b now l.src_rate l.src_burst).0) (omega arith)
                  (Spent-take _ _ _ n now b (own p)))
        ])

  -- A bucket made for the call starts at the burst.
  charge-fresh-Spent :
      (n now : ℕ) (l : Limiter) (src : Text)
      → (src ≡ s → lookup s l.per_src ≡ none)
      → Spent l.src_rate l.src_burst start n now (lookup s l.per_src)
      → let (l', granted) = charge l src (fresh l now) now in
        Spent l.src_rate l.src_burst start (n + tally src granted) now (lookup s l'.per_src)
  charge-fresh-Spent n now l src miss h =
      charge-Spent n now l src (fresh l now) h
        (λ p. Spent-fresh _ _ _ n now (subst (Spent l.src_rate l.src_burst start n now) (miss p) h))

  admit_new-Spent :
      (n now : ℕ) (l : Limiter) (src : Text)
      → IsDistinct l.per_src
      → lookup src l.per_src ≡ none
      → Spent l.src_rate l.src_burst start n now (lookup s l.per_src)
      → let (l', granted) = admit_new l src now in
        Spent l.src_rate l.src_burst start (n + tally src granted) now (lookup s l'.per_src)
  unfolding admit_new prune
  admit_new-Spent n now l src d miss h =
      let idle : Bucket → Bool = λ b. not (full b now l.src_rate l.src_burst) in
      let pruned = Spent-pruned _ _ _ n now (lookup s l.per_src) h in
      let left = lookup-retain idle s l.per_src d in
      let gone : src ≡ s → lookup s (retain idle l.per_src) ≡ none =
        λ p. left ∙ ap (passing idle) (subst (λ a. lookup a l.per_src ≡ none) p miss) in
      let held = subst (Spent l.src_rate l.src_burst start n now) (sym left) pruned in
      elim (Bool-cases (leb l.max_sources (length l.per_src))) [
        | inr e ↦
            rw (e, admit_new)
              (charge-fresh-Spent n now l src (λ p. subst (λ a. lookup a l.per_src ≡ none) p miss)
                h)
        | inl e ↦ elim (Bool-cases (leb l.max_sources (length (prune l now).per_src))) [
          | inr f ↦ rw (e, f, admit_new) (charge-fresh-Spent n now (prune l now) src gone held)
          | inl f ↦ rw (e, f, admit_new) (Spent-fewer _ _ _ n _ _ _ (ground arith) held)
        ]
      ]

  allow-Spent :
      (n now : ℕ) (l : Limiter) (src : Text)
      → IsDistinct l.per_src
      → Spent l.src_rate l.src_burst start n now (lookup s l.per_src)
      → let (l', granted) = allow l src now in
        Spent l.src_rate l.src_burst start (n + tally src granted) now (lookup s l'.per_src)
  unfolding allow
  allow-Spent n now l src d h = elim (Option-cases (lookup src l.per_src)) [
    | inl e ↦ rw (e, allow) (admit_new-Spent n now l src d e h)
    | inr (b, e) ↦
        rw (e, allow)
          (charge-Spent n now l src b h (λ p.
            subst (Spent l.src_rate l.src_burst start n now)
              (subst (λ a. lookup a l.per_src ≡ some b) p e) h))
  ]

-- The table of sources: no source twice, and never more than the configured number.
pub record IsBounded (l : Limiter) : Type 0 where
  pub distinct : IsDistinct l.per_src
  pub within : length l.per_src ≤ l.max_sources

max_sources-charge :
    (l : Limiter) (src : Text) (b : Bucket) (now : ℕ)
    → (charge l src b now).0.max_sources ≡ l.max_sources
unfolding charge allow_global
max_sources-charge l src b now = ground arith

charge-IsBounded :
    (l : Limiter) (src : Text) (b : Bucket) (now : ℕ)
    → IsDistinct l.per_src
    → (let b' = (take b now l.src_rate l.src_burst).0 in
        length (insert src b' l.per_src) ≤ l.max_sources)
    → IsBounded (charge l src b now).0
charge-IsBounded l src b now d room =
    let table = (per_src-charge src 0 l src b now).0 in
    record {
      distinct = rw table (insert-IsDistinct src _ l.per_src d);
      within = rw (table, max_sources-charge l src b now) room;
    }

prune-IsBounded : (l : Limiter) (now : ℕ) → IsBounded l → IsBounded (prune l now)
unfolding prune
prune-IsBounded l now v =
    let idle : Bucket → Bool = λ b. not (full b now l.src_rate l.src_burst) in
    record {
      distinct = retain-IsDistinct idle l.per_src v.distinct;
      within = omega (arith, v.within, length-retain-le idle l.per_src);
    }

admit_new-IsBounded :
    (l : Limiter) (src : Text) (now : ℕ) → IsBounded l → IsBounded (admit_new l src now).0
unfolding admit_new prune
admit_new-IsBounded l src now v = elim (Bool-cases (leb l.max_sources (length l.per_src))) [
  | inr e ↦ rw (e, admit_new) (charge-IsBounded l src (fresh l now) now v.distinct (room l e _))
  | inl e ↦ elim (Bool-cases (leb l.max_sources (length (prune l now).per_src))) [
    | inr f ↦
        rw (e, f, admit_new)
          (charge-IsBounded (prune l now) src (fresh l now) now (prune-IsBounded l now v).distinct
            (room (prune l now) f _))
    | inl f ↦ rw (e, f, admit_new) (prune-IsBounded l now v)
  ]
]
  where
    room :
        (l : Limiter)
        → leb l.max_sources (length l.per_src) ≡ false
        → (b : Bucket) → length (insert src b l.per_src) ≤ l.max_sources
    room l e b = ground (arith, length-insert-le src b l.per_src)

-- No run of calls grows the table past its bound.
pub allow-IsBounded :
    (l : Limiter) (src : Text) (now : ℕ) → IsBounded l → IsBounded (allow l src now).0
unfolding allow
allow-IsBounded l src now v = elim (Option-cases (lookup src l.per_src)) [
  | inl e ↦ rw (e, allow) (admit_new-IsBounded l src now v)
  | inr (b, e) ↦
      rw (e, allow)
        (charge-IsBounded l src b now v.distinct
          (omega (arith, v.within, length-insert_present src _ b l.per_src e)))
]

Spent-end :
    (rate burst start n t end : ℕ) (o : Option Bucket)
    → t ≤ end
    → Spent rate burst start n t o
    → unit * n + start * rate ≤ burst * unit + end * rate
Spent-end rate burst start n t end none h s = omega (arith, mul-le t end rate h)
Spent-end rate burst start n t end (some b) h s =
    omega (int_laws, s.0, s.1, mul-le b.last end rate (omega arith))

-- A call, seen from a source, at the limiter's own rate and burst.
allow-Spent_at :
    (s : Text) (start rate burst n now : ℕ) (l : Limiter) (src : Text)
    → l.src_rate ≡ rate
    → l.src_burst ≡ burst
    → IsDistinct l.per_src
    → Spent rate burst start n now (lookup s l.per_src)
    → let (l', granted) = allow l src now in
      Spent rate burst start (n + ite (text_dec src s) (one_if granted) 0) now (lookup s l'.per_src)
allow-Spent_at s start rate burst n now l src er eb d =
    let (l', granted) = allow l src now in
    let m = n + ite (text_dec src s) (one_if granted) 0 in
    subst₂
      (λ r b.
        Spent r b start n now (lookup s l.per_src) → Spent r b start m now (lookup s l'.per_src))
      er eb (allow-Spent s start n now l src d)

-- What a run leaves to a source, from any state that accounts for it.
replay-Spent :
    (s : Text) (start rate burst n t end : ℕ) (l : Limiter) (calls : List Call)
    → l.src_rate ≡ rate
    → l.src_burst ≡ burst
    → IsOrdered t calls end
    → IsBounded l
    → Spent rate burst start n t (lookup s l.per_src)
    → unit * (n + admitted_of s l calls) + start * rate ≤ burst * unit + end * rate
unfolding admitted_of
replay-Spent s start rate burst n t end l [] er eb o v h =
    omega (arith, Spent-end rate burst start n t end (lookup s l.per_src) o h)
replay-Spent s start rate burst n t end l ((src, now) ∷ calls) er eb o v h =
    let (l', granted) = allow l src now in
    let same = allow-SameLimits l src now in
    let m = n + ite (text_dec src s) (one_if granted) 0 in
    let h' = Spent-later rate burst start n t now (lookup s l.per_src) o.0 h in
    omega (
      arith,
      replay-Spent s start rate burst m now end l' calls (same.src_rate ∙ er) (same.src_burst ∙ eb)
          o.1 (allow-IsBounded l src now v)
          (allow-Spent_at s start rate burst n now l src er eb v.distinct h'),
    )

-- Over any run of `Allow` on a new limiter, if the clock does not go back then the calls allowed
-- to one source are at most its burst, which is twice its rate, and its rate times the seconds
-- that have passed: forgetting an idle source and meeting it again gives it nothing.
pub source_ceiling :
    (s : Text) (global_rate rate max_sources start end : ℕ) (calls : List Call)
    → IsOrdered start calls end
    → unit * admitted_of s (new global_rate rate max_sources start) calls + start * rate
      ≤ 2 * rate * unit + end * rate
unfolding new
source_ceiling s global_rate rate max_sources start end calls o =
    let l = new global_rate rate max_sources start in
    omega (
      arith,
      replay-Spent s start rate (2 * rate) 0 start end l calls refl refl o
          (record { distinct = tt; within = omega arith }) (unfold lookup in omega arith),
    )
