-- ===== src/Authz/Replay.antt =====
-- The replay cache of internal/role/authz.go: what it remembers, and its bounds.
use buddynet.Support.{
  ℕ, suc, ◌+◌, ◌-◌, ◌≤◌, ◌<◌, ◌≡◌, ◌≢◌, refl, sym, ap, subst, ◌∙◌, inl, inr, Bool, true, false,
  ◌||◌, Option, none, some, List, [], ◌∷◌, Text, text_key, text_dec, Map, lookup, insert, delete,
  retain, length, arith, Bool-cases, Option-cases, ltb, leb, if◌then◌else◌, IsDistinct,
  insert-IsDistinct, delete-IsDistinct, retain-IsDistinct, lookup-insert, lookup-delete,
  lookup-retain, All, Stands, Stands-self,
}
use buddynet.Ticket.{same}
use buddynet.Authz.{
  Authorizer, reg_replay_window, max_replay_regs, within, is_recent, reg_key, oldest, evict_oldest,
  make_room, replayed, record_pre_auth,
}

-- How many entries are not older than a time.
abbrev pub count_since : ℕ → Map Text ℕ → ℕ
count_since t [] = 0
count_since t ((k, u) ∷ m) = (if leb t u then 1 else 0) + count_since t m

-- The oldest so far stands in the map, and is not younger than what the loop has met.
abbrev StandsIn : Map Text ℕ → Option (Text × ℕ) → Type 0
StandsIn m none = Unit
StandsIn m (some (k, t)) = lookup k m ≡ some t

oldest-StandsIn :
    (m : Map Text ℕ) (best : Option (Text × ℕ)) (entries : Map Text ℕ)
    → Stands entries m
    → StandsIn m best
    → StandsIn m (oldest best entries)
unfolding oldest
oldest-StandsIn m best [] s h = h
oldest-StandsIn m none ((k, t) ∷ entries) s h = oldest-StandsIn m (some (k, t)) entries s.1 s.0
oldest-StandsIn m (some (k, t)) ((j, u) ∷ entries) s h =
    oldest-StandsIn m _ entries s.1
      (elim (Bool-cases (ltb u t)) [ inl e ↦ rw e s.0 | inr e ↦ rw e h ])

oldest-le :
    (k : Text) (t : ℕ) (m : Map Text ℕ) (j : Text) (u : ℕ)
    → oldest (some (k, t)) m ≡ some (j, u)
    → (u ≤ t) × All (λ e. u ≤ e.1) m
unfolding oldest
oldest-le k t [] j u h = (ground arith, tt)
oldest-le k t ((i, s) ∷ m) j u h = elim (Bool-cases (ltb s t)) [
  | inl e ↦ let (a, all) = oldest-le i s m j u (rw e at h) in (ground arith, (ground arith, all))
  | inr e ↦ let (a, all) = oldest-le k t m j u (rw e at h) in (a, (ground arith, all))
]

oldest-none-le :
    (m : Map Text ℕ) (j : Text) (u : ℕ) → oldest none m ≡ some (j, u) → All (λ e. u ≤ e.1) m
unfolding oldest
oldest-none-le [] j u h = tt
oldest-none-le ((k, t) ∷ m) j u h = oldest-le k t m j u h

-- If no entry is older than a time, all are counted since it.
count_since-eq-length : (t : ℕ) (m : Map Text ℕ) → All (λ e. t ≤ e.1) m → count_since t m ≡ length m
count_since-eq-length t [] all = refl
count_since-eq-length t ((k, u) ∷ m) all = ground (arith, count_since-eq-length t m all.1)

-- An eviction keeps an entry if another one is older.
lookup-evict_oldest :
    (m : Map Text ℕ) (k : Text) (t : ℕ)
    → IsDistinct m
    → lookup k m ≡ some t
    → count_since t m < length m
    → lookup k (evict_oldest m) ≡ some t
unfolding evict_oldest
lookup-evict_oldest m k t d h few = elim (Option-cases (oldest none m)) [
  | inl e ↦ rw (e, evict_oldest) h
  | inr ((j, u), e) ↦
      let stands = subst (StandsIn m) e (oldest-StandsIn m none m (Stands-self m d) tt) in
      let all = oldest-none-le m j u e in
      elim (text_dec j k) [
        | no p ↦ rw (e, evict_oldest) (ground (arith, lookup-delete j k m))
        | yes p ↦
            let same_time : u ≡ t = ground arith in
            let full =
              count_since-eq-length t m (subst (λ n. All (λ e. n ≤ e.1) m) same_time all) in
            absurd (omega (arith, full, few))
      ]
]

count_since-le : (t : ℕ) (m : Map Text ℕ) → count_since t m ≤ length m
count_since-le t [] = omega arith
count_since-le t ((k, u) ∷ m) = ground (arith, count_since-le t m)

count_since-insert-le :
    (t : ℕ) (k : Text) (u : ℕ) (m : Map Text ℕ)
    → count_since t (insert k u m) ≤ suc (count_since t m)
unfolding insert
count_since-insert-le t k u [] = ground arith
count_since-insert-le t k u ((j, s) ∷ m) = ground (arith, count_since-insert-le t k u m)

count_since-delete-le :
    (t : ℕ) (k : Text) (m : Map Text ℕ) → count_since t (delete k m) ≤ count_since t m
unfolding delete
count_since-delete-le t k [] = omega arith
count_since-delete-le t k ((j, s) ∷ m) = ground (arith, count_since-delete-le t k m)

count_since-retain-le :
    (t : ℕ) (p : ℕ → Bool) (m : Map Text ℕ) → count_since t (retain p m) ≤ count_since t m
unfolding retain
count_since-retain-le t p [] = omega arith
count_since-retain-le t p ((j, s) ∷ m) = ground (arith, count_since-retain-le t p m)

module _ (k : Text) (t now : ℕ) (live : now - t < reg_replay_window) where
  -- To make room keeps a live entry, unless as many younger ones fill the cache.
  lookup-make_room :
      (limit : ℕ) (m : Map Text ℕ)
      → IsDistinct m
      → lookup k m ≡ some t
      → count_since t m < limit
      → lookup k (make_room limit now m) ≡ some t
  unfolding make_room within
  lookup-make_room limit m d h few =
      let p = λ (u : ℕ). ltb (now - u) reg_replay_window in
      let kept = retain p m in
      let stays : lookup k kept ≡ some t = ground (arith, lookup-retain p k m d) in
      elim (Bool-cases (leb limit (length m))) [
        | inr e ↦ rw (e, make_room) h
        | inl e ↦ elim (Bool-cases (leb limit (length kept))) [
          | inr f ↦ rw (e, f, make_room) stays
          | inl f ↦
              rw (e, f, make_room)
                (lookup-evict_oldest kept k t (retain-IsDistinct p m d) stays
                  (ground (arith, count_since-retain-le t p m)))
        ]
      ]

evict_oldest_lem :
    (m : Map Text ℕ)
    → IsDistinct m
    → IsDistinct (evict_oldest m) × ((t : ℕ) → count_since t (evict_oldest m) ≤ count_since t m)
unfolding evict_oldest
evict_oldest_lem m d = elim (Option-cases (oldest none m)) [
  | inl g ↦ rw (g, evict_oldest) (d, λ t. omega arith)
  | inr ((j, u), g) ↦
      rw (g, evict_oldest) (delete-IsDistinct j m d, λ t. count_since-delete-le t j m)
]

make_room_lem :
    (limit now : ℕ) (m : Map Text ℕ)
    → IsDistinct m
    → IsDistinct (make_room limit now m)
      × ((t : ℕ) → count_since t (make_room limit now m) ≤ count_since t m)
unfolding make_room within
make_room_lem limit now m d =
    let p = λ (u : ℕ). ltb (now - u) reg_replay_window in
    let kept = retain p m in
    let fewer = λ (t : ℕ). count_since-retain-le t p m in
    let (apart, less) = evict_oldest_lem kept (retain-IsDistinct p m d) in
    elim (Bool-cases (leb limit (length m))) [
      | inr e ↦ rw (e, make_room) (d, λ t. omega arith)
      | inl e ↦ elim (Bool-cases (leb limit (length kept))) [
        | inr f ↦ rw (e, f, make_room) (retain-IsDistinct p m d, fewer)
        | inl f ↦ rw (e, f, make_room) (apart, λ t. omega (arith, fewer t, less t))
      ]
    ]

-- A registration is remembered: its entry stands, and so many are not older.
pub record Remembers (k : Text) (t younger : ℕ) (a : Authorizer) : Type 0 where
  pub distinct : IsDistinct a.recent_regs
  pub entry : lookup k a.recent_regs ≡ some t
  pub few : count_since t a.recent_regs ≤ younger

-- A call of `replayed` or of `recordPreAuth`.
pub data Call : Type 0 where
  checks : Text → Text → ℕ → Call
  notes : Text → Text → ℕ → Call

abbrev pub time_of : Call → ℕ
time_of (checks pubkey nonce now) = now
time_of (notes pubkey nonce now) = now

unfoldable pub call : Call → Authorizer → Authorizer
call (checks pubkey nonce now) a = (replayed a pubkey nonce now).0
call (notes pubkey nonce now) a = record_pre_auth a pubkey nonce now

unfoldable pub calls : List Call → Authorizer → Authorizer
calls [] a = a
calls (c ∷ rest) a = calls rest (call c a)

later-Remembers :
    (k : Text) (t younger : ℕ) (a : Authorizer)
    → Remembers k t younger a
    → Remembers k t (suc younger) a
later-Remembers k t younger a r = record {
  distinct = r.distinct;
  entry = r.entry;
  few = omega (arith, r.few);
}

replayed-Remembers :
    (k : Text) (t younger : ℕ) (a : Authorizer) (pubkey nonce : Text) (now : ℕ)
    → now - t < reg_replay_window
    → younger < max_replay_regs
    → Remembers k t younger a
    → Remembers k t (suc younger) (replayed a pubkey nonce now).0
unfolding replayed is_recent
replayed-Remembers k t younger a pubkey nonce now live room r =
    let key = reg_key pubkey nonce in
    let kept = make_room max_replay_regs now a.recent_regs in
    let (apart, fewer) = make_room_lem max_replay_regs now a.recent_regs r.distinct in
    let stays =
      lookup-make_room k t now live max_replay_regs a.recent_regs r.distinct r.entry
        (omega (arith, r.few)) in
    elim (Bool-cases (same pubkey [] || same nonce [])) [
      | inl e ↦ rw (e, replayed) (later-Remembers k t younger a r)
      | inr e ↦ elim (Bool-cases (is_recent reg_replay_window now (lookup key a.recent_regs))) [
        | inl f ↦ rw (e, f, replayed) (later-Remembers k t younger a r)
        | inr f ↦ elim (Bool-cases (is_recent reg_replay_window now (lookup key a.pre_auth_regs))) [
          | inl g ↦ rw (e, f, g, replayed) (later-Remembers k t younger a r)
          | inr g ↦
              rw (e, f, g, replayed)
                (record {
                  distinct = insert-IsDistinct key now kept apart;
                  entry = elim (text_dec key k) [
                    | yes p ↦ absurd (ground (arith, r.entry))
                    | no p ↦ ground (arith, lookup-insert key k now kept)
                  ];
                  few = omega (arith, count_since-insert-le t key now kept, fewer t, r.few);
                })
        ]
      ]
    ]

recent_regs-record_pre_auth :
    (a : Authorizer) (pubkey nonce : Text) (now : ℕ)
    → (record_pre_auth a pubkey nonce now).recent_regs ≡ a.recent_regs
unfolding record_pre_auth
recent_regs-record_pre_auth a pubkey nonce now = ground arith

noted-Remembers :
    (k : Text) (t younger : ℕ) (a b : Authorizer)
    → b.recent_regs ≡ a.recent_regs
    → Remembers k t younger a
    → Remembers k t (suc younger) b
noted-Remembers k t younger a b e r = record {
  distinct = subst IsDistinct (sym e) r.distinct;
  entry = ap (lookup k) e ∙ r.entry;
  few = rw (e) (omega (arith, r.few));
}

call-Remembers :
    (k : Text) (t younger : ℕ) (a : Authorizer) (c : Call)
    → time_of c - t < reg_replay_window
    → younger < max_replay_regs
    → Remembers k t younger a
    → Remembers k t (suc younger) (call c a)
unfolding call
call-Remembers k t younger a (checks pubkey nonce now) live room r =
    replayed-Remembers k t younger a pubkey nonce now live room r
call-Remembers k t younger a (notes pubkey nonce now) live room r =
    noted-Remembers k t younger a (record_pre_auth a pubkey nonce now)
      (recent_regs-record_pre_auth a pubkey nonce now) r

-- The calls come before the window of a registration at `t` ends.
abbrev pub AreWithin : ℕ → List Call → Type 0
AreWithin t cs = All (λ c. time_of c - t < reg_replay_window) cs

calls-Remembers :
    (cs : List Call) (k : Text) (t younger : ℕ) (a : Authorizer)
    → AreWithin t cs
    → younger + length cs ≤ max_replay_regs
    → Remembers k t younger a
    → Remembers k t (younger + length cs) (calls cs a)
unfolding calls
calls-Remembers [] k t younger a live room r = subst (λ n. Remembers k t n a) (omega arith) r
calls-Remembers (c ∷ cs) k t younger a live room r =
    subst (λ n. Remembers k t n (calls cs (call c a))) (omega arith)
      (calls-Remembers cs k t (suc younger) (call c a) live.1 (omega (arith, room))
        (call-Remembers k t younger a c live.0 (omega (arith, room)) r))

-- An accepted registration is remembered, with the entries that are not older than it.
accepted-Remembers :
    (a : Authorizer) (pubkey nonce : Text) (t : ℕ)
    → IsDistinct a.recent_regs
    → pubkey ≢ []
    → nonce ≢ []
    → (replayed a pubkey nonce t).1 ≡ false
    → Remembers
        (reg_key pubkey nonce)
        t
        (suc (count_since t a.recent_regs))
        (replayed a pubkey nonce t).0
unfolding replayed
accepted-Remembers a pubkey nonce t d some_key some_nonce h =
    let key = reg_key pubkey nonce in
    let kept = make_room max_replay_regs t a.recent_regs in
    let (apart, fewer) = make_room_lem max_replay_regs t a.recent_regs d in
    elim (Bool-cases (same pubkey [] || same nonce [])) [
      | inl e ↦ absurd (ground (arith, some_key, some_nonce))
      | inr e ↦ elim (Bool-cases (is_recent reg_replay_window t (lookup key a.recent_regs))) [
        | inl f ↦ absurd (ground (arith))
        | inr f ↦ elim (Bool-cases (is_recent reg_replay_window t (lookup key a.pre_auth_regs))) [
          | inl g ↦ absurd (ground (arith))
          | inr g ↦
              rw (e, f, g, replayed)
                (record {
                  distinct = insert-IsDistinct key t kept apart;
                  entry = ground (arith, lookup-insert key key t kept);
                  few = omega (arith, count_since-insert-le t key t kept, fewer t);
                })
        ]
      ]
    ]

-- A registration that `replayed` let through is found to be replayed when it comes again within
-- the window of 120 seconds, whatever the calls of `replayed` and `recordPreAuth` in between, if
-- they and the entries not older than it at its acceptance are fewer than 4,096.
pub calls-replayed :
    (cs : List Call) (a : Authorizer) (pubkey nonce : Text) (t now : ℕ)
    → IsDistinct a.recent_regs
    → pubkey ≢ []
    → nonce ≢ []
    → (replayed a pubkey nonce t).1 ≡ false
    → AreWithin t cs
    → count_since t a.recent_regs + length cs < max_replay_regs
    → now - t < reg_replay_window
    → (replayed (calls cs (replayed a pubkey nonce t).0) pubkey nonce now).1 ≡ true
unfolding replayed is_recent
calls-replayed cs a pubkey nonce t now d some_key some_nonce h live room soon =
    let b = (replayed a pubkey nonce t).0 in
    let r =
      calls-Remembers cs (reg_key pubkey nonce) t (suc (count_since t a.recent_regs)) b live
        (omega (arith, room)) (accepted-Remembers a pubkey nonce t d some_key some_nonce h) in
    found (calls cs b) r.entry
  where
    found :
        (b : Authorizer)
        → lookup (reg_key pubkey nonce) b.recent_regs ≡ some t
        → (replayed b pubkey nonce now).1 ≡ true
    found b e = elim (text_dec pubkey []) [
      | yes p ↦ absurd (some_key p)
      | no p ↦ elim (text_dec nonce []) [ yes q ↦ absurd (some_nonce q) | no q ↦ ground (arith, e) ]
    ]
