-- ===== src/Handshake/Bounds.antt =====
-- The bounds of the registry of internal/role/handshake.go, over any run of its methods.
use buddynet.Support.{
  ℕ, suc, ◌+◌, ◌≤◌, ◌<◌, ◌≡◌, refl, ◌∙◌, inl, inr, Bool, Option, none, some, [], ◌∷◌, Text,
  text_key, text_dec, Map, lookup, insert, delete, retain, if_pos, take, length, subst, ltb, zero,
  All, arith, Bool-cases, Option-cases, IsDistinct, insert-IsDistinct, delete-IsDistinct,
  length-insert-le, length-delete-le, length-delete_present, lookup-insert, lookup-delete, leb,
  Stands,
}
use buddynet.Handshake.{
  HsPeer, Peers, HsRegistry, max_tokens, max_ids_per_token, max_cands_per_peer, evict_sample,
  release,
}
use buddynet.Handshake.Registry.{bucket_seen, stalest, evict_stalest, open_bucket}

-- All values of a map.
abbrev pub Values : {V : Type 0} → (V → Type 0) → Map Text V → Type 0
Values P m = All (λ e. P e.1) m

module _ {V : Type 0} (P : V → Type 0) where
  pub insert-Values :
      (a : Text) (v : V) (m : Map Text V) → P v → Values P m → Values P (insert a v m)
  unfolding insert
  insert-Values a v [] h all = (h, tt)
  insert-Values a v ((b, w) ∷ m) h all = ground (arith, insert-Values a v m h)

  pub delete-Values : (a : Text) (m : Map Text V) → Values P m → Values P (delete a m)
  unfolding delete
  delete-Values a [] all = tt
  delete-Values a ((b, w) ∷ m) all = ground (arith, delete-Values a m)

  pub retain-Values : (p : V → Bool) (m : Map Text V) → Values P m → Values P (retain p m)
  unfolding retain
  retain-Values p [] all = tt
  retain-Values p ((b, w) ∷ m) all = ground (arith, retain-Values p m)

  pub lookup-Values : (a : Text) (v : V) (m : Map Text V) → Values P m → lookup a m ≡ some v → P v
  unfolding lookup
  lookup-Values a v [] all h = absurd (ground arith)
  lookup-Values a v ((b, w) ∷ m) all h = ground (arith, lookup-Values a v m)

-- What the server keeps of a peer is bounded, and its address is the one that its key derives.
pub record IsPeer (vip : Text → Text) (p : HsPeer) : Type 0 where
  pub cands : length p.cands ≤ max_cands_per_peer
  pub address : p.virtual_ip ≡ vip p.pubkey

pub record IsBucket (vip : Text → Text) (b : Peers) : Type 0 where
  pub distinct : IsDistinct b
  pub pair : length b ≤ max_ids_per_token
  pub peers : Values (IsPeer vip) b

-- A map that has no entry for a token without a bucket.
abbrev pub Placed : {V W : Type 0} → Map Text V → Map Text W → Type 0
Placed waiting m = (t : Text) → lookup t waiting ≡ none → lookup t m ≡ none

pub record IsBounded (vip : Text → Text) (r : HsRegistry) : Type 0 where
  pub distinct : IsDistinct r.waiting
  pub tokens : length r.waiting ≤ max_tokens
  pub buckets : Values (IsBucket vip) r.waiting
  pub keys : Values (λ known. length known ≤ max_ids_per_token + 1) r.seen_pks
  pub keys_placed : Placed r.waiting r.seen_pks
  pub warned_placed : Placed r.waiting r.intruder_warned
  pub warned : length r.intruder_warned ≤ max_tokens
  pub logged : length r.paired_logged ≤ max_tokens
  pub sids : length r.sids ≤ max_tokens

module _ (vip : Text → Text) where
  pub release-IsBounded :
      (token : Text) (r : HsRegistry) → IsBounded vip r → IsBounded vip (release token r)
  unfolding release
  release-IsBounded token r v = record {
    distinct = delete-IsDistinct token r.waiting v.distinct;
    tokens = omega (arith, v.tokens, length-delete-le token r.waiting);
    buckets = delete-Values (IsBucket vip) token r.waiting v.buckets;
    keys = delete-Values (λ known. length known ≤ max_ids_per_token + 1) token r.seen_pks v.keys;
    keys_placed = λ t h.
        ground (
          arith,
          v.keys_placed t,
          lookup-delete token t r.waiting,
          lookup-delete token t r.seen_pks,
        );
    warned_placed = λ t h. ground (
      arith,
      v.warned_placed t,
      lookup-delete token t r.waiting,
      lookup-delete token t r.intruder_warned,
    );
    warned = omega (arith, v.warned, length-delete-le token r.intruder_warned);
    logged = omega (arith, v.logged, length-delete-le token r.paired_logged);
    sids = omega (arith, v.sids, length-delete-le token r.sids);
  }

  -- A bucket is stored.
  pub store-IsBounded :
      (token : Text) (b : Peers) (r : HsRegistry)
      → IsBounded vip r
      → IsBucket vip b
      → length (insert token b r.waiting) ≤ max_tokens
      → IsBounded vip (record r { waiting = insert token b r.waiting })
  store-IsBounded token b r v h room = record {
    distinct = insert-IsDistinct token b r.waiting v.distinct;
    tokens = room;
    buckets = insert-Values (IsBucket vip) token b r.waiting h v.buckets;
    keys = v.keys;
    keys_placed = λ t n. ground (arith, v.keys_placed t, lookup-insert token t b r.waiting);
    warned_placed = λ t n. ground (arith, v.warned_placed t, lookup-insert token t b r.waiting);
    warned = v.warned;
    logged = v.logged;
    sids = v.sids;
  }

  empty-IsBucket : IsBucket vip []
  empty-IsBucket = record { distinct = tt; pair = omega arith; peers = tt }

  -- The order in which a loop meets the entries of a map.
  abbrev pub IsOrder : Map Text Peers → Map Text Peers → Type 0
  IsOrder iteration waiting = Stands iteration waiting × (length iteration ≡ length waiting)

  -- The victim so far stands in the map.
  abbrev HasBucket : Map Text Peers → Option (Text × ℕ) → Type 0
  HasBucket waiting none = Unit
  HasBucket waiting (some (victim, oldest)) = (b : Peers) × (lookup victim waiting ≡ some b)

  stalest-HasBucket :
      (waiting : Map Text Peers) (best : Option (Text × ℕ)) (entries : Map Text Peers)
      → Stands entries waiting
      → HasBucket waiting best
      → HasBucket waiting (stalest best entries)
  unfolding stalest
  stalest-HasBucket waiting best [] s h = h
  stalest-HasBucket waiting none ((token, b) ∷ rest) s h =
      stalest-HasBucket waiting (some (token, bucket_seen b)) rest s.1 (b, s.0)
  stalest-HasBucket waiting (some (victim, oldest)) ((token, b) ∷ rest) s h =
      stalest-HasBucket waiting _ rest s.1
        (elim (Bool-cases (ltb (bucket_seen b) oldest)) [ inl e ↦ rw e (b, s.0) | inr e ↦ rw e h ])

  take-Stands :
      (n : ℕ) (entries waiting : Map Text Peers)
      → Stands entries waiting
      → Stands (take n entries) waiting
  take-Stands zero entries waiting s = tt
  take-Stands (suc n) [] waiting s = tt
  take-Stands (suc n) (e ∷ entries) waiting s = (s.0, take-Stands n entries waiting s.1)

  -- An eviction frees a place.
  evict_stalest-IsBounded :
      (iteration : Map Text Peers) (r r' : HsRegistry)
      → Stands iteration r.waiting
      → IsBounded vip r
      → evict_stalest iteration r ≡ some r'
      → IsBounded vip r' × (length r'.waiting < max_tokens)
  unfolding evict_stalest release
  evict_stalest-IsBounded iteration r r' s v h =
      elim (Option-cases (stalest none (take evict_sample iteration))) [
        | inl n ↦ absurd (ground arith)
        | inr ((victim, oldest), e) ↦
            let (b, stands) = subst (HasBucket r.waiting) e (
              stalest-HasBucket r.waiting none (take evict_sample iteration)
                (take-Stands evict_sample iteration r.waiting s) tt) in
            let same_state : release victim r ≡ r' = ground arith in
            subst (λ q. IsBounded vip q × (length q.waiting < max_tokens)) same_state
              (
                release-IsBounded victim r v,
                omega (arith, v.tokens, length-delete_present victim b r.waiting v.distinct stands),
              )
      ]

  -- The bucket of a token is found, or made where there is room for it.
  pub record Opened (token : Text) (r : HsRegistry) (b : Peers) : Type 0 where
    pub valid : IsBounded vip r
    pub bucket : IsBucket vip b
    pub stored : lookup token r.waiting ≡ some b

  pub open_bucket-Opened :
      (iteration : Map Text Peers) (r r' : HsRegistry) (token : Text) (b : Peers)
      → Stands iteration r.waiting
      → IsBounded vip r
      → open_bucket iteration r token ≡ some (r', b)
      → Opened token r' b
  unfolding open_bucket
  open_bucket-Opened iteration r r' token b s v h = elim (Option-cases (lookup token r.waiting)) [
    | inr (c, e) ↦
        let same_state : r ≡ r' = ground arith in
        let same_bucket : c ≡ b = ground arith in
        rw (← same_state, ← same_bucket)
          (record {
            valid = v;
            bucket = lookup-Values (IsBucket vip) token c r.waiting v.buckets e;
            stored = e;
          })
    | inl e ↦ elim (Bool-cases (leb max_tokens (length r.waiting))) [
      | inr f ↦ opened r v (ground arith) (ground arith) (ground arith)
      | inl f ↦ elim (Option-cases (evict_stalest iteration r)) [
        | inl g ↦ absurd (ground arith)
        | inr (q, g) ↦
            let (valid, room) = evict_stalest-IsBounded iteration r q s v g in
            opened q valid room (ground arith) (ground arith)
      ]
    ]
  ]
    where
      opened :
          (q : HsRegistry)
          → IsBounded vip q
          → length q.waiting < max_tokens
          → record q { waiting = insert token [] q.waiting } ≡ r'
          → [] ≡ b
          → Opened token r' b
      opened q valid room e f =
          rw (← e, ← f)
            (record {
              valid =
                  store-IsBounded token [] q valid empty-IsBucket
                    (omega (arith, room, length-insert-le token [] q.waiting));
              bucket = empty-IsBucket;
              stored =
                  lookup-insert token token [] q.waiting ∙ if_pos (text_dec token token) refl _ _;
            })
