-- ===== src/Handshake/Runs.antt =====
-- The registry of internal/role/handshake.go over any run of its methods.
use buddynet.Support.{
  ℕ, ◌-◌, ◌≡◌, ◌≢◌, inl, inr, not, ◌==◌, Option, some, [], ◌∷◌, Text, text_key, Map, lookup, insert,
  length, arith, Bool-cases, Option-cases, IsDistinct, retain-IsDistinct, length-insert-le,
  length-insert_present, length-retain-le, lookup-insert, lookup-delete, is_some, ltb, leb, Stands,
  Stands-self, Stands-other,
}
use buddynet.Net.{Addr, Texts}
use buddynet.Handshake.{HsPeer, Peers, HsRegistry, Message, max_tokens, release}
use buddynet.Handshake.Registry.{
  upsert, note_paired, sid_for, fresh_peers, reap_bucket, reap_buckets, reap,
}
use buddynet.Handshake.Bounds.{
  retain-Values, lookup-Values, IsPeer, IsBucket, IsBounded, release-IsBounded, store-IsBounded,
  IsOrder,
}
use buddynet.Handshake.Registrations.{IsDerived, logged-IsBounded, upsert-IsBounded}

module _ (vip : Text → Text) where
  pub note_paired-IsBounded :
      (r : HsRegistry) (token : Text) → IsBounded vip r → IsBounded vip (note_paired r token).0
  unfolding note_paired
  note_paired-IsBounded r token v = elim (Bool-cases (is_some (lookup token r.paired_logged))) [
    | inl e ↦ rw (e, note_paired) v
    | inr e ↦ elim (Bool-cases (leb max_tokens (length r.paired_logged))) [
      | inl f ↦ rw (e, f, note_paired) v
      | inr f ↦
          rw (e, f, note_paired)
            (logged-IsBounded vip r (insert token tt r.paired_logged)
              (ground (arith, length-insert-le token tt r.paired_logged)) v)
    ]
  ]

  sid_for-IsBounded :
      (r : HsRegistry) (token : Text) (fresh : Option Text)
      → IsBounded vip r
      → IsBounded vip (sid_for r token fresh).0
  unfolding sid_for
  sid_for-IsBounded r token fresh v = elim (Option-cases (lookup token r.sids)) [
    | inr (sid, e) ↦ rw (e, sid_for) v
    | inl e ↦ elim (Bool-cases (leb max_tokens (length r.sids))) [
      | inl f ↦ rw (e, f, sid_for) v
      | inr f ↦ elim (Option-cases fresh) [
        | inl g ↦ rw (e, f, g, sid_for) v
        | inr (sid, g) ↦
            rw (e, f, g, sid_for)
              (record {
                distinct = v.distinct;
                tokens = v.tokens;
                buckets = v.buckets;
                keys = v.keys;
                keys_placed = v.keys_placed;
                warned_placed = v.warned_placed;
                warned = v.warned;
                logged = v.logged;
                sids = ground (arith, length-insert-le token sid r.sids);
              })
      ]
    ]
  ]

  reap_bucket-IsBounded :
      (token : Text) (b : Peers) (now : ℕ) (r : HsRegistry)
      → lookup token r.waiting ≡ some b
      → IsBounded vip r
      → IsBounded vip (reap_bucket token b now r)
  unfolding reap_bucket fresh_peers
  reap_bucket-IsBounded token b now r at v =
      let fresh = λ (p : HsPeer). not (ltb r.ttl (now - p.seen)) in
      let old = lookup-Values (IsBucket vip) token b r.waiting v.buckets at in
      let kept = fresh_peers r.ttl now b in
      let stored =
        store-IsBounded vip token kept r v
          (record {
            distinct = retain-IsDistinct fresh b old.distinct;
            pair = omega (arith, old.pair, length-retain-le fresh b);
            peers = retain-Values (IsPeer vip) fresh b old.peers;
          })
          (omega (arith, v.tokens, length-insert_present token kept b r.waiting at)) in
      elim (Bool-cases (length kept == 0)) [
        | inl e ↦
            rw (e, reap_bucket)
              (release-IsBounded vip token (record r { waiting = insert token kept r.waiting })
                stored)
        | inr e ↦ rw (e, reap_bucket) stored
      ]

  -- The reaper changes the bucket of its token only.
  lookup-reap_bucket :
      (token other : Text) (b : Peers) (now : ℕ) (r : HsRegistry)
      → other ≢ token
      → lookup other (reap_bucket token b now r).waiting ≡ lookup other r.waiting
  unfolding reap_bucket release
  lookup-reap_bucket token other b now r h =
      let kept = fresh_peers r.ttl now b in
      ground (
        arith,
        lookup-insert token other kept r.waiting,
        lookup-delete token other (insert token kept r.waiting),
      )

  reap_buckets-IsBounded :
      (entries : Map Text Peers) (now : ℕ) (r : HsRegistry)
      → IsDistinct entries
      → Stands entries r.waiting
      → IsBounded vip r
      → IsBounded vip (reap_buckets entries now r)
  unfolding reap_buckets
  reap_buckets-IsBounded [] now r d s v = v
  reap_buckets-IsBounded ((token, b) ∷ rest) now r d s v =
      reap_buckets-IsBounded rest now (reap_bucket token b now r) d.1
        (Stands-other token rest r.waiting _ d.0
          (λ other h. lookup-reap_bucket token other b now r h) s.1)
        (reap_bucket-IsBounded token b now r s.0 v)

  reap-IsBounded : (r : HsRegistry) (now : ℕ) → IsBounded vip r → IsBounded vip (reap r now)
  unfolding reap
  reap-IsBounded r now v =
      reap_buckets-IsBounded r.waiting now r v.distinct (Stands-self r.waiting v.distinct) v

module _ (texts : Texts) (vip : Text → Text) where
  -- One method of the registry, at any time. A registration has been checked to claim the address
  -- that its key derives.
  pub data Step (r : HsRegistry) : HsRegistry → Type 0 where
    upserts :
        (iteration : Map Text Peers) (m : Message) (src : Addr) (now : ℕ)
        → IsOrder vip iteration r.waiting
        → IsDerived vip m
        → Step r (upsert texts iteration r m src now).0
    notes : (token : Text) → Step r (note_paired r token).0
    names : (token : Text) (fresh : Option Text) → Step r (sid_for r token fresh).0
    reaps : (now : ℕ) → Step r (reap r now)

  pub data Reach (r : HsRegistry) : HsRegistry → Type 0 where
    here : Reach r r
    next : {s t : HsRegistry} → Reach r s → Step s t → Reach r t

  Step-IsBounded : {r s : HsRegistry} → Step r s → IsBounded vip r → IsBounded vip s
  Step-IsBounded {r} (upserts iteration m src now order d) v =
      upsert-IsBounded vip texts iteration r m src now d order.0 v
  Step-IsBounded {r} (notes token) v = note_paired-IsBounded vip r token v
  Step-IsBounded {r} (names token fresh) v = sid_for-IsBounded vip r token fresh v
  Step-IsBounded {r} (reaps now) v = reap-IsBounded vip r now v

  -- Whatever registrations arrive that claim a key and the address that the key derives, and in
  -- whatever order the methods run, a registry that started within its bounds stays within them, and
  -- every peer stays at the address that its key derives. The bounds are at most 4096 tokens, two peers under each with at most
  -- eight endpoints, three keys remembered for a token, and nothing remembered of keys and warnings
  -- for a token without a bucket.
  pub Reach-IsBounded : {r s : HsRegistry} → IsBounded vip r → Reach r s → IsBounded vip s
  Reach-IsBounded v here = v
  Reach-IsBounded v (next reach step) = Step-IsBounded step (Reach-IsBounded v reach)
