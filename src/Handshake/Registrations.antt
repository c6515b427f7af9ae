-- ===== src/Handshake/Registrations.antt =====
-- A registration keeps the bounds of the registry of internal/role/handshake.go.
use buddynet.Support.{
  ℕ, ◌+◌, ◌-◌, ◌≤◌, ◌≡◌, ◌≢◌, refl, sym, ap, ◌∙◌, inl, inr, Bool, true, false, not, ◌&&◌, some, [],
  ◌∷◌, Text, text_key, Map, lookup, insert, delete, length, arith, Bool-cases, Option-cases,
  insert-IsDistinct, delete-IsDistinct, length-insert-le, length-insert_present, length-delete-le,
  lookup-insert, is_some, ltb, leb, if◌then◌else◌, Stands,
}
use buddynet.Net.{Addr, Texts}
use buddynet.Ticket.{same}
use buddynet.Handshake.{
  Candidate, is_v6, HsPeer, Peers, TextSet, HsRegistry, Message, max_tokens, max_ids_per_token,
  max_cands_per_peer, observe, warn_intruder,
}
use buddynet.Handshake.Registry.{
  or_empty, note_key, record_key, update, new_peer, find_partner, open_bucket, enter, upsert,
}
use buddynet.Handshake.Bounds.{
  insert-Values, delete-Values, lookup-Values, IsPeer, IsBucket, IsBounded, store-IsBounded, Opened,
  open_bucket-Opened,
}

-- A registration whose address is the one that its key derives.
pub record IsDerived (vip : Text → Text) (m : Message) : Type 0 where
  pub keyed : m.pubkey ≢ []
  pub addressed : m.virtual_ip ≢ []
  pub derived : m.virtual_ip ≡ vip m.pubkey

module _ (vip : Text → Text) where
  warn_intruder-IsBounded :
      (r : HsRegistry) (token : Text) (src : Addr) (b : Peers)
      → lookup token r.waiting ≡ some b
      → IsBounded vip r
      → IsBounded vip (warn_intruder r token src).0
  unfolding warn_intruder
  warn_intruder-IsBounded r token src b at v =
      elim (Bool-cases (is_some (lookup token r.intruder_warned))) [
        | inl e ↦ rw (e, warn_intruder) v
        | inr e ↦ elim (Bool-cases (leb max_tokens (length r.intruder_warned))) [
          | inl f ↦ rw (e, f, warn_intruder) v
          | inr f ↦
              rw (e, f, warn_intruder)
                (record {
                  distinct = v.distinct;
                  tokens = v.tokens;
                  buckets = v.buckets;
                  keys = v.keys;
                  keys_placed = v.keys_placed;
                  warned_placed = λ t n.
                      ground (arith, v.warned_placed t, lookup-insert token t tt r.intruder_warned);
                  warned = ground (arith, length-insert-le token tt r.intruder_warned);
                  logged = v.logged;
                  sids = v.sids;
                })
        ]
      ]

  same_waiting :
      (r : HsRegistry) (token : Text) (known : TextSet) (src : Addr)
      → ((note_key r token known src).0.waiting ≡ r.waiting)
        × ((note_key r token known src).0.seen_pks ≡ r.seen_pks)
        × ((note_key r token known src).0.ttl ≡ r.ttl)
  unfolding note_key warn_intruder
  same_waiting r token known src = ground arith

  note_key-IsBounded :
      (r : HsRegistry) (token : Text) (known : TextSet) (src : Addr) (b : Peers)
      → lookup token r.waiting ≡ some b
      → IsBounded vip r
      → IsBounded vip (note_key r token known src).0
  unfolding note_key
  note_key-IsBounded r token known src b at v =
      elim (Bool-cases (leb max_ids_per_token (length known))) [
        | inl e ↦ rw (e, note_key) (warn_intruder-IsBounded r token src b at v)
        | inr e ↦ rw (e, note_key) v
      ]

  -- The keys of a token with a bucket are replaced.
  keys-IsBounded :
      (r : HsRegistry) (token : Text) (known : TextSet) (b : Peers)
      → lookup token r.waiting ≡ some b
      → length known ≤ max_ids_per_token + 1
      → IsBounded vip r
      → IsBounded vip (record r { seen_pks = insert token known r.seen_pks })
  keys-IsBounded r token known b at few v = record {
    distinct = v.distinct;
    tokens = v.tokens;
    buckets = v.buckets;
    keys =
        insert-Values (λ known. length known ≤ max_ids_per_token + 1) token known r.seen_pks few
          v.keys;
    keys_placed = λ t n. ground (arith, v.keys_placed t, lookup-insert token t known r.seen_pks);
    warned_placed = v.warned_placed;
    warned = v.warned;
    logged = v.logged;
    sids = v.sids;
  }

  record_key-IsBounded :
      (r : HsRegistry) (token pubkey : Text) (src : Addr) (b : Peers)
      → lookup token r.waiting ≡ some b
      → IsBounded vip r
      → IsBounded vip (record_key r token pubkey src).0
        × ((record_key r token pubkey src).0.waiting ≡ r.waiting)
  unfolding record_key
  record_key-IsBounded r token pubkey src b at v =
      let known = or_empty (lookup token r.seen_pks) in
      let few : length known ≤ max_ids_per_token + 1 =
        elim (Option-cases (lookup token r.seen_pks)) [
          | inl e ↦ rw e (omega arith)
          | inr (k, e) ↦ rw e (
              lookup-Values (λ known. length known ≤ max_ids_per_token + 1) token k r.seen_pks
                v.keys e)
        ] in
      let (kept, same_keys, same_ttl) = same_waiting r token known src in
      elim (Bool-cases
        (not (is_some (lookup pubkey known)) && not (leb (max_ids_per_token + 1) (length known)))) [
          | inl e ↦
              rw (e, record_key)
                (
                  keys-IsBounded (note_key r token known src).0 token (insert pubkey tt known) b
                      (rw kept at) (ground (arith, length-insert-le pubkey tt known))
                      (note_key-IsBounded r token known src b at v),
                  kept,
                )
          | inr e ↦ rw (e, record_key) (keys-IsBounded r token known b at few v, refl)
        ]

  update_lem :
      (p : HsPeer) (m : Message)
      → IsDerived vip m
      → ((update p m).cands ≡ p.cands)
        × ((update p m).pubkey ≡ m.pubkey)
        × ((update p m).virtual_ip ≡ m.virtual_ip)
  unfolding update
  update_lem p m d = (ground arith, ground (arith, d.keyed), ground (arith, d.addressed))

  observe_lem :
      (texts : Texts) (p : HsPeer) (src : Addr) (now : ℕ)
      → ((observe texts p src now).pubkey ≡ p.pubkey)
        × ((observe texts p src now).virtual_ip ≡ p.virtual_ip)
        × ((observe texts p src now).seen ≡ now)
  unfolding observe
  observe_lem texts p src now = ground arith

  length-observe-le :
      (texts : Texts) (p : HsPeer) (src : Addr) (now : ℕ)
      → length p.cands ≤ max_cands_per_peer
      → length (observe texts p src now).cands ≤ max_cands_per_peer
  unfolding observe
  length-observe-le texts p src now few =
      let key = texts.addr_string src in
      let seen_at : Candidate = record { addr = key; v6 = is_v6 src.ip } in
      elim (Option-cases (lookup key p.cands)) [
        | inl e ↦ ground (arith, length-insert-le key seen_at p.cands)
        | inr (c, e) ↦ ground (arith, length-insert_present key seen_at c p.cands e)
      ]

  observe-IsPeer :
      (texts : Texts) (p : HsPeer) (m : Message) (src : Addr) (now : ℕ)
      → IsDerived vip m
      → length p.cands ≤ max_cands_per_peer
      → IsPeer vip (observe texts (update p m) src now)
  observe-IsPeer texts p m src now d few =
      let (cands, pubkey, address) = update_lem p m d in
      let (pubkey', address', seen) = observe_lem texts (update p m) src now in
      record {
        cands = length-observe-le texts (update p m) src now (rw cands few);
        address = address' ∙ address ∙ d.derived ∙ ap vip (sym pubkey) ∙ ap vip (sym pubkey');
      }

  find_partner-IsBucket :
      (id : Text) (ttl now : ℕ) (entries b : Peers)
      → IsBucket vip b
      → IsBucket vip (find_partner id ttl now entries b).0
  unfolding find_partner
  find_partner-IsBucket id ttl now [] b v = v
  find_partner-IsBucket id ttl now ((other, p) ∷ rest) b v = elim (Bool-cases (same other id)) [
    | inl e ↦ rw (e, find_partner) (find_partner-IsBucket id ttl now rest b v)
    | inr e ↦ elim (Bool-cases (ltb ttl (now - p.seen))) [
      | inl f ↦
          rw (e, f, find_partner)
            (find_partner-IsBucket id ttl now rest (delete other b) (record {
              distinct = delete-IsDistinct other b v.distinct;
              pair = omega (arith, v.pair, length-delete-le other b);
              peers = delete-Values (IsPeer vip) other b v.peers;
            }))
      | inr f ↦ rw (e, f, find_partner) v
    ]
  ]

  -- A change of the announcements.
  pub logged-IsBounded :
      (r : HsRegistry) (logged : TextSet)
      → length logged ≤ max_tokens
      → IsBounded vip r
      → IsBounded vip (record r { paired_logged = logged })
  logged-IsBounded r logged few v = record {
    distinct = v.distinct;
    tokens = v.tokens;
    buckets = v.buckets;
    keys = v.keys;
    keys_placed = v.keys_placed;
    warned_placed = v.warned_placed;
    warned = v.warned;
    logged = few;
    sids = v.sids;
  }

  -- The bucket of a registration is stored over the one that stood.
  restore-IsBounded :
      (r : HsRegistry) (token : Text) (b c : Peers) (logged : TextSet)
      → IsBounded vip r
      → lookup token r.waiting ≡ some c
      → IsBucket vip b
      → length logged ≤ max_tokens
      → IsBounded vip (record r { waiting = insert token b r.waiting; paired_logged = logged })
  restore-IsBounded r token b c logged v at bucket few =
      store-IsBounded vip token b (record r { paired_logged = logged })
        (logged-IsBounded r logged few v) bucket
        (omega (arith, v.tokens, length-insert_present token b c r.waiting at))

  few_logged :
      (some_partner : Bool) (token : Text) (logged : TextSet)
      → length logged ≤ max_tokens
      → length (if some_partner then logged else delete token logged) ≤ max_tokens
  few_logged true token logged h = h
  few_logged false token logged h = omega (arith, h, length-delete-le token logged)

  -- A peer that is there keeps the size of its bucket, and one that is new finds room.
  enter-IsBounded :
      (texts : Texts) (r : HsRegistry) (b : Peers) (p : HsPeer) (m : Message) (src : Addr) (now : ℕ)
      → IsDerived vip m
      → Opened vip m.token r b
      → length p.cands ≤ max_cands_per_peer
      → ((q : HsPeer) → length (insert m.id q b) ≤ max_ids_per_token)
      → IsBounded vip (enter texts r b p m src now).0
  unfolding enter
  enter-IsBounded texts r b p m src now d o few room =
      let self = observe texts (update p m) src now in
      let b₁ = insert m.id self b in
      let found = find_partner m.id r.ttl now b₁ b₁ in
      let (valid, same_waiting) = record_key-IsBounded r m.token m.pubkey src b o.stored o.valid in
      let after = (record_key r m.token m.pubkey src).0 in
      let bucket : IsBucket vip found.0 = find_partner-IsBucket m.id r.ttl now b₁ b₁ (record {
        distinct = insert-IsDistinct m.id self b o.bucket.distinct;
        pair = room self;
        peers =
            insert-Values (IsPeer vip) m.id self b (observe-IsPeer texts p m src now d few)
              o.bucket.peers;
      }) in
      let keyed : same m.pubkey [] ≡ false = ground (arith, d.keyed) in
      let stored = ap (lookup m.token) same_waiting ∙ o.stored in
      rw (keyed, enter)
        (restore-IsBounded after m.token found.0 b _ valid stored bucket
          (few_logged _ m.token after.paired_logged valid.logged))

  pub upsert-IsBounded :
      (texts : Texts) (iteration : Map Text Peers) (r : HsRegistry) (m : Message) (src : Addr)
      (now : ℕ)
      → IsDerived vip m
      → Stands iteration r.waiting
      → IsBounded vip r
      → IsBounded vip (upsert texts iteration r m src now).0
  unfolding upsert
  upsert-IsBounded texts iteration r m src now d s v =
      elim (Option-cases (open_bucket iteration r m.token)) [
        | inl e ↦ rw (e, upsert) v
        | inr ((q, b), e) ↦
            let o = open_bucket-Opened vip iteration r q m.token b s v e in
            elim (Option-cases (lookup m.id b)) [
              | inr (p, f) ↦
                  rw (e, f, upsert)
                    (enter-IsBounded texts q b p m src now d o
                      (lookup-Values (IsPeer vip) m.id p b o.bucket.peers f).cands
                      (λ x. omega (arith, o.bucket.pair, length-insert_present m.id x p b f)))
              | inl f ↦ elim (Bool-cases (leb max_ids_per_token (length b))) [
                | inl g ↦
                    rw (e, f, g, upsert) (warn_intruder-IsBounded q m.token src b o.stored o.valid)
                | inr g ↦
                    rw (e, f, g, upsert)
                      (enter-IsBounded texts q b (new_peer m.id) m src now d o (omega arith)
                        (λ x. ground (arith, length-insert-le m.id x b)))
              ]
            ]
      ]
