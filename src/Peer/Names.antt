-- ===== src/Peer/Names.antt =====
-- The pinning of names on first use, internal/peer/registry.go.
use buddynet.Support.{
  ℕ, ◌≡◌, ◌≢◌, ◌⊎◌, refl, sym, ap, ◌∙◌, inl, inr, none, some, List, [], ◌∷◌, Text, text_key,
  text_dec, lookup, lookup-insert, arith, Bool-cases, Option-cases, if◌then◌else◌, ◌==◌, subst,
}
use buddynet.Ticket.{same}
use buddynet.Peer.{Peer, Roster, empty, pin, pin_name, upsert}

-- A key's pinned name leads back to the key, and a peer is stored under its pinned name or none.
pub record IsPinned (r : Roster) : Type 0 where
  pub owned :
      (key name : Text)
      → lookup key r.name_by_key ≡ some name
      → (name ≢ []) × (lookup name r.key_by_name ≡ some key)
  pub named :
      (key : Text) (p : Peer)
      → lookup key r.peers ≡ some p
      → (p.pubkey ≡ key) × (p.name ≢ [] → lookup key r.name_by_key ≡ some p.name)

-- What `pinNameLocked` leaves.
record Pins (r : Roster) (pubkey : Text) (r' : Roster) (name : Text) : Type 0 where
  owned :
      (key n : Text)
      → lookup key r'.name_by_key ≡ some n
      → (n ≢ []) × (lookup n r'.key_by_name ≡ some key)
  kept : (key n : Text) → lookup key r.name_by_key ≡ some n → lookup key r'.name_by_key ≡ some n
  same_peers : r'.peers ≡ r.peers
  given : name ≢ [] → lookup pubkey r'.name_by_key ≡ some name

pin-Pins :
    (r : Roster) (pubkey name : Text)
    → IsPinned r
    → name ≢ []
    → lookup pubkey r.name_by_key ≡ none
    → ((owner : Text) → lookup name r.key_by_name ≡ some owner → owner ≡ pubkey)
    → Pins r pubkey (pin r pubkey name).0 (pin r pubkey name).1
unfolding pin
pin-Pins r pubkey name v some_name free mine = record {
  owned = λ key n h. elim (text_dec pubkey key) [
    | yes e ↦
        let same_name : name ≡ n = ground (arith, lookup-insert pubkey key name r.name_by_key) in
        (ground arith, ground (arith, lookup-insert name n pubkey r.key_by_name))
    | no e ↦
        let (some_n, back) =
          v.owned key n (ground (arith, lookup-insert pubkey key name r.name_by_key)) in
        (
          some_n,
          elim (text_dec name n) [
            | yes f ↦ absurd (e (sym (mine key (ap (λ x. lookup x r.key_by_name) f ∙ back))))
            | no f ↦ ground (arith, lookup-insert name n pubkey r.key_by_name)
          ],
        )
  ];
  kept = λ key n h. ground (arith, lookup-insert pubkey key name r.name_by_key);
  same_peers = refl;
  given = λ h. ground (arith, lookup-insert pubkey pubkey name r.name_by_key);
}

-- To leave the names alone.
keep-Pins :
    (r : Roster) (pubkey name : Text)
    → IsPinned r
    → (name ≢ [] → lookup pubkey r.name_by_key ≡ some name)
    → Pins r pubkey r name
keep-Pins r pubkey name v given = record {
  owned = v.owned;
  kept = λ key n h. h;
  same_peers = refl;
  given = given;
}

pin_name-Pins :
    (r : Roster) (pubkey name : Text)
    → IsPinned r
    → Pins r pubkey (pin_name r pubkey name).0 (pin_name r pubkey name).1
unfolding pin_name
pin_name-Pins r pubkey name v = elim (Bool-cases (same name [])) [
  | inl e ↦ rw (e, pin_name) (keep-Pins r pubkey _ v (λ h. ground arith))
  | inr e ↦ elim (Option-cases (lookup pubkey r.name_by_key)) [
    | inr (pinned, f) ↦ rw (e, f, pin_name) (keep-Pins r pubkey pinned v (λ h. f))
    | inl f ↦ elim (Option-cases (lookup name r.key_by_name)) [
      | inl g ↦
          rw (e, f, g, pin_name)
            (pin-Pins r pubkey name v (ground arith) f (λ owner h. absurd (ground arith)))
      | inr (owner, g) ↦ elim (Bool-cases (same owner pubkey)) [
        | inl h ↦
            rw (e, f, g, h, pin_name)
              (pin-Pins r pubkey name v (ground arith) f (λ o k. ground arith))
        | inr h ↦ rw (e, f, g, h, pin_name) (keep-Pins r pubkey [] v (λ k. absurd (k refl)))
      ]
    ]
  ]
]

-- An update keeps every pinned name, and leaves the names pinned.
pub upsert-IsPinned : (r : Roster) (p : Peer) (now : ℕ) → IsPinned r → IsPinned (upsert r p now).0
unfolding upsert
upsert-IsPinned r p now v =
    let (r', name) = pin_name r p.pubkey p.name in
    let pins = pin_name-Pins r p.pubkey p.name v in
    let stored : Peer = record p {
      last_seen = if p.last_seen == 0 then now else p.last_seen;
      name = name;
    } in
    record {
      owned = pins.owned;
      named = λ key q h. elim (text_dec p.pubkey key) [
        | yes e ↦
            let same_peer : stored ≡ q =
              ground (arith, lookup-insert p.pubkey key stored r'.peers) in
            subst (λ x. (x.pubkey ≡ key) × (x.name ≢ [] → lookup key r'.name_by_key ≡ some x.name))
              same_peer (e, λ n. subst (λ k. lookup k r'.name_by_key ≡ some name) e (pins.given n))
        | no e ↦
            let old : lookup key r.peers ≡ some q =
              ap (lookup key) (sym pins.same_peers)
              ∙ ground (arith, lookup-insert p.pubkey key stored r'.peers) in
            let (keyed, by_name) = v.named key q old in
            (keyed, λ n. pins.kept key q.name (by_name n))
      ];
    }

-- A name that a key is pinned to stays its name through any update, whatever name it claims.
pub lookup-upsert :
    (r : Roster) (p : Peer) (now : ℕ) (key name : Text)
    → IsPinned r
    → lookup key r.name_by_key ≡ some name
    → lookup key (upsert r p now).0.name_by_key ≡ some name
unfolding upsert
lookup-upsert r p now key name v h = (pin_name-Pins r p.pubkey p.name v).kept key name h

-- Updates, in any order, of a roster.
unfoldable pub replay : List (Peer × ℕ) → Roster → Roster
replay [] r = r
replay ((p, now) ∷ sightings) r = replay sightings (upsert r p now).0

replay-IsPinned :
    (sightings : List (Peer × ℕ)) (r : Roster) → IsPinned r → IsPinned (replay sightings r)
unfolding replay
replay-IsPinned [] r v = v
replay-IsPinned ((p, now) ∷ sightings) r v =
    replay-IsPinned sightings (upsert r p now).0 (upsert-IsPinned r p now v)

pub empty-IsPinned : IsPinned empty
unfolding lookup
empty-IsPinned = record {
  owned = λ key name h. absurd (ground arith);
  named = λ key p h. absurd (ground arith);
}

replay-name_by_key :
    (sightings : List (Peer × ℕ)) (r : Roster) (key name : Text)
    → IsPinned r
    → lookup key r.name_by_key ≡ some name
    → lookup key (replay sightings r).name_by_key ≡ some name
unfolding replay
replay-name_by_key [] r key name v h = h
replay-name_by_key ((p, now) ∷ sightings) r key name v h =
    replay-name_by_key sightings (upsert r p now).0 key name (upsert-IsPinned r p now v)
      (lookup-upsert r p now key name v h)

-- A peer cannot take a name over. In a roster that is filled by updates alone, a key whose peer has
-- a name is pinned to that name after whatever later updates, and every peer of the later roster
-- either has another name or is that key's own.
pub names_unique :
    (sightings later : List (Peer × ℕ)) (key other : Text) (p q : Peer)
    → lookup key (replay sightings empty).peers ≡ some p
    → p.name ≢ []
    → lookup other (replay later (replay sightings empty)).peers ≡ some q
    → (lookup key (replay later (replay sightings empty)).name_by_key ≡ some p.name)
      × ((q.name ≢ p.name) ⊎ (key ≡ other))
names_unique sightings later key other p q h some_name k =
    let before = replay sightings empty in
    let after = replay later before in
    let v = replay-IsPinned sightings empty empty-IsPinned in
    let v' = replay-IsPinned later before v in
    let pinned : lookup key after.name_by_key ≡ some p.name =
      replay-name_by_key later before key p.name v ((v.named key p h).1 some_name) in
    let mine = (v'.owned key p.name pinned).1 in
    (
      pinned,
      elim (text_dec q.name p.name) [
        | no e ↦ inl e
        | yes e ↦
            let theirs =
              (v'.owned other q.name ((v'.named other q k).1 (λ n. some_name (sym e ∙ n)))).1 in
            let same_owner : some key ≡ some other =
              sym mine ∙ ap (λ n. lookup n after.key_by_name) (sym e) ∙ theirs in
            inr (cc)
      ],
    )
