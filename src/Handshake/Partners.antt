-- ===== src/Handshake/Partners.antt =====
-- Who meets whom in the registry of internal/role/handshake.go.
use buddynet.Support.{
  ℕ, ◌-◌, ◌≤◌, ◌≡◌, ◌≢◌, refl, inl, inr, Option, some, [], ◌∷◌, Text, text_key, lookup, delete, In,
  subst, arith, Bool-cases, Option-cases, ltb, leb, length, lookup-insert,
}
use buddynet.Ticket.{same}
use buddynet.Handshake.{HsPeer, Peers, HsRegistry, max_tokens}
use buddynet.Handshake.Registry.{find_partner, sid_for}

-- The partner that is found stands under another id, and was seen within the ttl.
pub record IsPartner (id : Text) (ttl now : ℕ) (entries : Peers) (p : HsPeer) : Type 0 where
  pub other : Text
  pub apart : other ≢ id
  pub fresh : now - p.seen ≤ ttl
  pub place : In (other, p) entries

-- A peer is never given itself as its partner, nor a peer that was silent for longer than the ttl:
-- the partner is another entry of the same token's bucket, seen within it.
pub find_partner-IsPartner :
    (id : Text) (ttl now : ℕ) (entries b : Peers) (p : HsPeer)
    → (find_partner id ttl now entries b).1 ≡ some p
    → IsPartner id ttl now entries p
unfolding find_partner
find_partner-IsPartner id ttl now [] b p h = absurd (ground arith)
find_partner-IsPartner id ttl now ((other, q) ∷ rest) b p h =
    let later = λ (c : Peers) (k : (find_partner id ttl now rest c).1 ≡ some p).
      let found = find_partner-IsPartner id ttl now rest c p k in
      let here : IsPartner id ttl now ((other, q) ∷ rest) p = record {
        other = found.other;
        apart = found.apart;
        fresh = found.fresh;
        place = inr found.place;
      } in
      here in
    elim (Bool-cases (same other id)) [
      | inl e ↦ later b (ground arith)
      | inr e ↦ elim (Bool-cases (ltb ttl (now - q.seen))) [
        | inl f ↦ later (delete other b) (ground arith)
        | inr f ↦
            let same_peer : q ≡ p = ground arith in
            subst (IsPartner id ttl now ((other, q) ∷ rest)) same_peer (record {
              other = other;
              apart = ground arith;
              fresh = ground arith;
              place = inl refl;
            })
      ]
    ]

-- Both buddies of a token are given one session id: once a call has named it, each later call
-- names it too, whatever it draws, and changes nothing.
pub sid_for-sid_for :
    (r : HsRegistry) (token sid : Text) (fresh again : Option Text)
    → (sid_for r token fresh).1 ≡ some sid
    → sid_for (sid_for r token fresh).0 token again ≡ ((sid_for r token fresh).0, some sid)
unfolding sid_for
sid_for-sid_for r token sid fresh again h = elim (Option-cases (lookup token r.sids)) [
  | inr (old, e) ↦ ground arith
  | inl e ↦ elim (Bool-cases (leb max_tokens (length r.sids))) [
    | inl f ↦ absurd (ground arith)
    | inr f ↦ elim (Option-cases fresh) [
      | inl g ↦ absurd (ground arith)
      | inr (drawn, g) ↦ ground (arith, lookup-insert token token drawn r.sids)
    ]
  ]
]
