-- ===== src/Handshake/Pairing.antt =====
-- What a registration and a pairing of internal/role/handshake.go establish.
use buddynet.Support.{
  ℕ, ◌+◌, ◌^◌, ◌≤◌, ◌<◌, ◌≡◌, ◌≢◌, ◌⊎◌, refl, ap, subst, ◌∙◌, inl, inr, true, not, none, some, [],
  ◌∷◌, Text, text_key, text_dec, Map, arith, Bool-cases, Option-cases,
}
use buddynet.Support.Int.{ℤ, pos, ◌+ℤ◌, ◌-ℤ◌}
use buddynet.Net.{Addr, Texts}
use buddynet.Ticket.{Stdlib, ok, check_window, max_ttl, skew}
use buddynet.Ticket.Window.{check_window_iff}
use buddynet.Peer.{precedes}
use buddynet.Handshake.{Peers, HsRegistry, Message}
use buddynet.Handshake.Registry.{upsert}
use buddynet.Handshake.Bounds.{IsOrder, IsBounded}
use buddynet.Handshake.Registrations.{IsDerived, upsert-IsBounded}
use buddynet.Handshake.Runs.{note_paired-IsBounded}
use buddynet.Handshake.Admission.{
  Codec, verify_registration, decode_pub_key, virtual_ip_string, derive_vip, pair, pair_register,
  leg_for, ticket_for,
}

-- The order of keys is total.
precedes-total : (s t : Text) → s ≢ t → precedes s t ≡ not (precedes t s)
unfolding precedes
precedes-total [] [] h = absurd (h refl)
precedes-total [] (d ∷ t) h = refl
precedes-total (c ∷ s) [] h = refl
precedes-total (c ∷ s) (d ∷ t) h = elim (text_dec s t) [
  | yes e ↦ ground (arith, λ (f : c ≡ d). h (cc))
  | no e ↦ ground (arith, precedes-total s t e)
]

-- The two buddies of a pairing get the two legs, each one without a word from the other.
pub leg_for-differ :
    (key partner : Text) → key ≢ partner → leg_for key partner ≢ leg_for partner key
unfolding leg_for
leg_for-differ key partner h e = ground (arith, precedes-total key partner h)

-- A ticket is current at a relay whose clock is at most ten seconds behind the issue, until ten
-- seconds after its 120.
pub ticket_for-current :
    (rid sid : Text) (m : Message) (partner nonce : Text) (issued now : ℕ)
    → issued < 2 ^ 62
    → now < 2 ^ 62
    → issued ≤ now + skew
    → now ≤ issued + max_ttl + skew
    → check_window (ticket_for rid sid m partner nonce issued) (pos now) ≡ ok tt
unfolding ticket_for ◌+ℤ◌ ◌-ℤ◌
ticket_for-current rid sid m partner nonce issued now small small' early late =
    (check_window_iff (ticket_for rid sid m partner nonce issued) (pos now)
        (omega arith, omega arith) (omega arith, omega arith) (ground arith, ground arith)
        (ground arith, ground arith)).1
      (record {
        positive = omega arith;
        short = ground arith;
        issued = ground arith;
        unexpired = ground arith;
      })

module _ (std : Stdlib) (codec : Codec) (texts : Texts) where
  -- The address that a key derives.
  abbrev pub derived_vip : Text → Text
  derived_vip b64 = elim (decode_pub_key std codec texts b64) [
    | none ↦ []
    | some key ↦ virtual_ip_string std codec texts key
  ]

  -- A registration that `deriveVIP` lets pass claims the address that its key derives.
  derive_vip-IsDerived :
      (m m' : Message)
      → ((ip : Text) → texts.netip_string ip ≢ [])
      → m.pubkey ≢ []
      → (derive_vip std codec texts m).1 ≡ some m'
      → IsDerived derived_vip m'
  unfolding derive_vip virtual_ip_string
  derive_vip-IsDerived m m' shown keyed h =
      elim (Option-cases (decode_pub_key std codec texts m.pubkey)) [
        | inl e ↦ absurd (ground (arith, keyed))
        | inr (key, e) ↦
            let want = virtual_ip_string std codec texts key in
            let filled : Message = record m { virtual_ip = want } in
            let same_message : filled ≡ m' = ground (arith, keyed) in
            subst (IsDerived derived_vip) same_message
              (record { keyed = keyed; addressed = shown _; derived = rw (e, derived_vip) refl })
      ]

  -- A registration without a key proves nothing.
  verify_registration-keyed :
      (m : Message) (now : ℤ)
      → codec.decode_std [] ≡ some []
      → verify_registration std codec texts m now ≡ true
      → m.pubkey ≢ []
  unfolding verify_registration
  verify_registration-keyed m now empty_key h n =
      let at : codec.decode_std m.pubkey ≡ some [] = ap codec.decode_std n ∙ empty_key in
      absurd (ground arith)

  pair-IsBounded :
      (vip : Text → Text) (iteration : Map Text Peers) (r : HsRegistry) (m : Message) (src : Addr)
      (now : ℕ)
      → IsDerived vip m
      → IsOrder vip iteration r.waiting
      → IsBounded vip r
      → IsBounded vip (pair std codec texts iteration r m src now).0
  unfolding pair
  pair-IsBounded vip iteration r m src now d order v =
      let entered = upsert texts iteration r m src now in
      let bounded = upsert-IsBounded vip texts iteration r m src now d order.0 v in
      elim (Option-cases entered.2) [
        | inl e ↦ rw (e, pair) bounded
        | inr ((self, partner), e) ↦ elim (Option-cases partner) [
          | inl f ↦ rw (e, f, pair) bounded
          | inr (q, f) ↦ rw (e, f, pair) (note_paired-IsBounded vip entered.0 m.token bounded)
        ]
      ]

  -- Whatever a client sends, a registration keeps the registry within its bounds and every peer of
  -- it at the address that its key derives; and a registration that changes the registry has
  -- proved, by a signature that is at most a minute old, that it holds its key.
  pub pair_register-IsBounded :
      (iteration : Map Text Peers) (r : HsRegistry) (m : Message) (src : Addr) (now : ℕ)
      → ((ip : Text) → texts.netip_string ip ≢ [])
      → codec.decode_std [] ≡ some []
      → IsOrder derived_vip iteration r.waiting
      → IsBounded derived_vip r
      → IsBounded derived_vip (pair_register std codec texts iteration r m src now).0
        × (((pair_register std codec texts iteration r m src now).0 ≡ r)
            ⊎ (verify_registration std codec texts m (pos now) ≡ true))
  unfolding pair_register
  pair_register-IsBounded iteration r m src now shown empty_key order v =
      elim (Bool-cases (verify_registration std codec texts m (pos now))) [
        | inr e ↦ rw (e, pair_register) (v, inl refl)
        | inl e ↦ elim (Option-cases (derive_vip std codec texts m).1) [
          | inl f ↦ rw (e, f, pair_register) (v, inl refl)
          | inr (m', f) ↦
              rw (e, f, pair_register)
                (
                  pair-IsBounded derived_vip iteration r m' src now
                      (derive_vip-IsDerived m m' shown
                        (verify_registration-keyed m (pos now) empty_key e) f)
                      order v,
                  inr refl,
                )
        ]
      ]
