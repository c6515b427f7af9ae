-- ===== src/Trust/RelayOffer.antt =====
-- internal/role/relaytrust.go: which relay endpoint a buddy uses. net.SplitHostPort, strings.ToLower
-- and the canonical text of an IP literal are parameters.
use buddynet.Support.{
  ℕ, ◌≡◌, ◌≢◌, ◌⊎◌, inl, inr, Bool, true, false, not, Option, none, some, [], ◌∷◌, Text, text_key,
  text_dec, Map, insert, length, ◌==◌, ltb, if◌then◌else◌, is_some, lookup, arith, Option-cases,
}
use buddynet.Ticket.{same}

pub data Reason : Type 0 where
  no_host_port : Reason
  no_server : Reason
  other_host : Reason

pub data RelayOffer : Type 0 where
  no_relay : RelayOffer
  use_relay : Text → RelayOffer
  skipped : Text → Reason → RelayOffer

-- strings.TrimSuffix with ".".
unfoldable pub trim_dot : Text → Text
trim_dot [] = []
trim_dot (c ∷ []) = if c == 46 then [] else c ∷ []
trim_dot (c ∷ d ∷ s) = c ∷ trim_dot (d ∷ s)

module _ (split_host : Text → Option Text) (to_lower : Text → Text)
    (canonical_ip : Text → Option Text) where
  unfoldable pub host_of : Text → Option Text
  unfolding trim_dot
  host_of hostport = elim (split_host hostport) [
    | none ↦ none
    | some host ↦
        let name = to_lower (trim_dot host) in
        elim (canonical_ip name) [ none ↦ some name | some ip ↦ some ip ]
  ]

  unfoldable pub trusted_relay : Text → Text → Text → RelayOffer
  unfolding host_of
  trusted_relay local server advertised =
      if not (same local [])
      then use_relay local
      else if same advertised []
      then no_relay
      else elim (host_of advertised) [
        | none ↦ skipped advertised no_host_port
        | some a ↦ elim (host_of server) [
          | none ↦ skipped advertised no_server
          | some s ↦
              if same s []
              then skipped advertised no_server
              else if not (same a s)
              then skipped advertised other_host
              else use_relay advertised
        ]
      ]

abbrev pub max_relay_offer_latch : ℕ
max_relay_offer_latch = 64

-- The skipped offers that have been logged; true is a line.
unfoldable pub note_skipped : RelayOffer → Map Text Bool → Map Text Bool × Bool
note_skipped no_relay seen = (seen, false)
note_skipped (use_relay endpoint) seen = (seen, false)
note_skipped (skipped offer reason) seen =
    if is_some (lookup offer seen)
    then (seen, false)
    else (if ltb (length seen) max_relay_offer_latch then insert offer true seen else seen, true)

module _ (split_host : Text → Option Text) (to_lower : Text → Text)
    (canonical_ip : Text → Option Text) where
  -- A buddy uses only the relay that its operator has set, or, without one, an advertised endpoint
  -- whose host is that of the configured server.
  pub trusted_relay-local :
      (local server advertised endpoint : Text)
      → trusted_relay split_host to_lower canonical_ip local server advertised ≡ use_relay endpoint
      → ((endpoint ≡ local) × (local ≢ []))
        ⊎ ((local ≡ [])
            × (endpoint ≡ advertised)
            × (host_of split_host to_lower canonical_ip advertised
                ≡ host_of split_host to_lower canonical_ip server))
  unfolding trusted_relay
  trusted_relay-local local server advertised endpoint h = elim (text_dec local []) [
    | no n ↦ inl (ground (arith, h, n), n)
    | yes y ↦ elim (text_dec advertised []) [
      | yes z ↦ absurd (ground (arith, h, y, z))
      | no z ↦ elim (Option-cases (host_of split_host to_lower canonical_ip advertised)) [
        | inl e ↦ absurd (ground (arith, h, y, z, e))
        | inr (a, e) ↦ elim (Option-cases (host_of split_host to_lower canonical_ip server)) [
          | inl f ↦ absurd (ground (arith, h, y, z, e, f))
          | inr (s, f) ↦ elim (text_dec s []) [
            | yes g ↦ absurd (ground (arith, h, y, z, e, f, g))
            | no g ↦ elim (text_dec a s) [
              | no k ↦ absurd (ground (arith, h, y, z, e, f, g, k))
              | yes k ↦ inr (y, ground (arith, h, y, z, e, f, g, k), ground (arith, e, f, k))
            ]
          ]
        ]
      ]
    ]
  ]
