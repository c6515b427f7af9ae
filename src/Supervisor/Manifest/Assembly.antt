-- ===== src/Supervisor/Manifest/Assembly.antt =====
-- The specs that internal/role/peersfile.go assembles, and what they leave running.
use buddynet.Support.{
  ℕ, ◌≤◌, ◌≡◌, ◌≢◌, refl, sym, subst, ◌∙◌, inl, inr, Bool, false, not, ◌&&◌, ◌||◌, Option, none,
  some, List, [], ◌∷◌, ◌++◌, Text, text_key, text_dec, Map, lookup, insert, lookup-insert, length,
  arith, Bool-cases, Option-cases, ltb, is_some, All,
}
use buddynet.Net.{Texts}
use buddynet.Ticket.{Stdlib, same}
use buddynet.Handshake.Admission.{Codec}
use buddynet.Scope.{Scope}
use buddynet.Supervisor.{PeerSpec, Supervisor, max_buddies, names, wanted, reload}
use buddynet.Supervisor.Index.{IsSound}
use buddynet.Supervisor.Reload.{IsOrder}
use buddynet.Supervisor.Steps.{reload-running}
use buddynet.Supervisor.Manifest.{
  has_text, unrevoked, session_specs, assembled, vip_of, find_collision, assemble_peers,
}

-- Whether a session is stored for a key.
unfoldable pub has_session : Text → List (Text × Text) → Bool
has_session k [] = false
has_session k ((pin, secret) ∷ sessions) = same pin k || has_session k sessions

names-unrevoked :
    (k : Text) (revoked : List Text) (specs : List PeerSpec)
    → names k (unrevoked revoked specs) ≡ (not (has_text k revoked) && names k specs)
unfolding names unrevoked
names-unrevoked k revoked [] = ground arith
names-unrevoked k revoked (s ∷ specs) = elim (text_dec s.key k) [
  | yes p ↦ ground (arith, p, names-unrevoked k revoked specs)
  | no p ↦ ground (arith, p, names-unrevoked k revoked specs)
]

names-append : (k : Text) (xs ys : List PeerSpec) → names k (xs ++ ys) ≡ (names k xs || names k ys)
unfolding names
names-append k [] ys = refl
names-append k (s ∷ xs) ys = ground (arith, names-append k xs ys)

names-session_specs :
    (k : Text) (revoked : List Text) (listed : List PeerSpec) (sessions : List (Text × Text))
    → names k (session_specs revoked listed sessions)
      ≡ (not (has_text k revoked) && not (names k listed) && has_session k sessions)
unfolding names session_specs has_session
names-session_specs k revoked listed [] = ground arith
names-session_specs k revoked listed ((pin, secret) ∷ sessions) = elim (text_dec pin k) [
  | yes p ↦ ground (arith, p, names-session_specs k revoked listed sessions)
  | no p ↦ ground (arith, p, names-session_specs k revoked listed sessions)
]

module _ (std : Stdlib) (codec : Codec) (texts : Texts) (encode_std : Text → Text) where
  -- No two specs have one virtual address.
  abbrev pub IsApart : List PeerSpec → Type 0
  IsApart [] = Unit
  IsApart (s ∷ specs) =
      All (λ t. vip_of std codec texts encode_std t.key ≢ vip_of std codec texts encode_std s.key)
        specs
      × IsApart specs

  -- What the assembled specs are.
  pub record IsAssembled (manifest : List PeerSpec) (revoked : List Text)
      (sessions : List (Text × Text)) (specs : List PeerSpec) : Type 0 where
    pub few : length specs ≤ max_buddies
    pub apart : IsApart specs
    pub keys :
        (k : Text)
        → names k specs ≡ (not (has_text k revoked) && (names k manifest || has_session k sessions))

  -- Addresses that are not in a map with one more are not in the map, and not that one.
  not_inserted :
      (v k : Text) (vips : Map Text Text) (specs : List PeerSpec)
      → All (λ t. lookup (vip_of std codec texts encode_std t.key) (insert v k vips) ≡ none) specs
      → All (λ t. lookup (vip_of std codec texts encode_std t.key) vips ≡ none) specs
        × All (λ t. vip_of std codec texts encode_std t.key ≢ v) specs
  not_inserted v k vips [] h = (tt, tt)
  not_inserted v k vips (t ∷ specs) h =
      let w = vip_of std codec texts encode_std t.key in
      let (free, others) = not_inserted v k vips specs h.1 in
      let at = lookup-insert v w k vips in
      elim (text_dec v w) [
        | yes p ↦ absurd (ground (arith, at, h.0, p))
        | no p ↦ ((ground (arith, at, h.0, p), free), (λ e. p (sym e), others))
      ]

  find_collision-IsApart :
      (specs : List PeerSpec) (vips : Map Text Text)
      → find_collision std codec texts encode_std specs vips ≡ none
      → All (λ t. lookup (vip_of std codec texts encode_std t.key) vips ≡ none) specs
        × IsApart specs
  unfolding find_collision
  find_collision-IsApart [] vips h = (tt, tt)
  find_collision-IsApart (s ∷ specs) vips h =
      let v = vip_of std codec texts encode_std s.key in
      elim (Option-cases (lookup v vips)) [
        | inr (k, e) ↦ absurd (ground (arith, h))
        | inl e ↦
            let (free, apart) =
              find_collision-IsApart specs (insert v s.key vips) (ground (arith, h)) in
            let (unused, others) = not_inserted v s.key vips specs free in
            ((e, unused), (others, apart))
      ]

  -- The specs that are assembled are at most 48, no two have one virtual address, and their keys are
  -- those of the manifest and of the stored sessions that are not revoked.
  pub assemble_peers-IsAssembled :
      (manifest specs : List PeerSpec) (revoked : List Text) (sessions : List (Text × Text))
      → assemble_peers std codec texts encode_std (some manifest) (some revoked) (some sessions)
        ≡ assembled specs
      → IsAssembled manifest revoked sessions specs
  unfolding assemble_peers
  assemble_peers-IsAssembled manifest specs revoked sessions h =
      let listed = unrevoked revoked manifest in
      let more = session_specs revoked listed sessions in
      let all = listed ++ more in
      elim (Bool-cases (ltb max_buddies (length all))) [
        | inl f ↦ absurd (ground (arith, h))
        | inr f ↦ elim (Option-cases (find_collision std codec texts encode_std all [])) [
          | inr (c, g) ↦ absurd (ground (arith, h))
          | inl g ↦
              let e : all ≡ specs = ground (arith, h) in
              subst (IsAssembled manifest revoked sessions) e (record {
                few = ground (arith, f);
                apart = (find_collision-IsApart all [] g).1;
                keys = λ k. ground (
                  arith,
                  names-append k listed more,
                  names-unrevoked k revoked manifest,
                  names-session_specs k revoked listed sessions,
                );
              })
        ]
      ]

  -- After a reload of the specs that are assembled, a key runs exactly if it is not revoked, and the
  -- manifest or a stored session has it.
  pub reload-assembled :
      (itoa : ℕ → Text) (parse_uint16 : Text → Option ℕ) (flag : Option Scope)
      (order : Map Text PeerSpec → Map Text PeerSpec) (v : Supervisor)
      (manifest specs : List PeerSpec) (revoked : List Text) (sessions : List (Text × Text))
      (k : Text)
      → IsOrder (order (wanted specs [])) (wanted specs [])
      → IsSound v
      → assemble_peers std codec texts encode_std (some manifest) (some revoked) (some sessions)
        ≡ assembled specs
      → is_some (lookup k (reload itoa parse_uint16 flag order (some specs) v).0.running)
        ≡ (not (has_text k revoked) && (names k manifest || has_session k sessions))
  reload-assembled itoa parse_uint16 flag order v manifest specs revoked sessions k orders w h =
      reload-running itoa parse_uint16 flag order specs orders v w k
      ∙ (assemble_peers-IsAssembled manifest specs revoked sessions h).keys k
