-- ===== src/Authz/Approval.antt =====
-- `pairRegister` of internal/role/handshake.go on a server with an approval list.
pub mod Denial
use buddynet.Support.{
  ℕ, ◌*◌, Bool, true, false, not, Option, none, some, List, [], ◌∷◌, ◌++◌, Text, Map, if◌then◌else◌,
}
use buddynet.Support.Int.{ℤ, pos}
use buddynet.Net.{Addr, Texts}
use buddynet.Net.{from_ip}
use buddynet.Ticket.{Stdlib, same}
use buddynet.Handshake.{HsPeer, Peers, HsRegistry, Message}
use buddynet.Handshake.Admission.{
  Codec, in_nanoseconds, verify_registration, derive_vip, pair, Pairing,
}
use buddynet.Authz.{
  Authorizer, Event, allowed, allow_enroll, fresh_since_approval, replayed, record_pre_auth,
  record_pending, log_pending_key,
}

-- The counters of `hsStats` and the lines that the approval adds to those of the registry.
pub data Notice : Type 0 where
  from_authorizer : Event → Notice
  enroll_limited : Notice
  replay_detected : Notice
  from_registry : buddynet.Handshake.Event → Notice

-- Notices of each source.
abbrev pub noticed : {A : Type 0} → (A → Notice) → List A → List Notice
noticed f [] = []
noticed f (x ∷ xs) = f x ∷ noticed f xs

-- The result: the registry, the approval list, the notices, and the partner if the registration was
-- accepted and there is one.
abbrev pub Outcome : Type 0
Outcome = HsRegistry × Authorizer × List Notice × Option (Option HsPeer)

module _ (std : Stdlib) (codec : Codec) (texts : Texts) (short_hash log_tag : Text → Text) where
  -- What a key that is not approved may leave: its nonce, and its enrollment or a line.
  unfoldable pub note_unknown : Authorizer → Message → Addr → ℕ → Authorizer × List Notice
  note_unknown a m src now =
      let (a₁, granted) = allow_enroll a (from_ip texts src.ip) now in
      if not granted
      then (a₁, enroll_limited ∷ [])
      else (let a₂ = record_pre_auth a₁ m.pubkey m.nonce now in
          let (a₃, events) =
            if not (same m.code_enc [])
            then record_pending a₂ (codec.open_code m.code_enc) short_hash m.pubkey now
            else log_pending_key a₂ m.pubkey (log_tag m.token) now in
          (a₃, noticed from_authorizer events))

  -- The rest of `pairRegister`, of a registration that the approval list lets through.
  unfoldable pub pair_derived :
      Map Text Peers → HsRegistry → Authorizer → Message → Addr → ℕ → Outcome
  pair_derived iteration r a m src now =
      let (lines, derived) = derive_vip std codec texts m in
      elim derived [
        | none ↦ (r, a, noticed from_registry lines, none)
        | some m' ↦
            let (r', events, partner) = pair std codec texts iteration r m' src now in
            (r', a, noticed from_registry events, partner)
      ]

  unfoldable pub pair_approved :
      Map Text Peers → HsRegistry → Authorizer → Message → Addr → ℕ → Outcome
  pair_approved iteration r a m src now =
      if not (verify_registration std codec texts m (pos now))
      then (r, a, [], none)
      else if not (allowed a m.pubkey)
      then (let (a', notices) = note_unknown a m src now in (r, a', notices, none))
      else if not (fresh_since_approval a m.pubkey (in_nanoseconds m.ts))
      then (r, a, replay_detected ∷ [], none)
      else (let (a', repeated) = replayed a m.pubkey m.nonce now in
          if repeated
          then (r, a', replay_detected ∷ [], none)
          else pair_derived iteration r a' m src now)
