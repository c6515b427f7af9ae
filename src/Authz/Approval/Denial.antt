-- ===== src/Authz/Approval/Denial.antt =====
-- What the approval list of internal/role/authz.go denies in `pairRegister`.
use buddynet.Support.{
  ℕ, ◌≡◌, ◌⊎◌, refl, ◌∙◌, inl, inr, true, false, Option, none, some, List, [], ◌∷◌, Text, text_key,
  Map, lookup, arith, Bool-cases, Option-cases,
}
use buddynet.Support.Int.{pos}
use buddynet.Net.{Addr, Texts}
use buddynet.Net.{from_ip}
use buddynet.Ticket.{Stdlib, same}
use buddynet.Handshake.{Peers, HsRegistry, Message}
use buddynet.Handshake.Admission.{Codec, in_nanoseconds, verify_registration}
use buddynet.Authz.{
  Authorizer, Found, absent, allowed, allow_enroll, fresh_since_approval, replayed, record_pre_auth,
  record_pending, log_pending_key, poll_once, note_missing,
}
use buddynet.Authz.Approval.{note_unknown, pair_approved}

-- What the enrollment of a stranger leaves as it was.
abbrev pub Keeps : Authorizer → Authorizer → Type 0
Keeps a b = (b.keys ≡ a.keys) × (b.pre_auth_regs ≡ a.pre_auth_regs)

allow_enroll-Keeps : (a : Authorizer) (src : Text) (now : ℕ) → Keeps a (allow_enroll a src now).0
unfolding allow_enroll
allow_enroll-Keeps a src now = elim (Option-cases a.enroll) [
  | inl e ↦ rw (e, allow_enroll) (refl, refl)
  | inr (l, e) ↦ rw (e, allow_enroll) (refl, refl)
]

record_pending-Keeps :
    (a : Authorizer) (code : Option Text) (hash : Text → Text) (key : Text) (now : ℕ)
    → Keeps a (record_pending a code hash key now).0
unfolding record_pending
record_pending-Keeps a none hash key now = (refl, refl)
record_pending-Keeps a (some code) hash key now = ground arith

log_pending_key-Keeps :
    (a : Authorizer) (key tag : Text) (now : ℕ) → Keeps a (log_pending_key a key tag now).0
unfolding log_pending_key
log_pending_key-Keeps a key tag now = ground arith

keys-record_pre_auth :
    (a : Authorizer) (key nonce : Text) (now : ℕ) → (record_pre_auth a key nonce now).keys ≡ a.keys
unfolding record_pre_auth
keys-record_pre_auth a key nonce now = ground arith

keys-replayed :
    (a : Authorizer) (key nonce : Text) (now : ℕ) → (replayed a key nonce now).0.keys ≡ a.keys
unfolding replayed
keys-replayed a key nonce now = ground arith

allowed_empty : (a : Authorizer) (key : Text) → a.keys ≡ [] → allowed a key ≡ false
unfolding allowed lookup
allowed_empty a key h = rw h refl

module _ (std : Stdlib) (codec : Codec) (texts : Texts) (short_hash log_tag : Text → Text) where
  -- A registration that passes every check.
  pub record IsAdmitted (a : Authorizer) (m : Message) (now : ℕ) : Type 0 where
    pub verified : verify_registration std codec texts m (pos now) ≡ true
    pub approved : allowed a m.pubkey ≡ true
    pub fresh : fresh_since_approval a m.pubkey (in_nanoseconds m.ts) ≡ true
    pub unseen : (replayed a m.pubkey m.nonce now).1 ≡ false

  pub pair_approved-IsAdmitted :
      (iteration : Map Text Peers) (r : HsRegistry) (a : Authorizer) (m : Message) (src : Addr)
      (now : ℕ)
      → let out = pair_approved std codec texts short_hash log_tag iteration r a m src now in
        IsAdmitted a m now ⊎ ((out.0 ≡ r) × (out.3 ≡ none))
  unfolding pair_approved
  pair_approved-IsAdmitted iteration r a m src now =
      elim (Bool-cases (verify_registration std codec texts m (pos now))) [
        | inr v ↦ inr (rw (v, pair_approved) (refl, refl))
        | inl v ↦ elim (Bool-cases (allowed a m.pubkey)) [
          | inr p ↦ inr (rw (v, p, pair_approved) (refl, refl))
          | inl p ↦ elim (Bool-cases (fresh_since_approval a m.pubkey (in_nanoseconds m.ts))) [
            | inr f ↦ inr (rw (v, p, f, pair_approved) (refl, refl))
            | inl f ↦ elim (Bool-cases (replayed a m.pubkey m.nonce now).1) [
              | inl s ↦ inr (rw (v, p, f, s, pair_approved) (refl, refl))
              | inr s ↦ inl (record { verified = v; approved = p; fresh = f; unseen = s })
            ]
          ]
        ]
      ]

  note_unknown-keys :
      (a : Authorizer) (m : Message) (src : Addr) (now : ℕ)
      → (note_unknown std codec texts short_hash log_tag a m src now).0.keys ≡ a.keys
  unfolding note_unknown
  note_unknown-keys a m src now =
      let a₁ = (allow_enroll a (from_ip texts src.ip) now).0 in
      let a₂ = record_pre_auth a₁ m.pubkey m.nonce now in
      let k₁ = (allow_enroll-Keeps a (from_ip texts src.ip) now).0 in
      let k₂ = keys-record_pre_auth a₁ m.pubkey m.nonce now in
      let k₃ = (record_pending-Keeps a₂ (codec.open_code m.code_enc) short_hash m.pubkey now).0 in
      let k₄ = (log_pending_key-Keeps a₂ m.pubkey (log_tag m.token) now).0 in
      elim (Bool-cases (allow_enroll a (from_ip texts src.ip) now).1) [
        | inr g ↦ rw (g, note_unknown) k₁
        | inl g ↦ elim (Bool-cases (same m.code_enc [])) [
          | inl c ↦ rw (g, c, note_unknown) (k₄ ∙ k₂ ∙ k₁)
          | inr c ↦ rw (g, c, note_unknown) (k₃ ∙ k₂ ∙ k₁)
        ]
      ]

  -- One registration, from an address and at a time.
  pub record Arrival : Type 0 where
    pub iteration : Map Text Peers
    pub message : Message
    pub source : Addr
    pub at : ℕ

  unfoldable pub arrive : List Arrival → HsRegistry → Authorizer → HsRegistry × Authorizer
  arrive [] r a = (r, a)
  arrive (x ∷ xs) r a =
      let (r', a', notices, partner) =
        pair_approved std codec texts short_hash log_tag x.iteration r a x.message x.source x.at in
      arrive xs r' a'

  empty-denies :
      (x : Arrival) (r : HsRegistry) (a : Authorizer)
      → a.keys ≡ []
      → let out =
          pair_approved std codec texts short_hash log_tag x.iteration r a x.message x.source
            x.at in
        (out.0 ≡ r) × (out.1.keys ≡ [])
  unfolding pair_approved
  empty-denies x r a h =
      let k = note_unknown-keys a x.message x.source x.at in
      elim (Bool-cases (verify_registration std codec texts x.message (pos x.at))) [
        | inr v ↦ rw (v, pair_approved) (refl, h)
        | inl v ↦
            let p : allowed a x.message.pubkey ≡ false = allowed_empty a x.message.pubkey h in
            rw (v, p, pair_approved) (refl, k ∙ h)
      ]

  arrive-empty :
      (xs : List Arrival) (r : HsRegistry) (a : Authorizer) → a.keys ≡ [] → (arrive xs r a).0 ≡ r
  unfolding arrive
  arrive-empty [] r a h = refl
  arrive-empty (x ∷ xs) r a h =
      let out =
        pair_approved std codec texts short_hash log_tag x.iteration r a x.message x.source x.at in
      let (same_registry, none_left) = empty-denies x r a h in
      arrive-empty xs out.0 out.1 none_left ∙ same_registry

  -- Once a poll has found the allowlist file gone, no registration changes the registry of a server
  -- with an approval list, whatever it held before, until another poll.
  pub arrive-poll_once_absent :
      (file : Found (Map Text Text × ℕ)) (now : ℕ) (xs : List Arrival) (r : HsRegistry)
      (a : Authorizer)
      → (arrive xs r (poll_once absent file now a).0).0 ≡ r
  unfolding poll_once note_missing
  arrive-poll_once_absent file now xs r a = arrive-empty xs r (poll_once absent file now a).0 refl
