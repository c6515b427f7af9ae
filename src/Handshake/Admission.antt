-- ===== src/Handshake/Admission.antt =====
-- The checks of a registration in internal/role/handshake.go, `pairRegister` of a server without an
-- approval list, and the relay ticket that a pairing gets.
use buddynet.Support.{
  ℕ, ◌*◌, ◌+◌, ◌==◌, Bool, false, not, ◌&&◌, ◌||◌, Option, none, some, List, [], ◌∷◌, ◌++◌, Text,
  Map, length, if◌then◌else◌,
}
use buddynet.Support.Int.{ℤ, pos, pos_part, neg_part, sub_ℕ, ◌-ℤ◌, leb_ℤ}
use buddynet.Net.{Addr, Texts}
use buddynet.Ticket.{
  Stdlib, Payload, same, id_len, encoded_id_len, public_key_size, signature_size, has_length,
  format_version, max_ttl, leg_a, leg_b, sign,
}
use buddynet.Peer.{precedes}
use buddynet.Handshake.{HsPeer, Peers, HsRegistry, Message, Event, dropped, paired, announced}
use buddynet.Handshake.Names.{valid_field}
use buddynet.Handshake.Registry.{upsert, note_paired, sid_for}

-- What the checks call beside `Stdlib`: base64.StdEncoding, the marshalled registration that is
-- signed, and the opening of a sealed token with the server's key.
pub record Codec : Type 0 where
  pub decode_std : Text → Option Text
  pub registration_payload : Message → Text
  pub open_code : Text → Option Text

-- In nanoseconds.
abbrev pub second : ℕ
second = 1_000_000_000

-- time.Unix, in nanoseconds.
abbrev pub in_nanoseconds : ℤ → ℤ
in_nanoseconds z = sub_ℕ (pos_part z * second) (neg_part z * second)

abbrev pub reg_skew : ℕ
reg_skew = 60 * second

-- The lower key has leg "a".
unfoldable pub leg_for : Text → Text → Text
leg_for key partner = if precedes partner key then leg_b else leg_a

-- The permit of one buddy, at a Unix time in seconds.
unfoldable pub ticket_for : Text → Text → Message → Text → Text → ℕ → Payload
ticket_for rid sid m partner nonce now = record {
  v = format_version;
  rid = rid;
  sid = sid;
  leg = leg_for m.pubkey partner;
  epk = m.eph_pub;
  iat = pos now;
  exp = pos (now + max_ttl);
  nonce = nonce;
}

module _ (std : Stdlib) (codec : Codec) (texts : Texts) where
  unfoldable pub valid_nonce : Text → Bool
  valid_nonce s =
      if not (length s == encoded_id_len) then false else has_length id_len (std.decode_b64 s)

  unfoldable pub require_v7_fields : Message → Bool
  require_v7_fields m =
      valid_nonce m.nonce
      && has_length public_key_size (codec.decode_std m.pubkey)
      && has_length signature_size (codec.decode_std m.reg_sig)

  unfoldable pub resolve_token : Message → Option Message
  resolve_token m = elim (codec.open_code m.token_enc) [
    | none ↦ none
    | some token ↦
        if valid_field token then some (record m { token = token; token_enc = [] }) else none
  ]

  -- `now` is in nanoseconds, as is the age of the registration.
  unfoldable pub verify_registration : Message → ℤ → Bool
  verify_registration m now =
      let age = now -ℤ in_nanoseconds m.ts in
      if not (valid_nonce m.nonce)
      then false
      else if not (leb_ℤ age (pos reg_skew)) || not (leb_ℤ (pos 0 -ℤ pos reg_skew) age)
      then false
      else elim (codec.decode_std m.pubkey) [
        | none ↦ false
        | some key ↦ elim (codec.decode_std m.reg_sig) [
          | none ↦ false
          | some sig ↦
              length key == public_key_size
              && length sig == signature_size
              && std.ed_verify key (codec.registration_payload m) sig
        ]
      ]

  unfoldable pub registration_matches_tls_key : Message → Text → Bool
  registration_matches_tls_key m client_key =
      if not (length client_key == public_key_size)
      then false
      else elim (codec.decode_std m.pubkey) [
        | none ↦ false
        | some claimed ↦ length claimed == public_key_size && same client_key claimed
      ]

  unfoldable pub decode_pub_key : Text → Option Text
  decode_pub_key b64 = elim (codec.decode_std b64) [
    | none ↦ none
    | some raw ↦ if length raw == public_key_size then some raw else none
  ]

  -- The first two bytes of the 32 of the hash, with the network and the broadcast address folded.
  unfoldable pub host_bytes : Text → Text
  host_bytes (hi ∷ lo ∷ rest) =
      if hi == 0 && lo == 0
      then hi ∷ 1 ∷ []
      else if hi == 255 && lo == 255
      then hi ∷ 254 ∷ []
      else hi ∷ lo ∷ []
  host_bytes hash = []

  unfoldable pub virtual_ip_string : Text → Text
  virtual_ip_string key = texts.netip_string (10 ∷ 66 ∷ host_bytes (std.sha256 key))

  -- A claim of another address is counted as dropped.
  unfoldable pub derive_vip : Message → List Event × Option Message
  derive_vip m = if same m.pubkey [] then ([], some m) else elim (decode_pub_key m.pubkey) [
    | none ↦ ([], none)
    | some key ↦
        let want = virtual_ip_string key in
        if not (same m.virtual_ip []) && not (same m.virtual_ip want)
        then (dropped ∷ [], none)
        else ([], some (record m { virtual_ip = want }))
  ]

  -- What `pairRegister` returns: the registry, the events, and the partner if the registration was
  -- accepted and there is one.
  abbrev pub Pairing : Type 0
  Pairing = HsRegistry × List Event × Option (Option HsPeer)

  -- The rest of `pairRegister`, of a registration with its derived address.
  unfoldable pub pair : Map Text Peers → HsRegistry → Message → Addr → ℕ → Pairing
  pair iteration r m src now =
      let (r₁, events, entered) = upsert texts iteration r m src now in
      elim entered [
        | none ↦ (r₁, events ++ dropped ∷ [], none)
        | some (self, none) ↦ (r₁, events, some none)
        | some (self, some partner) ↦
            let (r₂, first) = note_paired r₁ m.token in
            let line = if first then announced m.token self.id partner.id ∷ [] else [] in
            (r₂, events ++ paired ∷ line, some (some partner))
      ]

  -- `pairRegister` with no approval list.
  unfoldable pub pair_register : Map Text Peers → HsRegistry → Message → Addr → ℕ → Pairing
  pair_register iteration r m src now =
      if not (verify_registration m (pos now))
      then (r, [], none)
      else (let (lines, derived) = derive_vip m in
          elim derived [ none ↦ (r, lines, none) | some m' ↦ pair iteration r m' src now ])

  -- `sid` and `nonce` are what ticket.NewID draws, or `none` if it fails.
  unfoldable pub issue_ticket :
      Text
      → Text
      → HsRegistry
      → Message
      → Text
      → Option Text
      → Option Text
      → ℕ
      → HsRegistry × Option (Text × Text)
  issue_ticket priv rid r m partner sid nonce now =
      if same rid []
        || same m.eph_pub []
        || not (has_length public_key_size (std.decode_b64 m.eph_pub))
        || same m.pubkey partner
      then (r, none)
      else (let (r', chosen) = sid_for r m.token sid in
          elim chosen [
            | none ↦ (r', none)
            | some session ↦ elim nonce [
              | none ↦ (r', none)
              | some n ↦ elim (sign std priv (ticket_for rid session m partner n now)) [
                | none ↦ (r', none)
                | some (payload, sig) ↦ (r', some (std.encode_b64 payload, std.encode_b64 sig))
              ]
            ]
          ])
