-- ===== src/Ticket/Proofs.antt =====
-- What the signatures and the strict parser of internal/ticket/ticket.go establish.
use buddynet.Support.{
  ℕ, ◌≤◌, ◌<◌, ◌≡◌, ◌≢◌, ◌↔◌, ◌⊎◌, inl, inr, refl, sym, ap, true, false, ◌&&◌, some, List, [], ◌∷◌,
  Text, text_dec, length, drop, In, arith, Bool-cases, Option-cases, ◌==◌,
}
use buddynet.Ticket.{
  Payload, ok, Stdlib, max_payload_len, public_key_size, signature_size, format_version, leg_a,
  leg_b, valid_id, signed_bytes, sign, any_verifies, verify, has_key, no_repeats, no_duplicate_keys,
  eph_pub, check_fields, parse, bind_signing_bytes, sign_bind, verify_bind,
}

-- A key of the list that the message verifies under.
abbrev pub Verifies : Stdlib → List Text → Text → Text → Type 0
Verifies std keys msg sig =
    (k : Text) × In k keys × (length k ≡ public_key_size) × (std.ed_verify k msg sig ≡ true)

any_verifies-Verifies :
    (std : Stdlib) (keys : List Text) (msg sig : Text)
    → any_verifies std keys msg sig ≡ true
    → Verifies std keys msg sig
unfolding any_verifies
any_verifies-Verifies std [] msg sig h = absurd (ground arith)
any_verifies-Verifies std (k ∷ keys) msg sig h =
    elim (Bool-cases (length k == public_key_size && std.ed_verify k msg sig)) [
      | inl e ↦ (k, inl refl, ground arith, ground arith)
      | inr e ↦
          let (j, m, l, v) = any_verifies-Verifies std keys msg sig (ground arith) in
          (j, inr m, l, v)
    ]

Verifies-any_verifies :
    (std : Stdlib) (keys : List Text) (k msg sig : Text)
    → In k keys
    → length k ≡ public_key_size
    → std.ed_verify k msg sig ≡ true
    → any_verifies std keys msg sig ≡ true
unfolding any_verifies
Verifies-any_verifies std [] k msg sig m l v = absurd m
Verifies-any_verifies std (j ∷ keys) k msg sig (inl e) l v = rw e (rw (l, v))
Verifies-any_verifies std (j ∷ keys) k msg sig (inr m) l v =
    rw (Verifies-any_verifies std keys k msg sig m l v) (ground arith)

-- `Verify` accepts exactly the payloads of 1 to 512 bytes whose 64-byte signature verifies, under
-- one of the configured keys of the right size, over the ticket context and the payload.
pub verify_iff :
    (std : Stdlib) (keys : List Text) (payload sig : Text)
    → (verify std keys payload sig ≡ true) ↔ (
        (0 < length payload)
        × (length payload ≤ max_payload_len)
        × (length sig ≡ signature_size)
        × Verifies std keys (signed_bytes payload) sig)
unfolding verify
verify_iff std keys payload sig = (
  λ h. (
    ground arith,
    ground arith,
    ground arith,
    any_verifies-Verifies std keys (signed_bytes payload) sig (ground arith),
  ),
  λ (low, high, len, found).
      let (k, m, l, v) = found in
      ground (arith, Verifies-any_verifies std keys k (signed_bytes payload) sig m l v),
)

-- The keys of a list that no key repeats.
abbrev pub IsRepeatFree : List Text → Type 0
IsRepeatFree [] = Unit
IsRepeatFree (k ∷ keys) = (has_key k keys ≡ false) × IsRepeatFree keys

has_key-In : (k : Text) (keys : List Text) → In k keys → has_key k keys ≡ true
has_key-In k [] m = absurd m
has_key-In k (j ∷ keys) (inl e) = ground arith
has_key-In k (j ∷ keys) (inr m) = ground (arith, has_key-In k keys m)

In-has_key : (k : Text) (keys : List Text) → has_key k keys ≡ true → In k keys
In-has_key k [] h = absurd (ground arith)
In-has_key k (j ∷ keys) h = elim (text_dec k j) [
  | yes p ↦ inl (sym p)
  | no p ↦ inr (In-has_key k keys (ground arith))
]

-- With a set of keys seen, the loop accepts keys that repeat neither it nor one another.
no_repeats-seen :
    (seen keys : List Text) (k : Text)
    → no_repeats seen keys ≡ ok tt
    → In k seen
    → has_key k keys ≡ false
unfolding no_repeats
no_repeats-seen seen [] k h m = refl
no_repeats-seen seen (j ∷ keys) k h m =
    ground (arith, has_key-In k seen m, no_repeats-seen (j ∷ seen) keys k (ground arith) (inr m))

no_repeats-IsRepeatFree : (seen keys : List Text) → no_repeats seen keys ≡ ok tt → IsRepeatFree keys
unfolding no_repeats
no_repeats-IsRepeatFree seen [] h = tt
no_repeats-IsRepeatFree seen (k ∷ keys) h = (
  no_repeats-seen (k ∷ seen) keys k (ground arith) (inl refl),
  no_repeats-IsRepeatFree (k ∷ seen) keys (ground arith),
)

-- What `Parse` guarantees of a ticket that it accepts.
pub record IsStrict (std : Stdlib) (payload : Text) (p : Payload) : Type 0 where
  pub decoded : std.json_payload payload ≡ some p
  pub nonempty : 0 < length payload
  pub capped : length payload ≤ max_payload_len
  pub keys : List Text
  pub scanned : std.json_keys payload ≡ some keys
  pub unrepeated : IsRepeatFree keys
  pub version : p.v ≡ format_version
  pub rid : valid_id std p.rid ≡ true
  pub sid : valid_id std p.sid ≡ true
  pub nonce : valid_id std p.nonce ≡ true
  pub leg : (p.leg ≡ leg_a) ⊎ (p.leg ≡ leg_b)
  pub epk : Text
  pub bound : (eph_pub std p ≡ some epk) × (length epk ≡ public_key_size)

-- The checks on the fields return the ticket that they were given.
check_fields-IsStrict :
    (std : Stdlib) (q p : Payload)
    → check_fields std q ≡ ok p
    → (q ≡ p)
      × (q.v ≡ format_version)
      × (valid_id std q.rid ≡ true)
      × (valid_id std q.sid ≡ true)
      × (valid_id std q.nonce ≡ true)
      × ((q.leg ≡ leg_a) ⊎ (q.leg ≡ leg_b))
unfolding check_fields
check_fields-IsStrict std q p h =
    (ground arith, ground arith, ground arith, ground arith, ground arith, ground arith)

eph_pub_of_check_fields :
    (std : Stdlib) (q p : Payload)
    → check_fields std q ≡ ok p
    → (epk : Text) × (eph_pub std q ≡ some epk) × (length epk ≡ public_key_size)
unfolding check_fields eph_pub
eph_pub_of_check_fields std q p h = elim (Option-cases (std.decode_b64 q.epk)) [
  | inl e ↦ absurd (ground arith)
  | inr (raw, e) ↦ (raw, ground arith, ground arith)
]

-- A ticket that `Parse` accepts: one object of 1 to 512 bytes, no top-level key twice, the known
-- version, three valid ids, a leg "a" or "b", and a public key of 32 bytes.
pub parse-IsStrict :
    (std : Stdlib) (payload : Text) (p : Payload)
    → parse std payload ≡ ok p
    → IsStrict std payload p
unfolding parse no_duplicate_keys
parse-IsStrict std payload p h = elim (Option-cases (std.json_keys payload)) [
  | inl e ↦ absurd (ground arith)
  | inr (keys, scan) ↦ elim (Option-cases (std.json_payload payload)) [
    | inl e ↦ absurd (ground arith)
    | inr (q, read) ↦
        let fields : check_fields std q ≡ ok p = ground arith in
        let (e, v, rid, sid, nonce, leg) = check_fields-IsStrict std q p fields in
        let (epk, at, long) = eph_pub_of_check_fields std q p fields in
        record {
          decoded = ground arith;
          nonempty = ground arith;
          capped = ground arith;
          keys = keys;
          scanned = scan;
          unrepeated = no_repeats-IsRepeatFree [] keys (ground arith);
          version = ground arith;
          rid = ground arith;
          sid = ground arith;
          nonce = ground arith;
          leg = ground arith;
          epk = epk;
          bound = (ground arith, long);
        }
  ]
]

-- An accepted id is determined by the bytes that it decodes to.
pub valid_id-injective :
    (std : Stdlib) (s t : Text)
    → valid_id std s ≡ true
    → valid_id std t ≡ true
    → std.decode_b64 s ≡ std.decode_b64 t
    → s ≡ t
unfolding valid_id
valid_id-injective std s t h k e = elim (Option-cases (std.decode_b64 s)) [
  | inl n ↦ absurd (ground arith)
  | inr (raw, r) ↦ ground arith
]

-- The first letter in which the two contexts differ.
abbrev sixteenth : Text → ℕ
sixteenth text = elim (drop 15 text) [ [] ↦ 0 | c ∷ _ ↦ c ]

-- No byte string is both what the server signs to permit a session and what a buddy signs to
-- prove that it holds the ephemeral key.
pub signed_bytes-ne-bind_signing_bytes :
    (std : Stdlib) (payload payload' sig cookie : Text)
    → signed_bytes payload ≢ bind_signing_bytes std payload' sig cookie
unfolding signed_bytes bind_signing_bytes
signed_bytes-ne-bind_signing_bytes std payload payload' sig cookie e =
    let letter : ◌≡◌ {A = ℕ} b't' b'b' = ap sixteenth e in absurd (omega arith)

-- The documented behaviour of crypto/ed25519 at one key pair.
pub record IsKeyPair (std : Stdlib) (priv pub_key : Text) : Type 0 where
  pub sized : length pub_key ≡ public_key_size
  pub signs : (msg : Text) → length (std.ed_sign priv msg) ≡ signature_size
  pub verifies : (msg : Text) → std.ed_verify pub_key msg (std.ed_sign priv msg) ≡ true

-- What a server signs, a relay that is configured with its key verifies, beside any other keys:
-- the size cap of the signer is that of the verifier. A marshalled ticket is not empty.
pub verify-sign :
    (std : Stdlib) (keys : List Text) (priv pub_key : Text) (p : Payload) (payload sig : Text)
    → IsKeyPair std priv pub_key
    → In pub_key keys
    → 0 < length payload
    → sign std priv p ≡ some (payload, sig)
    → verify std keys payload sig ≡ true
unfolding sign
verify-sign std keys priv pub_key p payload sig pair m some_bytes h =
    elim (Option-cases (std.json_marshal p)) [
      | inl e ↦ absurd (ground arith)
      | inr (body, e) ↦
          let same_body : body ≡ payload = ground arith in
          let signed : std.ed_sign priv (signed_bytes payload) ≡ sig = ground arith in
          (verify_iff std keys payload sig).1 (
            some_bytes,
            ground arith,
            rw (← signed) (pair.signs _),
            (pub_key, m, pair.sized, rw (← signed) (pair.verifies _)),
          )
    ]

-- The proof of possession that `SignBind` makes is one that `VerifyBind` accepts, for the same
-- ticket and cookie.
pub verify_bind-sign_bind :
    (std : Stdlib) (priv epk payload sig cookie : Text)
    → IsKeyPair std priv epk
    → verify_bind std epk payload sig cookie (sign_bind std priv payload sig cookie) ≡ ok tt
unfolding verify_bind sign_bind
verify_bind-sign_bind std priv epk payload sig cookie pair =
    let msg = bind_signing_bytes std payload sig cookie in
    ground (arith, pair.sized, pair.signs msg, pair.verifies msg)
