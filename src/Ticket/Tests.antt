-- ===== src/Ticket/Tests.antt =====
-- The tickets of internal/ticket/ticket.go at a concrete ticket.
use buddynet.Support.{
  ℕ, ◌+◌, ◌≤◌, ◌<◌, ◌==◌, ◌≡◌, ◌↔◌, refl, true, some, [], ◌∷◌, ◌++◌, Text, codes, length, take,
  text_dec, ℕ_discrete, arith, if◌then◌else◌,
}
use buddynet.Support.Int.{pos, ◌+ℤ◌, ◌-ℤ◌}
use buddynet.Ticket.{
  Payload, Result, ok, err, Stdlib, format_version, leg_a, max_ttl, skew, max_payload_len,
  signature_size, same, valid_id, signed_bytes, sign, any_verifies, verify, no_repeats,
  no_duplicate_keys, eph_pub, check_fields, parse, wrap, check_window, check_relay,
  bind_signing_bytes, sign_bind, verify_bind,
}
use buddynet.Ticket
use buddynet.Ticket.Window.{InRange, IsCurrent, check_window_iff}
use buddynet.Ticket.Proofs.{Verifies, verify_iff, IsKeyPair}

unfoldable pub program : Unit {0}
unfolding valid_id signed_bytes sign any_verifies verify no_repeats no_duplicate_keys eph_pub
    check_fields parse wrap check_window check_relay bind_signing_bytes sign_bind verify_bind
    text_dec ℕ_discrete ◌+ℤ◌ ◌-ℤ◌
program = tt

abbrev sum : Text → ℕ
sum [] = 0
sum (c ∷ text) = c + sum text

abbrev pub zeros_16 : Text
zeros_16 = 0 ∷ 0 ∷ 0 ∷ 0 ∷ 0 ∷ 0 ∷ 0 ∷ 0 ∷ 0 ∷ 0 ∷ 0 ∷ 0 ∷ 0 ∷ 0 ∷ 0 ∷ 0 ∷ []

-- A signature of the shape of Ed25519's: the key, a checksum, and zeros.
abbrev pub checksum : Text → Text → Text
checksum key msg = key ++ (sum msg ∷ 0 ∷ zeros_16 ++ codes "..............")

abbrev pub key : Text
key = codes "0123456789abcdef0123456789abcdef"

abbrev pub id : Text
id = codes "AAAAAAAAAAAAAAAA......"

abbrev pub ticket : Payload
ticket = record {
  v = format_version;
  rid = id;
  sid = id;
  leg = leg_a;
  epk = key;
  iat = pos 100;
  exp = pos 160;
  nonce = id;
}

abbrev pub std : Stdlib
std = record {
  decode_b64 = λ s. some (if length s == 22 then take 16 s else s);
  encode_b64 = λ raw. raw ++ codes "......";
  ed_verify = λ k msg sig. same (checksum k msg) sig;
  ed_sign = checksum;
  sha256 = λ msg. sum msg ∷ [];
  json_keys = λ payload. some (codes "v" ∷ codes "sid" ∷ []);
  json_payload = λ payload. some ticket;
  json_marshal = λ p. some (p.sid ++ p.leg);
}

abbrev pub body : Text
body = id ++ leg_a

abbrev pub body_sig : Text
body_sig = checksum key (signed_bytes body)

small : {n : ℕ} → n < 1000 → InRange (pos n)
small h = (omega arith, omega arith)

check_window_iff_example : (check_window ticket (pos 165) ≡ ok tt) ↔ IsCurrent ticket (pos 165)
unfolding ◌+ℤ◌ ◌-ℤ◌
check_window_iff_example =
    check_window_iff ticket (pos 165) (small (omega arith)) (small (omega arith))
      (small (omega arith)) (small (omega arith))

-- A second later it is refused.
refused_later : check_window ticket (pos 171) ≡ err Ticket.window
unfolding program
refused_later = refl

-- A key repeated in the object is refused.
no_repeats_test : no_repeats [] (codes "v" ∷ codes "sid" ∷ codes "v" ∷ []) ≡ err Ticket.malformed
unfolding program
no_repeats_test = refl

verify_iff_example : (verify std (key ∷ []) body body_sig ≡ true) ↔ (
    (0 < length body)
    × (length body ≤ max_payload_len)
    × (length body_sig ≡ signature_size)
    × Verifies std (key ∷ []) (signed_bytes body) body_sig)
verify_iff_example = verify_iff std (key ∷ []) body body_sig

same_self : (t : Text) → same t t ≡ true
same_self t = ground arith

pub key_pair : IsKeyPair std key key
unfolding same_self
key_pair = record {
  sized = refl;
  signs = λ msg. refl;
  verifies = λ msg. same_self (checksum key msg);
}
