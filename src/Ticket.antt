-- ===== src/Ticket.antt =====
-- internal/ticket/ticket.go: the relay authorization ticket. Ed25519, SHA-256, base64url and the
-- JSON decoder are not in the repository: they are the fields of `Stdlib`. The integers of a
-- ticket are int64, and a difference of two wraps around.
pub mod Window
pub mod Proofs
pub mod Tests
use buddynet.Support.{
  ℕ, suc, ◌+◌, ◌==◌, Bool, true, false, not, ◌&&◌, ◌||◌, Option, none, some, List, [], ◌∷◌, ◌++◌,
  Text, codes, text_dec, holds, length, ltb, leb, if◌then◌else◌,
}
use buddynet.Support.Int.{ℤ, pos, negsuc, ◌+ℤ◌, ◌-ℤ◌, leb_ℤ}

pub record Payload : Type 0 where
  pub v : ℤ
  pub rid : Text
  pub sid : Text
  pub leg : Text
  pub epk : Text
  pub iat : ℤ
  pub exp : ℤ
  pub nonce : Text

pub data Reason : Type 0 where
  size malformed unknown_ver signature window ttl relay leg proof : Reason

pub data Result {ℓ} (A : Type ℓ) : Type ℓ where
  ok : A → Result A
  err : Reason → Result A

-- The early return `if err != nil { return err }`, for do blocks.
infixl 5 ◌>>=◌ ◌>>◌
abbrev pub ◌>>=◌ {ℓ κ} :
    {Read : Type ℓ} {Out : Type κ} → Result Read → (Read → Result Out) → Result Out
err reason >>= rest = err reason
ok read >>= rest = rest read

abbrev pub ◌>>◌ {ℓ} : {Out : Type ℓ} → Result (Unit {0}) → Result Out → Result Out
check >> rest = check >>= λ passed. rest

abbrev pub guard : Bool → Reason → Result (Unit {0})
guard false reason = err reason
guard true reason = ok tt

-- What the package calls and does not implement.
pub record Stdlib : Type 0 where
  -- base64.RawURLEncoding
  pub decode_b64 : Text → Option Text
  pub encode_b64 : Text → Text
  pub ed_verify : Text → Text → Text → Bool
  pub ed_sign : Text → Text → Text
  pub sha256 : Text → Text
  -- The top-level keys of a JSON object, in order; `none` if a token or a value does not read.
  pub json_keys : Text → Option (List Text)
  -- A strict decode: no unknown field, and nothing after the object.
  pub json_payload : Text → Option Payload
  pub json_marshal : Payload → Option Text

abbrev pub format_version : ℤ
format_version = pos 1

-- In seconds.
abbrev pub max_ttl : ℕ
max_ttl = 120

abbrev pub skew : ℕ
skew = 10

abbrev pub id_len : ℕ
id_len = 16

abbrev pub leg_a : Text
leg_a = b'a' ∷ []

abbrev pub leg_b : Text
leg_b = b'b' ∷ []

abbrev pub max_payload_len : ℕ
max_payload_len = 512

abbrev pub public_key_size : ℕ
public_key_size = 32

abbrev pub signature_size : ℕ
signature_size = 64

abbrev pub ticket_context : Text
ticket_context = codes "buddynet-relay-ticket-v1" ++ 0 ∷ []

abbrev pub bind_context : Text
bind_context = codes "buddynet-relay-bind-v1" ++ 0 ∷ []

abbrev pub same : Text → Text → Bool
same a b = holds (text_dec a b)

-- A length check on a decoded text.
abbrev pub has_length : ℕ → Option Text → Bool
has_length n none = false
has_length n (some raw) = length raw == n

-- base64.RawURLEncoding.EncodedLen(IDLen): 16 bytes are 22 characters.
abbrev pub encoded_id_len : ℕ
encoded_id_len = 22

abbrev pub re_encodes : Stdlib → Text → Option Text → Bool
re_encodes std s none = false
re_encodes std s (some raw) = length raw == id_len && same (std.encode_b64 raw) s

unfoldable pub valid_id : Stdlib → Text → Bool
valid_id std s =
    if not (length s == encoded_id_len) then false else re_encodes std s (std.decode_b64 s)

unfoldable pub signed_bytes : Text → Text
signed_bytes payload = ticket_context ++ payload

-- The error of a failed marshal or of a payload over the cap is `none`.
unfoldable pub sign : Stdlib → Text → Payload → Option (Text × Text)
sign std priv p = elim (std.json_marshal p) [
  | none ↦ none
  | some payload ↦
      if ltb max_payload_len (length payload)
      then none
      else some (payload, std.ed_sign priv (signed_bytes payload))
]

-- The loop over the keys.
unfoldable pub any_verifies : Stdlib → List Text → Text → Text → Bool
any_verifies std [] msg sig = false
any_verifies std (k ∷ keys) msg sig =
    if length k == public_key_size && std.ed_verify k msg sig
    then true
    else any_verifies std keys msg sig

unfoldable pub verify : Stdlib → List Text → Text → Text → Bool
verify std keys payload sig =
    if length payload == 0
      || ltb max_payload_len (length payload)
      || not (length sig == signature_size)
    then false
    else any_verifies std keys (signed_bytes payload) sig

abbrev pub has_key : Text → List Text → Bool
has_key k [] = false
has_key k (j ∷ seen) = if same k j then true else has_key k seen

-- The loop of `noDuplicateKeys` with the set `seen`.
unfoldable pub no_repeats : List Text → List Text → Result (Unit {0})
no_repeats seen [] = ok tt
no_repeats seen (k ∷ keys) =
    let rest = no_repeats (k ∷ seen) keys in if has_key k seen then err malformed else rest

unfoldable pub no_duplicate_keys : Stdlib → Text → Result (Unit {0})
no_duplicate_keys std payload = elim (std.json_keys payload) [
  | none ↦ err malformed
  | some keys ↦ no_repeats [] keys
]

unfoldable pub eph_pub : Stdlib → Payload → Option Text
eph_pub std p = elim (std.decode_b64 p.epk) [
  | none ↦ none
  | some raw ↦ if length raw == public_key_size then some raw else none
]

abbrev pub or_reject {ℓ} : {A : Type ℓ} → Option A → Reason → Result A
or_reject none r = err r
or_reject (some a) r = ok a

-- The checks of `Parse` on the decoded fields.
unfoldable pub check_fields : Stdlib → Payload → Result Payload
check_fields std p = do
  guard (leb_ℤ p.v format_version && leb_ℤ format_version p.v) unknown_ver
  guard (valid_id std p.rid && valid_id std p.sid && valid_id std p.nonce) malformed
  guard (same p.leg leg_a || same p.leg leg_b) Reason.leg
  epk ← or_reject (eph_pub std p) malformed
  ok p

unfoldable pub parse : Stdlib → Text → Result Payload
parse std payload = do
  guard (not (length payload == 0) && leb (length payload) max_payload_len) size
  no_duplicate_keys std payload
  p ← or_reject (std.json_payload payload) malformed
  check_fields std p

-- 2^63 and 2^64.
abbrev pub half_word : ℕ
half_word = 9_223_372_036_854_775_808

abbrev pub word : ℕ
word = 18_446_744_073_709_551_616

-- The int64 that a sum or a difference of two int64 wraps to.
unfoldable pub wrap : ℤ → ℤ
wrap z =
    if leb_ℤ (pos half_word) z
    then z -ℤ pos word
    else if leb_ℤ (pos 0 -ℤ pos half_word) z
    then z
    else z +ℤ pos word

-- `now` is the Unix time in seconds.
unfoldable pub check_window : Payload → ℤ → Result (Unit {0})
check_window p now =
    let span = wrap (p.exp -ℤ p.iat) in
    if leb_ℤ span (pos 0) || not (leb_ℤ span (pos max_ttl))
    then err ttl
    else if not (leb_ℤ p.iat (wrap (now +ℤ pos skew))) || not (leb_ℤ (wrap (now -ℤ pos skew)) p.exp)
    then err window
    else ok tt

unfoldable pub check_relay : Payload → Text → Result (Unit {0})
check_relay p rid = if same rid [] || not (same p.rid rid) then err relay else ok tt

unfoldable pub bind_signing_bytes : Stdlib → Text → Text → Text → Text
bind_signing_bytes std payload sig cookie = bind_context ++ (std.sha256 (payload ++ sig) ++ cookie)

unfoldable pub sign_bind : Stdlib → Text → Text → Text → Text → Text
sign_bind std eph payload sig cookie = std.ed_sign eph (bind_signing_bytes std payload sig cookie)

unfoldable pub verify_bind : Stdlib → Text → Text → Text → Text → Text → Result (Unit {0})
verify_bind std epk payload sig cookie bind_sig =
    if not (length epk == public_key_size) || not (length bind_sig == signature_size)
    then err proof
    else if not (std.ed_verify epk (bind_signing_bytes std payload sig cookie) bind_sig)
    then err proof
    else ok tt
