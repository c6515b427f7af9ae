-- ===== src/Rendezvous/Serve.antt =====
-- The control requests of internal/role/handshake.go: `parseRegister`, `relayAdvertFor` and
-- `handleControlReq`. The source's two reads of the clock in a request are one; `nonce` and `sid`
-- are what ticket.NewID draws.
use buddynet.Support.{
  ℕ, ◌/◌, not, ◌&&◌, ◌||◌, Option, none, some, List, [], ◌∷◌, ◌++◌, Text, Map, length, ltb,
  if◌then◌else◌,
}
use buddynet.Support.Int.{same_int}
use buddynet.Net.{Addr, Prefix, Texts, from_ip, cidr_allowed}
use buddynet.Ticket.{Stdlib, same, valid_id}
use buddynet.RateLimit.{Limiter, allow}
use buddynet.Handshake.{HsPeer, Peers, HsRegistry, Message}
use buddynet.Handshake.Names.{max_field_len, valid_field}
use buddynet.Handshake.Admission.{
  Codec, second, require_v7_fields, resolve_token, registration_matches_tls_key, pair_register,
  issue_ticket,
}
use buddynet.Authz.{Authorizer}
use buddynet.Authz.Approval.{Notice, from_registry, noticed, pair_approved}
use buddynet.Rendezvous.{
  Reply, Wire, version, as_protocol_peer, reply_incompatible, signed_peer_list,
}

abbrev pub max_code_enc_len : ℕ
max_code_enc_len = 512

unfoldable pub parse_register : Wire → Text → Option Message
parse_register wire raw = elim (wire.read_register raw) [
  | none ↦ none
  | some m ↦
      if not m.is_register
        || not (valid_field m.id)
        || ltb max_field_len (length m.pubkey)
        || ltb max_code_enc_len (length m.code_enc)
        || ltb max_field_len (length m.nonce)
      then none
      else if same m.token_enc [] || ltb max_code_enc_len (length m.token_enc)
      then none
      else some m
]

-- `relayAdvert`
pub record RelayAdvert : Type 0 where
  pub endpoint : Text
  pub rid : Text

-- `none` is the error of a relay id that is not valid; the warnings are log lines.
unfoldable pub relay_advert_for : Stdlib → Text → Text → Option RelayAdvert
relay_advert_for std endpoint rid =
    if not (same rid []) && not (valid_id std rid)
    then none
    else some (record { endpoint = endpoint; rid = rid })

-- What a handler holds: the server's key, its advertisement and its source list.
pub record Config : Type 0 where
  pub priv : Text
  pub adv : RelayAdvert
  pub prefixes : List Prefix

-- `authz` is `none` on an open server.
pub record State : Type 0 where
  pub registry : HsRegistry
  pub authz : Option Authorizer
  pub limiter : Limiter

-- tunnel.ControlRequest: a remote that is no UDP address is `none`.
pub record Request : Type 0 where
  pub remote : Option Addr
  pub payload : Text
  pub client_key : Text

pub data Cause : Type 0 where
  source malformed key_mismatch version_mismatch no_proof sealed_token : Cause

-- The calls on the request, in order. `Reply(nil)` closes the stream with no answer.
pub data Call : Type 0 where
  reply : Text → Call
  reply_nothing : Call
  drop : Cause → Call

-- What `hsStats` counts.
pub data Tally : Type 0 where
  rate_limited dropped key_mismatch : Tally
  pairing : Notice → Tally

abbrev pub tallied : List Notice → List Tally
tallied [] = []
tallied (n ∷ notices) = pairing n ∷ tallied notices

-- What is drawn or read in the course of a request.
pub record Draws : Type 0 where
  pub iteration : Map Text Peers
  pub sid : Option Text
  pub nonce : Option Text
  pub now : ℕ

abbrev pub reply_marshalled : Option Text → List Call
reply_marshalled none = []
reply_marshalled (some b) = reply b ∷ []

module _ (std : Stdlib) (codec : Codec) (texts : Texts) (wire : Wire)
    (short_hash log_tag : Text → Text) where
  -- `pairRegister` with or without an approval list.
  unfoldable pub pair_any :
      State → Message → Addr → Draws → State × List Notice × Option (Option HsPeer)
  pair_any s m src d = elim s.authz [
    | none ↦
        let (r, events, partner) =
          pair_register std codec texts d.iteration s.registry m src d.now in
        (record s { registry = r }, noticed from_registry events, partner)
    | some a ↦
        let (r, a', notices, partner) =
          pair_approved std codec texts short_hash log_tag d.iteration s.registry a m src d.now in
        (record s { registry = r; authz = some a' }, notices, partner)
  ]

  -- The roster that names the partner, with the ticket of this buddy.
  unfoldable pub paired_reply : Config → State → Message → HsPeer → Draws → HsRegistry × Reply
  paired_reply cfg s m partner d =
      let p = as_protocol_peer partner cfg.adv.endpoint in
      let list = signed_peer_list std wire cfg.priv m.token (p ∷ []) d.now in
      let (r, ticket) =
        issue_ticket std codec texts cfg.priv cfg.adv.rid s.registry m p.pubkey d.sid d.nonce
          (d.now / second) in
      (r, record list { ticket = ticket })

  -- The end of the handler, for a registration that `pairRegister` took.
  unfoldable pub answer_pairing :
      Config → State → Message → Option HsPeer → Draws → State × List Call
  answer_pairing cfg s m none d = (
    s,
    reply_marshalled (wire.marshal_reply (signed_peer_list std wire cfg.priv m.token [] d.now)),
  )
  answer_pairing cfg s m (some partner) d =
      let (r, list) = paired_reply cfg s m partner d in
      (record s { registry = r }, reply_marshalled (wire.marshal_reply list))

  abbrev pub Handled : Type 0
  Handled = State × List Call × List Tally

  -- The handler from the version check on.
  unfoldable pub serve_register : Config → State → Message → Addr → Draws → Handled
  serve_register cfg s m src d =
      if not (same_int m.ver version)
      then (
        s,
        reply_marshalled (wire.marshal_reply reply_incompatible) ++ drop version_mismatch ∷ [],
        dropped ∷ [],
      )
      else if not (require_v7_fields std codec texts m)
      then (s, drop no_proof ∷ [], dropped ∷ [])
      else elim (resolve_token std codec texts m) [
        | none ↦ (s, drop sealed_token ∷ [], dropped ∷ [])
        | some m' ↦
            let (s', notices, taken) = pair_any s m' src d in
            elim taken [
              | none ↦ (s', reply_nothing ∷ [], tallied notices)
              | some partner ↦
                  let (s'', calls) = answer_pairing cfg s' m' partner d in
                  (s'', calls, tallied notices)
            ]
      ]

  unfoldable pub handle_control_req : Config → State → Request → Draws → Handled
  handle_control_req cfg s req d = elim req.remote [
    | none ↦ (s, drop source ∷ [], [])
    | some src ↦
        if not (cidr_allowed texts cfg.prefixes src.ip)
        then (s, drop source ∷ [], [])
        else (let (limiter, granted) = allow s.limiter (from_ip texts src.ip) d.now in
            let s' = record s { limiter = limiter } in
            if not granted
            then (s', reply_nothing ∷ [], rate_limited ∷ [])
            else elim (parse_register wire req.payload) [
              | none ↦ (s', drop malformed ∷ [], dropped ∷ [])
              | some m ↦
                  if not (registration_matches_tls_key std codec texts m req.client_key)
                  then (s', drop Cause.key_mismatch ∷ [], Tally.key_mismatch ∷ [])
                  else serve_register cfg s' m src d
            ])
  ]
