-- ===== src/Rendezvous/Gates.antt =====
-- What a registration must pass before `handleControlReq` of internal/role/handshake.go acts on it.
use buddynet.Support.{
  ◌≡◌, ◌⊎◌, refl, inl, inr, true, Option, none, some, List, [], ◌∷◌, ◌++◌, Text, Bool-cases,
  Option-cases,
}
use buddynet.Support.Int.{pos, same_int}
use buddynet.Net.{Addr, Texts, from_ip, cidr_allowed}
use buddynet.Ticket.{Stdlib}
use buddynet.RateLimit.{allow}
use buddynet.Handshake.{Message}
use buddynet.Handshake.Admission.{
  Codec, require_v7_fields, resolve_token, registration_matches_tls_key, verify_registration,
  pair_register,
}
use buddynet.Authz.{Authorizer}
use buddynet.Authz.Approval.Denial.{IsAdmitted, pair_approved-IsAdmitted}
use buddynet.Rendezvous.{Wire, version, reply_incompatible}
use buddynet.Rendezvous.Serve.{
  parse_register, Config, State, Request, Call, reply_nothing, drop, version_mismatch, Draws,
  reply_marshalled, pair_any, serve_register, handle_control_req,
}

module _ (std : Stdlib) (codec : Codec) (texts : Texts) (wire : Wire)
    (short_hash log_tag : Text → Text) where
  -- No partner is named: the stream or the connection is closed, or the version is answered.
  abbrev pub IsRefusal : List Call → Type 0
  IsRefusal calls =
      (calls ≡ reply_nothing ∷ [])
      ⊎ ((c : _) × (calls ≡ drop c ∷ []))
      ⊎ (calls
          ≡ reply_marshalled (wire.marshal_reply reply_incompatible) ++ drop version_mismatch ∷ [])

  -- The key-ownership proof, and on a server with an approval list its checks too.
  abbrev pub Proves : Option Authorizer → Message → Draws → Type 0
  Proves none m d = verify_registration std codec texts m (pos d.now) ≡ true
  Proves (some a) m d = IsAdmitted std codec texts short_hash log_tag a m d.now

  -- What was shown by the registration `m`, whose opened form is `opened`.
  pub record Shows (s : State) (m : Message) (d : Draws) : Type 0 where
    pub opened : Message
    pub speaks : same_int m.ver version ≡ true
    pub signs : require_v7_fields std codec texts m ≡ true
    pub opens : resolve_token std codec texts m ≡ some opened
    pub proves : Proves s.authz opened d

  pub record Passes (cfg : Config) (s : State) (req : Request) (d : Draws) : Type 0 where
    pub src : Addr
    pub message : Message
    pub from : req.remote ≡ some src
    pub listed : cidr_allowed texts cfg.prefixes src.ip ≡ true
    pub in_budget : (allow s.limiter (from_ip texts src.ip) d.now).1 ≡ true
    pub parses : parse_register wire req.payload ≡ some message
    pub owns : registration_matches_tls_key std codec texts message req.client_key ≡ true
    pub shows : Shows s message d

  pair_any-Proves :
      (s : State) (m : Message) (src : Addr) (d : Draws)
      → let out = pair_any std codec texts wire short_hash log_tag s m src d in
        Proves s.authz m d ⊎ ((out.0.registry ≡ s.registry) × (out.2 ≡ none))
  unfolding pair_any pair_register
  pair_any-Proves s m src d = elim (Option-cases s.authz) [
    | inl e ↦ elim (Bool-cases (verify_registration std codec texts m (pos d.now))) [
      | inl v ↦ inl (rw e v)
      | inr v ↦ inr (rw (e, v) (refl, refl))
    ]
    | inr (a, e) ↦
        elim (pair_approved-IsAdmitted std codec texts short_hash log_tag d.iteration s.registry a m
          src d.now) [ inl p ↦ inl (rw e p) | inr p ↦ inr (rw e p) ]
  ]

  serve_register-Shows :
      (cfg : Config) (s : State) (m : Message) (src : Addr) (d : Draws)
      → let out = serve_register std codec texts wire short_hash log_tag cfg s m src d in
        Shows s m d ⊎ ((out.0.registry ≡ s.registry) × IsRefusal out.1)
  unfolding serve_register
  serve_register-Shows cfg s m src d = elim (Bool-cases (same_int m.ver version)) [
    | inr v ↦ inr (rw (v, serve_register) (refl, inr (inr refl)))
    | inl v ↦ elim (Bool-cases (require_v7_fields std codec texts m)) [
      | inr f ↦ inr (rw (v, f, serve_register) (refl, inr (inl (_, refl))))
      | inl f ↦ elim (Option-cases (resolve_token std codec texts m)) [
        | inl t ↦ inr (rw (v, f, t, serve_register) (refl, inr (inl (_, refl))))
        | inr (m', t) ↦ elim (pair_any-Proves s m' src d) [
          | inl p ↦ inl (record { opened = m'; speaks = v; signs = f; opens = t; proves = p })
          | inr (same, parked) ↦ inr (rw (v, f, t, parked, serve_register) (same, inl refl))
        ]
      ]
    ]
  ]

  -- A control request changes the registry, or is answered with more than the server's version, only
  -- if it comes from an allowed source within its budget, parses, claims the key that the TLS
  -- handshake proved, speaks the version, carries a proof and a sealed token that opens, and the
  -- proof verifies; on a server with an approval list, only if the list admits it as well.
  pub handle_control_req-Passes :
      (cfg : Config) (s : State) (req : Request) (d : Draws)
      → let out = handle_control_req std codec texts wire short_hash log_tag cfg s req d in
        Passes cfg s req d ⊎ ((out.0.registry ≡ s.registry) × IsRefusal out.1)
  unfolding handle_control_req
  handle_control_req-Passes cfg s req d = elim (Option-cases req.remote) [
    | inl r ↦ inr (rw (r, handle_control_req) (refl, inr (inl (_, refl))))
    | inr (src, r) ↦ elim (Bool-cases (cidr_allowed texts cfg.prefixes src.ip)) [
      | inr c ↦ inr (rw (r, c, handle_control_req) (refl, inr (inl (_, refl))))
      | inl c ↦ elim (Bool-cases (allow s.limiter (from_ip texts src.ip) d.now).1) [
        | inr g ↦ inr (rw (r, c, g, handle_control_req) (refl, inl refl))
        | inl g ↦ elim (Option-cases (parse_register wire req.payload)) [
          | inl p ↦ inr (rw (r, c, g, p, handle_control_req) (refl, inr (inl (_, refl))))
          | inr (m, p) ↦
              let s' = record s { limiter = (allow s.limiter (from_ip texts src.ip) d.now).0 } in
              elim (Bool-cases (registration_matches_tls_key std codec texts m req.client_key)) [
                | inr k ↦ inr (rw (r, c, g, p, k, handle_control_req) (refl, inr (inl (_, refl))))
                | inl k ↦ elim (serve_register-Shows cfg s' m src d) [
                  | inl shown ↦ inl (record {
                    src = src;
                    message = m;
                    from = r;
                    listed = c;
                    in_budget = g;
                    parses = p;
                    owns = k;
                    shows = record {
                      opened = shown.opened;
                      speaks = shown.speaks;
                      signs = shown.signs;
                      opens = shown.opens;
                      proves = shown.proves;
                    };
                  })
                  | inr refused ↦ inr (rw (r, c, g, p, k, handle_control_req) refused)
                ]
              ]
        ]
      ]
    ]
  ]
