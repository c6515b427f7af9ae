-- ===== src/Supervisor/Worker.antt =====
-- One worker of internal/role/supervisor.go: the plan of each round, `peerSource`, and the delays of
-- `peerLoop`. The stores are read anew each round and are arguments; a read that fails is `none`.
use buddynet.Support.{
  ℕ, suc, ◌+◌, ◌*◌, ◌/◌, ◌%◌, ◌≤◌, ◌≡◌, ◌≢◌, ◌⊎◌, refl, inl, inr, Bool, true, false, not, ◌&&◌,
  ◌==◌, Option, none, some, List, [], ◌∷◌, Text, leb, ltb, if◌then◌else◌, arith, Bool-cases,
  Option-cases,
}
use buddynet.Ticket.{same}
use buddynet.Scope.{Scope}
use buddynet.Supervisor.{PeerSpec}

abbrev pub session_fallback_after : ℕ
session_fallback_after = 3

-- The key stands for the pin.
pub record Attempt : Type 0 where
  pub rendezvous : Text
  pub invite_token : Text
  pub pin : Text
  pub first_pairing : Bool
  pub expose : Option Scope

pub data Plan : Type 0 where
  attempt : Attempt → Plan
  unreadable_revocations : Plan
  peer_revoked : Plan
  unreadable_sessions : Plan
  session_revoked : Plan

-- The token of the manifest as it is now.
unfoldable pub live_token : Text → List PeerSpec → Text
live_token key [] = []
live_token key (s ∷ specs) =
    let rest = live_token key specs in if same s.key key then s.token else rest

-- With no manifest file the token is that of the spec; with one that does not read there is none.
unfoldable pub round_token : Bool → Option (List PeerSpec) → PeerSpec → Text
unfolding live_token
round_token false live spec = spec.token
round_token true none spec = []
round_token true (some specs) spec = live_token spec.key specs

-- `loadSessionFor`: the first stored secret of a key.
unfoldable pub session_for : Text → List (Text × Text) → Option Text
session_for key [] = none
session_for key ((pin, secret) ∷ sessions) =
    let rest = session_for key sessions in if same pin key then some secret else rest

abbrev pub bootstrap : Text → PeerSpec → Option Scope → Plan
bootstrap token spec cell = attempt (record {
  rendezvous = token;
  invite_token = token;
  pin = spec.key;
  first_pairing = true;
  expose = cell;
})

abbrev pub reconnect : Text → PeerSpec → Option Scope → Plan
reconnect secret spec cell = attempt (record {
  rendezvous = secret;
  invite_token = [];
  pin = spec.key;
  first_pairing = false;
  expose = cell;
})

unfoldable pub probes : Bool → Text → ℕ → Bool
probes insecure token failures =
    not (same token []) && not insecure && leb session_fallback_after failures && failures % 2 == 1

-- The plan of a round: whether the key is revoked, whether there is a manifest file and what it
-- reads, the stored sessions, the lab flag, the worker's spec and cell, and its failures in a row.
unfoldable pub peer_source :
    Option Bool
    → Bool
    → Option (List PeerSpec)
    → Option (List (Text × Text))
    → Bool
    → PeerSpec
    → Option Scope
    → ℕ
    → Plan
unfolding round_token session_for probes
peer_source revoked has_file live sessions insecure spec cell failures = elim revoked [
  | none ↦ unreadable_revocations
  | some true ↦ peer_revoked
  | some false ↦
      let token = round_token has_file live spec in
      elim sessions [
        | none ↦ unreadable_sessions
        | some stored ↦ elim (session_for spec.key stored) [
          | some secret ↦
              if probes insecure token failures
              then bootstrap token spec cell
              else reconnect secret spec cell
          | none ↦ if same token [] then session_revoked else bootstrap token spec cell
        ]
      ]
]

-- In nanoseconds.
abbrev pub reconnect_base : ℕ
reconnect_base = 3 * 1_000_000_000

abbrev pub reconnect_max : ℕ
reconnect_max = 60 * 1_000_000_000

-- A random 64-bit number, or `none` if the generator fails.
unfoldable pub jitter : ℕ → Option ℕ → ℕ
jitter d none = d
jitter d (some r) = if leb d 0 then 0 else d / 2 + r % (d / 2 + 1)

pub record Pace : Type 0 where
  pub backoff : ℕ
  pub failures : ℕ

abbrev pub first_pace : Pace
first_pace = record { backoff = reconnect_base; failures = 0 }

-- A run that lasted longer than the cap was a tunnel.
unfoldable pub after_run : ℕ → Pace → Pace
after_run lasted p =
    if ltb reconnect_max lasted
    then record { backoff = reconnect_base; failures = 0 }
    else record { backoff = p.backoff; failures = p.failures + 1 }

unfoldable pub after_wait : Pace → Pace
after_wait p = record p {
  backoff = if ltb reconnect_max (p.backoff * 2) then reconnect_max else p.backoff * 2;
}

-- A round of `peerLoop`: the delay before the next one, and the pace there.
unfoldable pub round : ℕ → Option ℕ → Pace → ℕ × Pace
unfolding jitter after_run after_wait
round lasted random p = let p' = after_run lasted p in (jitter p'.backoff random, after_wait p')

unfoldable pub rounds : List (ℕ × Option ℕ) → Pace → Pace
unfolding round
rounds [] p = p
rounds ((lasted, random) ∷ runs) p = rounds runs (round lasted random p).1

IsPaced : Pace → Type 0
IsPaced p = (reconnect_base ≤ p.backoff) × (p.backoff ≤ reconnect_max)

jitter-bounds : (d : ℕ) (random : Option ℕ) → (d / 2 ≤ jitter d random) × (jitter d random ≤ d)
unfolding jitter
jitter-bounds d none = (omega arith, omega arith)
jitter-bounds d (some r) = ground arith

round-IsPaced :
    (lasted : ℕ) (random : Option ℕ) (p : Pace) → IsPaced p → IsPaced (round lasted random p).1
unfolding round IsPaced after_run after_wait
round-IsPaced lasted random p h = ground (arith, h)

rounds-IsPaced : (runs : List (ℕ × Option ℕ)) (p : Pace) → IsPaced p → IsPaced (rounds runs p)
unfolding rounds
rounds-IsPaced [] p h = h
rounds-IsPaced ((lasted, random) ∷ runs) p h =
    rounds-IsPaced runs (round lasted random p).1 (round-IsPaced lasted random p h)

-- Whatever the rounds before, a worker waits at least 1.5 and at most 60 seconds before it tries
-- again.
rounds-wait :
    (runs : List (ℕ × Option ℕ)) (lasted : ℕ) (random : Option ℕ)
    → let wait = (round lasted random (rounds runs first_pace)).0 in
      (reconnect_base / 2 ≤ wait) × (wait ≤ reconnect_max)
unfolding round after_run IsPaced
rounds-wait runs lasted random =
    let p = rounds runs first_pace in
    let paced = rounds-IsPaced runs first_pace (omega arith, omega arith) in
    let (low, high) = jitter-bounds (after_run lasted p).backoff random in
    ground (arith, paced, low, high)

-- With a readable manifest or none, a token, a stored session and no lab flag, of two rounds in a
-- row after three failures one meets the partner at the session's secret and the other at the token,
-- and both pin the key.
pub peer_source-alternates :
    (has_file : Bool) (live : Option (List PeerSpec)) (stored : List (Text × Text))
    (spec : PeerSpec) (cell : Option Scope) (secret : Text) (failures : ℕ)
    → session_for spec.key stored ≡ some secret
    → round_token has_file live spec ≢ []
    → session_fallback_after ≤ failures
    → let plan = peer_source (some false) has_file live (some stored) false spec cell in
      let token = round_token has_file live spec in
      ((plan failures ≡ bootstrap token spec cell)
        × (plan (suc failures) ≡ reconnect secret spec cell))
      ⊎ ((plan failures ≡ reconnect secret spec cell)
          × (plan (suc failures) ≡ bootstrap token spec cell))
unfolding peer_source probes
peer_source-alternates has_file live stored spec cell secret failures e some_token late =
    elim (Bool-cases (failures % 2 == 1)) [
      | inl odd ↦ inl (ground (arith, e, some_token), ground (arith, e, some_token))
      | inr even ↦ inr (ground (arith, e, some_token), ground (arith, e, some_token))
    ]

-- An attempt is planned only if the revocations can be read and do not have the key, and then it
-- pins the key and meets the partner at the stored secret of the key or at its live token.
pub peer_source-pins :
    (revoked : Option Bool) (has_file : Bool) (live : Option (List PeerSpec))
    (sessions : Option (List (Text × Text))) (insecure : Bool) (spec : PeerSpec)
    (cell : Option Scope) (failures : ℕ) (a : Attempt)
    → peer_source revoked has_file live sessions insecure spec cell failures ≡ attempt a
    → (revoked ≡ some false)
      × (a.pin ≡ spec.key)
      × ((a.rendezvous ≡ round_token has_file live spec)
          ⊎ ((stored : List (Text × Text)) × (sessions ≡ some stored)
              × (session_for spec.key stored ≡ some a.rendezvous)))
unfolding peer_source
peer_source-pins none has_file live sessions insecure spec cell failures a h = absurd (ground arith)
peer_source-pins (some true) has_file live sessions insecure spec cell failures a h =
    absurd (ground arith)
peer_source-pins (some false) has_file live none insecure spec cell failures a h =
    absurd (ground arith)
peer_source-pins (some false) has_file live (some stored) insecure spec cell failures a h =
    let token = round_token has_file live spec in
    elim (Option-cases (session_for spec.key stored)) [
      | inl e ↦ elim (Bool-cases (same token [])) [
        | inl f ↦ absurd (ground (arith, h))
        | inr f ↦ (refl, ground (arith, h), inl (ground (arith, h)))
      ]
      | inr (secret, e) ↦ elim (Bool-cases (probes insecure token failures)) [
        | inl f ↦ (refl, ground (arith, h), inl (ground (arith, h)))
        | inr f ↦ (refl, ground (arith, h), inr (stored, refl, ground (arith, h, e)))
      ]
    ]
