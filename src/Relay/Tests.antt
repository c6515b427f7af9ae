-- ===== src/Relay/Tests.antt =====
-- Runs of the relay of internal/relay at concrete inputs: two buddies bind, and a reaper ticks.
use buddynet.Support.{
  ℕ, ◌+◌, ◌*◌, ◌≡◌, ◌⊎◌, inr, refl, List, false, none, [], ◌∷◌, ◌++◌, Text, lookup, insert, delete,
  retain, take, drop, All, arith,
}
use buddynet.Net.{
  Addr, addr_from_slice, unmap, from_netip_addr, from_ip, any_contains, cidr_allowed,
}
use buddynet.Net.Tests.{texts, v4}
use buddynet.RateLimit.{
  take as take_token, full, new, new_global, allow_global, prune, charge, admit_new, allow,
}
use buddynet.Ticket.{sign_bind}
use buddynet.Ticket.Tests.{
  program as ticket_program, std, key, id, ticket, body, body_sig, zeros_16,
}
use buddynet.Relay
use buddynet.Relay.{
  Fwd, Leg, Session, Server, Event, second, held, release_ip, warn_hoard, throttle, reject_ticket,
  reject_window, set_peer, set_seen, publish, drop_if_empty, add_leg, mark_paired,
}
use buddynet.Relay.Network
use buddynet.Relay.Network.{new_session, find_addr, bind_network_mode, forward, send_to}
use buddynet.Relay.Ticketed
use buddynet.Relay.Ticketed.{find_name, refuse, move_leg, migrate, rebind, bind_ticketed}
use buddynet.Relay.Reap.{
  drop_leg, drop_legs, is_idle, idle_legs, kept_legs, unpair, sweep, reap_session, reap_sessions,
  reap,
}
use buddynet.Relay.Cookie.{
  marshal_challenge, big_endian_16, big_endian_64, to_16, cookie_input, compute_cookie,
  fresh_cookie, valid_cookie,
}
use buddynet.Relay.Admission.{
  Bind, Work, ticket_mode, half_open, turn_away, spend_global, spend, admit_ticket_bind,
  verify_fields, verify_decoded, decode_sig, verify_ticket_bind, do_work, answer, bind,
}
use buddynet.Relay.Admission.Checks.{
  Untouched, Unspent, Permit, verify_ticket_bind-Permit, IsShortChallenge, bind_unvalidated,
}
use buddynet.Relay.Admission.Bound.{IsBound, verify_ticket_bind-IsBound}
use buddynet.Relay.Admission.Runs.{binds, reaps, here, next, Reach-IsAccounted}
use buddynet.Relay.Accounting.{IsAccounted}

program : Unit {0}
unfolding ticket_program held release_ip warn_hoard throttle reject_ticket reject_window set_peer
    set_seen publish drop_if_empty add_leg mark_paired find_addr bind_network_mode forward find_name
    refuse move_leg migrate rebind bind_ticketed drop_leg drop_legs idle_legs kept_legs unpair sweep
    reap_session reap_sessions reap Network.claim Network.join Ticketed.claim Ticketed.join send_to
    marshal_challenge big_endian_16 big_endian_64 to_16 cookie_input compute_cookie fresh_cookie
    valid_cookie ticket_mode half_open turn_away spend_global spend admit_ticket_bind verify_fields
    verify_decoded decode_sig verify_ticket_bind do_work answer bind lookup insert delete retain
    take_token full new new_global allow_global prune charge admit_new allow addr_from_slice unmap
    from_netip_addr from_ip any_contains cidr_allowed
program = tt

-- A relay with room for two sessions and two legs of a source.
abbrev idle_relay : Server
idle_relay = record {
  ttl = 100 * second;
  allowed = [];
  cookie_key = key;
  max_sessions = 2;
  max_legs_per_ip = 2;
  pending_pair = 20 * second;
  server_keys = [];
  relay_id = id;
  debug = false;
  bind_rl = new 100 10 8 0;
  sig_rl = new_global 10 0;
  reserve_rl = new 100 10 8 0;
  in_flight = 0;
  sessions = [];
  legs_per_ip = [];
  by_addr = [];
  fwds = [];
  next_fwd = 0;
  stat_paired = 0;
  stat_challenged = 0;
  stat_rejected = 0;
  stat_hoard = 0;
  stat_ticket = 0;
  stat_verify = 0;
  hoard_warned = [];
  reject_warned = [];
}

abbrev ticket_relay : Server
ticket_relay = record idle_relay { server_keys = key ∷ [] }

abbrev alice : Addr
alice = record { ip = v4; port = 40000 }

abbrev bob : Addr
bob = record { ip = 198 ∷ 51 ∷ 100 ∷ 9 ∷ []; port = 50000 }

-- A function of the shape of HMAC-SHA256.
abbrev hmac : Text → Text → Text
hmac k msg = take 16 (drop 8 msg ++ (k ++ msg))

abbrev now : ℕ
now = 165 * second

abbrev hello : Addr → Bind
hello src = record {
  session_token = id;
  cookie = fresh_cookie hmac idle_relay src now;
  ticket = [];
  ticket_sig = [];
  bind_sig = [];
}

abbrev step : Server → Addr → Server
step s src = (bind texts std hmac s (hello src) src 100 now).0

-- Once both have bound, each datagram of one goes to the other.
forwards_to_bob :
    (forward texts (step (step idle_relay alice) bob) alice (7 ∷ []) now).1
    ≡ Event.send bob (Relay.Reply.datagram (7 ∷ [])) ∷ []
unfolding program
forwards_to_bob = refl

forwards_to_alice :
    (forward texts (step (step idle_relay alice) bob) bob (8 ∷ []) now).1
    ≡ Event.send alice (Relay.Reply.datagram (8 ∷ [])) ∷ []
unfolding program
forwards_to_alice = refl

-- 101 seconds of silence later both are gone.
reaped : (reap texts (step (step idle_relay alice) bob) (now + 101 * second)).sessions ≡ []
unfolding program is_idle
reaped = refl

start : IsAccounted idle_relay
unfolding held lookup
start = record {
  distinct = tt;
  mirrored = λ a. refl;
  capped = λ a. omega arith;
  sized = tt;
  bounded = omega arith;
}

abbrev last : Server
last = reap texts (step idle_relay alice) (now + 5 * second)

Reach-IsAccounted_example : IsAccounted last
Reach-IsAccounted_example =
    Reach-IsAccounted texts std hmac {s = idle_relay} {t = last} start
      (next (next here (binds (hello alice) alice 100 now)) (reaps (now + 5 * second)))

abbrev one_leg : Server
one_leg = (bind_network_mode texts idle_relay id alice v4 now).0

abbrev cookie : Text
cookie = zeros_16

abbrev work : Work
work = record {
  bind = record {
    session_token = id;
    cookie = cookie;
    ticket = body;
    ticket_sig = body_sig;
    bind_sig = sign_bind std key body body_sig cookie;
  };
  src = alice;
  acct = v4;
  cookie = cookie;
}

abbrev permit_of_work : Permit std ticket_relay work now
unfolding program
permit_of_work = record {
  payload = body;
  sig = body_sig;
  bind_sig = sign_bind std key body body_sig cookie;
  epk = key;
  ticket = ticket;
  decoded = refl;
  sig_decoded = refl;
  bind_sig_decoded = refl;
  signed = refl;
  parsed = refl;
  current = refl;
  for_relay = refl;
  for_session = refl;
  bound = refl;
  possessed = refl;
}

verify_ticket_bind-Permit_example :
    Untouched ticket_relay (verify_ticket_bind texts std ticket_relay work now).0
    ⊎ Permit std ticket_relay work now
verify_ticket_bind-Permit_example = verify_ticket_bind-Permit texts std work now ticket_relay

-- The first leg of a session: the relay has no session yet.
verify_ticket_bind-IsBound_example :
    let out = verify_ticket_bind texts std ticket_relay work now in
    IsBound texts out.0 ticket alice
    × ((lines : List Event) × (out.1 ≡ lines ++ Event.send alice (Relay.Reply.ack id) ∷ []))
unfolding program permit_of_work
verify_ticket_bind-IsBound_example =
    verify_ticket_bind-IsBound texts std work now ticket_relay permit_of_work (inr (omega arith))
      refl (omega arith) (omega arith)

bind_unvalidated_example :
    let (s', events, started) =
      bind texts std hmac idle_relay (record (hello alice) { cookie = [] }) alice 100 now in
    Untouched idle_relay s'
    × Unspent idle_relay s'
    × All (IsShortChallenge alice 100) events
    × (started ≡ none)
    × ((s'.bind_rl ≡ idle_relay.bind_rl)
        ⊎ (s'.bind_rl ≡ (allow idle_relay.bind_rl (from_ip texts v4) now).0))
unfolding program
bind_unvalidated_example =
    bind_unvalidated texts std hmac idle_relay (record (hello alice) { cookie = [] }) alice 100 now
      refl

abbrev epoch : ℕ
epoch = 5
