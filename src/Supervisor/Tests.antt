-- ===== src/Supervisor/Tests.antt =====
-- The supervisor of internal/role/supervisor.go and the manifest at concrete buddies.
use buddynet.Support.{
  ◌≤◌, ◌≡◌, ◌↔◌, refl, true, false, none, some, [], ◌∷◌, Text, codes, text_key, ℕ_discrete, lookup,
  arith, is_some, Map,
}
use buddynet.Net.Tests.{texts}
use buddynet.Ticket.Tests.{std, key}
use buddynet.Handshake.Tests.{program, codec, other_key}
use buddynet.Scope.Tests.{scope_program, digits, parse_digit}
use buddynet.Supervisor.{
  PeerSpec, Supervisor, values, contains, first_free, alloc_if, start, exited, names, wanted, stop,
  rescope, reconcile, reconcile_all, reload, start_all, supervise,
}
use buddynet.Supervisor.Index.{IsSound, IsAllocated, alloc_if-IsAllocated}
use buddynet.Supervisor.Steps.{exits, exits-reload, here, next, exit, supervise-IsSound}
use buddynet.Supervisor.Shutdown.{Ends, exit_capacity, drains_iff}
use buddynet.Supervisor.Worker.{Attempt, live_token, round_token, session_for, probes, peer_source}
use buddynet.Supervisor.Manifest.{
  has_text, unrevoked, session_specs, vip_of, find_collision, assemble_peers,
}
use buddynet.Supervisor.Manifest.Assembly.{has_session, reload-assembled}

supervisor_program : Unit {0}
unfolding program scope_program values contains first_free alloc_if start exited names wanted stop
    rescope reconcile reconcile_all reload start_all supervise exits live_token round_token
    session_for probes peer_source has_text unrevoked session_specs vip_of find_collision
    assemble_peers has_session ℕ_discrete
supervisor_program = tt

abbrev alice : PeerSpec
alice = record { key = key; token = codes "meet-here"; name = codes "alice"; expose = none }

abbrev bob : PeerSpec
bob = record { key = other_key; token = []; name = codes "bob"; expose = none }

abbrev same_order : Map Text PeerSpec → Map Text PeerSpec
same_order m = m

abbrev empty : Supervisor
empty = record { running = []; gen = 0; if_index_of = [] }

abbrev two : Supervisor
two = (start_all (alice ∷ bob ∷ []) empty).0

-- Without alice, and then with her again, her worker starts under the index of the one before.
abbrev without_alice : Supervisor
without_alice = (reload digits parse_digit none same_order (some (bob ∷ [])) two).0

readded_index :
    (reload digits parse_digit none same_order
      (some (alice ∷ bob ∷ []))
      without_alice).0.if_index_of
    ≡ two.if_index_of
unfolding supervisor_program
readded_index = refl

alloc_if-IsAllocated_example :
    IsAllocated (codes "c") two.if_index_of 2 ((key, 0) ∷ (other_key, 1) ∷ (codes "c", 2) ∷ [])
unfolding supervisor_program
alloc_if-IsAllocated_example = alloc_if-IsAllocated (codes "c") two.if_index_of

supervise-IsSound_example : IsSound (exited key 1 two).0
unfolding supervisor_program
supervise-IsSound_example =
    supervise-IsSound digits parse_digit none (alice ∷ bob ∷ []) two (exited key 1 two).0 _ refl
      (next here (exit two key 1))

two-IsSound : IsSound two
unfolding supervisor_program
two-IsSound = supervise-IsSound digits parse_digit none (alice ∷ bob ∷ []) two two _ refl here

exits-reload_example : lookup key (exits ((key, 1) ∷ []) without_alice).if_index_of ≡ some 0
unfolding supervisor_program
exits-reload_example =
    exits-reload digits parse_digit none same_order (bob ∷ []) ((refl, tt), λ k. refl) two
      two-IsSound key 0 ((key, 1) ∷ []) refl refl

drains_iff_example : Ends (record { workers = 17; sent = 0 }) ↔ (17 ≤ exit_capacity)
drains_iff_example = drains_iff 17 0 (omega arith)

abbrev planned : Attempt
planned = record {
  rendezvous = codes "meet-here";
  invite_token = codes "meet-here";
  pin = key;
  first_pairing = true;
  expose = none;
}

reload-assembled_example : is_some (lookup key without_alice.running) ≡ false
unfolding supervisor_program
reload-assembled_example =
    reload-assembled std codec texts (λ s. s) digits parse_digit none same_order two
      (alice ∷ bob ∷ []) (bob ∷ []) (key ∷ []) [] key ((refl, tt), λ k. refl) two-IsSound refl
