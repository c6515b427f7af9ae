-- ===== src/Peer/Tests.antt =====
-- The roster of internal/peer/registry.go at concrete sightings.
use buddynet.Support.{
  ◌≡◌, ◌≢◌, ◌⊎◌, refl, some, [], ◌∷◌, Text, codes, text_dec, text_key, lookup, insert, ℕ_discrete,
  arith,
}
use buddynet.Peer.{Peer, Roster, empty, load, precedes, place, list_of, pin, pin_name, upsert}
use buddynet.Peer.Names.{replay, names_unique}

program : Unit {0}
unfolding load precedes place list_of pin pin_name upsert replay lookup insert text_dec ℕ_discrete
program = tt

abbrev sighting : Text → Text → Peer
sighting key name = record {
  id = key;
  pubkey = key;
  virtual_ip = [];
  name = name;
  candidates = [];
  relay = [];
  last_seen = 5;
}

abbrev alice : Peer
alice = sighting (codes "A") (codes "alice")

abbrev mallory : Peer
mallory = sighting (codes "M") (codes "alice")

abbrev known : Roster
known = (upsert empty alice 9).0

-- The second key to claim a name gets none.
newcomer_is_nameless :
    lookup (codes "M") (upsert known mallory 9).0.peers ≡ some (sighting (codes "M") [])
unfolding program
newcomer_is_nameless = refl

-- The list is sorted by id.
sorted :
    (upsert (upsert empty mallory 9).0 (sighting (codes "B") []) 9).1
    ≡ sighting (codes "B") [] ∷ mallory ∷ []
unfolding program
sorted = refl

-- Mallory claims the name of alice later, and is stored without one.
names_unique_example :
    (lookup (codes "A") (replay ((mallory, 9) ∷ []) (replay ((alice, 9) ∷ []) empty)).name_by_key
      ≡ some alice.name)
    × (((sighting (codes "M") []).name ≢ alice.name) ⊎ (codes "A" ≡ (codes "M")))
unfolding program
names_unique_example =
    names_unique ((alice, 9) ∷ []) ((mallory, 9) ∷ []) (codes "A") (codes "M") alice
      (sighting (codes "M") []) refl (λ e. absurd (ground arith)) refl

-- A view that is older than the cached one replaces it.
older_view_replaces :
    lookup
      (codes "A")
      (upsert
        (upsert empty (record alice { last_seen = 8 }) 9).0
        (record alice { last_seen = 3 })
        9).0.peers
    ≡ some (record alice { last_seen = 3 })
unfolding program
older_view_replaces = refl
