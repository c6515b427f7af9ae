-- ===== src/Peer.antt =====
-- internal/peer/registry.go: the roster of known peers and the names that they are pinned to. The
-- two mutexes make each method one step; `now` is the Unix time. What `save` writes to the disk is
-- the list that `upsert` returns with the registry.
pub mod Names
mod Tests
use buddynet.Support.{
  ℕ, ◌==◌, Bool, true, false, Option, none, some, List, [], ◌∷◌, Text, text_key, Map, lookup,
  insert, ltb, if◌then◌else◌,
}
use buddynet.Ticket.{same}

-- protocol.Peer, with each candidate's address and whether it is IPv6.
pub record Peer : Type 0 where
  pub id : Text
  pub pubkey : Text
  pub virtual_ip : Text
  pub name : Text
  pub candidates : List (Text × Bool)
  pub relay : Text
  pub last_seen : ℕ

pub record Roster : Type 0 where
  pub peers : Map Text Peer
  pub name_by_key : Map Text Text
  pub key_by_name : Map Text Text

abbrev pub empty : Roster
empty = record { peers = []; name_by_key = []; key_by_name = [] }

-- The loop of `Open` over the list that the file holds.
unfoldable pub load : List Peer → Roster → Roster
load [] r = r
load (p ∷ list) r =
    if same p.pubkey []
    then load list r
    else (let r' = record r { peers = insert p.pubkey p r.peers } in
        if same p.name []
        then load list r'
        else load list (record r' {
          name_by_key = insert p.pubkey p.name r'.name_by_key;
          key_by_name = insert p.name p.pubkey r'.key_by_name;
        }))

-- The order of Go strings: bytes from the left.
unfoldable pub precedes : Text → Text → Bool
precedes [] [] = false
precedes [] (d ∷ t) = true
precedes (c ∷ s) [] = false
precedes (c ∷ s) (d ∷ t) =
    let rest = precedes s t in if ltb c d then true else if c == d then rest else false

unfoldable pub place : Peer → List Peer → List Peer
place p [] = p ∷ []
place p (q ∷ list) =
    let rest = place p list in if precedes q.id p.id then q ∷ rest else p ∷ q ∷ list

-- The values of the map, sorted by id.
unfoldable pub list_of : Map Text Peer → List Peer
list_of [] = []
list_of ((key, p) ∷ m) = place p (list_of m)

-- The name is free: it is pinned.
unfoldable pub pin : Roster → Text → Text → Roster × Text
pin r pubkey name = (
  record r {
    name_by_key = insert pubkey name r.name_by_key;
    key_by_name = insert name pubkey r.key_by_name;
  },
  name,
)

abbrev pub or_empty : Option Text → Text
or_empty none = []
or_empty (some name) = name

unfoldable pub pin_name : Roster → Text → Text → Roster × Text
pin_name r pubkey name =
    if same name []
    then (r, or_empty (lookup pubkey r.name_by_key))
    else elim (lookup pubkey r.name_by_key) [
      | some pinned ↦ (r, pinned)
      | none ↦ elim (lookup name r.key_by_name) [
        | none ↦ pin r pubkey name
        | some owner ↦ if same owner pubkey then pin r pubkey name else (r, [])
      ]
    ]

unfoldable pub upsert : Roster → Peer → ℕ → Roster × List Peer
upsert r p now =
    let seen = if p.last_seen == 0 then now else p.last_seen in
    let (r', name) = pin_name r p.pubkey p.name in
    let peers = insert p.pubkey (record p { last_seen = seen; name = name }) r'.peers in
    (record r' { peers = peers }, list_of peers)
