-- ===== src/Relay/Fallback.antt =====
-- internal/relay/fallback.go: the paths that a buddy tries to reach its partner, in their order.
use buddynet.Support.{
  Bool, not, ◌&&◌, Option, none, some, List, [], ◌∷◌, ◌++◌, Text, ltb, length, if◌then◌else◌,
}
use buddynet.Ticket.{same}
use buddynet.Peer.{Peer}

-- A path with what it dials; the labels for the log are left out.
pub data Route : Type 0 where
  direct : List (Text × Bool) → Route
  relayed : Text → Route
  configured : Text → Route

-- `DirectChain`
unfoldable pub direct_chain : Text → Text → List Route
direct_chain endpoint relay_endpoint =
    configured endpoint ∷ (if not (same relay_endpoint []) then relayed relay_endpoint ∷ [] else [])

-- The loop over the relay endpoints of the offers.
unfoldable pub offered : List Text → List Route
offered [] = []
offered (endpoint ∷ offers) =
    let rest = offered offers in if same endpoint [] then rest else relayed endpoint ∷ rest

abbrev pub cached_path : Bool → Option Peer → List Route
cached_path live none = []
cached_path live (some p) =
    if not live && ltb 0 (length p.candidates) then direct p.candidates ∷ [] else []

unfoldable pub chain : Peer → List Text → Text → Option Peer → List Route
unfolding offered
chain partner offers server_relay cached =
    let live = ltb 0 (length partner.candidates) in
    (if live then direct partner.candidates ∷ [] else [])
    ++ (offered offers
        ++ ((if not (same server_relay []) then relayed server_relay ∷ [] else [])
            ++ cached_path live cached))
