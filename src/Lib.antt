-- ===== src/Lib.antt =====
-- BuddyNet: two peers behind NAT meet through a handshake server, and, when no direct path opens,
-- through a blind UDP relay. The relay forwards datagrams between the two legs of a session and
-- holds no key of its own; what it may carry is decided by tickets that the handshake server signs
-- and by the budgets of the rate limiter.
--
-- The parts, and where they stand:
--   Support      lists, texts, integers and maps that all parts share
--   RateLimit    internal/ratelimit/ratelimit.go: `take`, `full`, `New`, `NewGlobal`,
--                `AllowGlobal`, `Allow`, `pruneLocked`
--   Net          internal/netkey/netkey.go: `FromIP`; `cidrAllowed` of internal/relay/server.go
--   Ticket       internal/ticket/ticket.go: `Sign`, `Verify`, `Parse`, `CheckWindow`, `CheckRelay`,
--                `SignBind`, `VerifyBind`, `ValidID`
--   Peer         internal/peer/registry.go: `Open`, `Upsert`, `pinNameLocked`, `list`
--   Handshake    internal/role/handshake.go: the methods of `hsRegistry` in Registry, the checks of a
--                registration, `pairRegister` and `issueTicket` in Admission; `validField` and
--                pkg/protocol/names.go in Names
--   Authz        internal/role/authz.go: the methods of `authorizer`; the allowlist file with
--                `ApproveKey` and `RevokeKey` in File; `pairRegister` behind an approval list in
--                Approval
--   Scope        internal/nft/scope.go
--   Firewall     internal/nft/nft_linux.go: the netlink attributes; the rules of an interface in
--                Rules, `buildBatch` in Batch, `Apply` and `Remove` in State
--   Supervisor   internal/role/supervisor.go: `supervise`, its reloads and its end in Shutdown;
--                `peerLoop` and `peerSource` in Worker; internal/role/peersfile.go in Manifest
--   Trust        internal/role/trust.go: `decide`, `confirm`, `learnPeer`; session.go in Sessions and
--                relaytrust.go in RelayOffer
--     Revocations internal/role/trustlock.go: the list of revoked keys as it is read and written
--     Curation   internal/role/peerscmd.go: `PeersAdd`, `PeersAllow`, `PeersRemove`,
--                `PeersMigrate`, `resolveKeyRef`
--   Rendezvous   `handleControlReq` of internal/role/handshake.go in Serve, with the signed peer
--                list; the polls of internal/role/register.go in Poll
--   Control      internal/tunnel/control.go: `gateConn`, `admit`, `noteRejection`
--   Relay        internal/relay/server.go and tickets.go: the state of `Server`, a record; a
--                pointer to a `fwd` is a place in a heap
--     Network    `bindNetworkMode` and `forward`
--     Ticketed   `bindTicketed`
--     Reap       one tick of `reap`
--     Cookie     `computeCookie`, `freshCookie`, `validCookie`
--     Wire       internal/relay/offer.go: the datagrams and the buddy's `BindLeg`
--     Fallback   internal/relay/fallback.go
--     Admission  `bind`, `admitTicketBind`, `verifyTicketBind`; runs of any steps in any order
--     Accounting what the relay's maps count
--
-- `bind` calls the limiter with the key of the source's address, checks the cookie, and in ticket
-- mode hands the bind to a verification, which calls `Ticket` and, if all checks hold, changes the
-- sessions. A handler that holds the mutex is one step; the clock is an argument, read once in a
-- step, in nanoseconds. The verification of a bind runs in a goroutine, so it is a step of its own
-- that may come after any others.
--
-- The handshake server pairs the registrations of one token, and issues each buddy a ticket for the
-- leg that its key gets. A Go map iterates in any order: where a loop stops early, in the eviction
-- of a token, the order is an argument and the theorems hold for every order.
--
-- Numbers are natural numbers. The int64 of a ticket are integers, with the wrap-around of a sum or
-- a difference written out. Tokens of the limiter are counted exactly, in units of 1e-9, where the
-- source rounds a float64. Each loop is over a list, but the search for a free interface index runs
-- on fuel, one more than the number of indices in use.
--
-- The supervisor's goroutine holds all its state, so a reload and the exit of a worker are steps,
-- and they come in any order. A reload starts the workers in the order of a Go map, an argument.
--
-- Not modelled: the SAS prompt, the tunnel that a worker runs, YAML, the network devices, what the
-- kernel makes of the bytes of a firewall rule, sockets, goroutine scheduling inside a step, log
-- texts, and what the repository imports (Ed25519, SHA-256, HMAC, base64, JSON, the rendering of
-- addresses), which are parameters with their documented behaviour as hypotheses where a theorem needs
-- it.
pub mod Authz
pub mod Control
pub mod Firewall
pub mod Handshake
pub mod Net
pub mod Peer
pub mod RateLimit
pub mod Relay
pub mod Rendezvous
pub mod Scope
pub mod Supervisor
pub mod Support
pub mod Ticket
pub mod Trust
