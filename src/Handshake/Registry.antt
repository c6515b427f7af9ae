-- ===== src/Handshake/Registry.antt =====
-- The methods of `hsRegistry` of internal/role/handshake.go: a registration, the eviction it may
-- cause, the announcement, the session id and one tick of the reaper.
use buddynet.Support.{
  ℕ, ◌+◌, ◌-◌, ◌==◌, Bool, true, false, not, ◌&&◌, Option, none, some, List, [], ◌∷◌, Text,
  text_key, Map, lookup, insert, delete, retain, length, take, ltb, leb, if◌then◌else◌, is_some,
}
use buddynet.Net.{Addr, Texts}
use buddynet.Ticket.{same}
use buddynet.Handshake.{
  HsPeer, Peers, TextSet, HsRegistry, Message, Event, squat_rejected, new_pub_key, max_tokens,
  max_ids_per_token, evict_sample, observe, release, warn_intruder,
}
use buddynet.Handshake.Names.{valid_name}

-- The freshest sighting.
unfoldable pub bucket_seen : Peers → ℕ
bucket_seen [] = 0
bucket_seen ((id, p) ∷ b) = let rest = bucket_seen b in if ltb rest p.seen then p.seen else rest

-- The loop over the sampled buckets, with the oldest so far.
unfoldable pub stalest : Option (Text × ℕ) → Map Text Peers → Option (Text × ℕ)
stalest best [] = best
stalest none ((token, b) ∷ rest) = stalest (some (token, bucket_seen b)) rest
stalest (some (victim, oldest)) ((token, b) ∷ rest) =
    stalest
      (if ltb (bucket_seen b) oldest then some (token, bucket_seen b) else some (victim, oldest))
      rest

-- `iteration` is the map in the order in which the loop meets its entries.
unfoldable pub evict_stalest : Map Text Peers → HsRegistry → Option HsRegistry
evict_stalest iteration r = elim (stalest none (take evict_sample iteration)) [
  | none ↦ none
  | some (victim, oldest) ↦ some (release victim r)
]

-- The bucket of a token, created if it is missing.
unfoldable pub open_bucket : Map Text Peers → HsRegistry → Text → Option (HsRegistry × Peers)
open_bucket iteration r token = elim (lookup token r.waiting) [
  | some b ↦ some (r, b)
  | none ↦
      if leb max_tokens (length r.waiting)
      then elim (evict_stalest iteration r) [
        | none ↦ none
        | some r' ↦ some (record r' { waiting = insert token [] r'.waiting }, [])
      ]
      else some (record r { waiting = insert token [] r.waiting }, [])
]

abbrev pub or_empty : Option (TextSet) → TextSet
or_empty none = []
or_empty (some known) = known

-- The third key is counted, and warned of.
unfoldable pub note_key : HsRegistry → Text → TextSet → Addr → HsRegistry × List Event
note_key r token known src =
    if leb max_ids_per_token (length known)
    then (let (r', lines) = warn_intruder r token src in (r', new_pub_key ∷ lines))
    else (r, [])

-- The keys seen under a token: the third is reported, and no fourth is recorded.
unfoldable pub record_key : HsRegistry → Text → Text → Addr → HsRegistry × List Event
record_key r token pubkey src =
    let known = or_empty (lookup token r.seen_pks) in
    if not (is_some (lookup pubkey known)) && not (leb (max_ids_per_token + 1) (length known))
    then (let (r', events) = note_key r token known src in
        (record r' { seen_pks = insert token (insert pubkey tt known) r'.seen_pks }, events))
    else (record r { seen_pks = insert token known r.seen_pks }, [])

-- The fields that a registration sets.
unfoldable pub update : HsPeer → Message → HsPeer
update p m =
    let p₁ = if same m.pubkey [] then p else record p { pubkey = m.pubkey } in
    let p₂ = if same m.virtual_ip [] then p₁ else record p₁ { virtual_ip = m.virtual_ip } in
    if not (same m.name []) && valid_name m.name then record p₂ { name = m.name } else p₂

abbrev pub new_peer : Text → HsPeer
new_peer id = record { id = id; pubkey = []; virtual_ip = []; name = []; cands = []; seen = 0 }

-- The loop that looks for the partner and expires the peers that it meets before.
unfoldable pub find_partner : Text → ℕ → ℕ → Peers → Peers → Peers × Option HsPeer
find_partner id ttl now [] b = (b, none)
find_partner id ttl now ((other, p) ∷ rest) b =
    if same other id
    then find_partner id ttl now rest b
    else if ltb ttl (now - p.seen)
    then find_partner id ttl now rest (delete other b)
    else (b, some p)

-- The result of `upsert`: the registry, the events, and the peers if the registration is accepted.
abbrev pub Upserted : Type 0
Upserted = HsRegistry × List Event × Option (HsPeer × Option HsPeer)

-- The registration of a peer whose place in the bucket is given.
unfoldable pub enter : Texts → HsRegistry → Peers → HsPeer → Message → Addr → ℕ → Upserted
enter texts r b p m src now =
    let (r₁, events) = if same m.pubkey [] then (r, []) else record_key r m.token m.pubkey src in
    let self = observe texts (update p m) src now in
    let b₁ = insert m.id self b in
    let (b₂, partner) = find_partner m.id r.ttl now b₁ b₁ in
    let r₂ = record r₁ { waiting = insert m.token b₂ r₁.waiting } in
    let logged = if is_some partner then r₂.paired_logged else delete m.token r₂.paired_logged in
    (record r₂ { paired_logged = logged }, events, some (self, partner))

unfoldable pub upsert : Texts → Map Text Peers → HsRegistry → Message → Addr → ℕ → Upserted
upsert texts iteration r m src now = elim (open_bucket iteration r m.token) [
  | none ↦ (r, [], none)
  | some (r₁, b) ↦ elim (lookup m.id b) [
    | some p ↦ enter texts r₁ b p m src now
    | none ↦
        if leb max_ids_per_token (length b)
        then (let (r₂, lines) = warn_intruder r₁ m.token src in (r₂, squat_rejected ∷ lines, none))
        else enter texts r₁ b (new_peer m.id) m src now
  ]
]

unfoldable pub note_paired : HsRegistry → Text → HsRegistry × Bool
note_paired r token =
    if is_some (lookup token r.paired_logged)
    then (r, false)
    else if leb max_tokens (length r.paired_logged)
    then (r, false)
    else (record r { paired_logged = insert token tt r.paired_logged }, true)

-- `fresh` is what ticket.NewID draws, or `none` if it fails.
unfoldable pub sid_for : HsRegistry → Text → Option Text → HsRegistry × Option Text
sid_for r token fresh = elim (lookup token r.sids) [
  | some sid ↦ (r, some sid)
  | none ↦ if leb max_tokens (length r.sids) then (r, none) else elim fresh [
    | none ↦ (r, none)
    | some sid ↦ (record r { sids = insert token sid r.sids }, some sid)
  ]
]

-- The peers of a bucket that were seen within the ttl.
unfoldable pub fresh_peers : ℕ → ℕ → Peers → Peers
fresh_peers ttl now b = retain (λ p. not (ltb ttl (now - p.seen))) b

unfoldable pub reap_bucket : Text → Peers → ℕ → HsRegistry → HsRegistry
reap_bucket token b now r =
    let kept = fresh_peers r.ttl now b in
    let r' = record r { waiting = insert token kept r.waiting } in
    if length kept == 0 then release token r' else r'

-- The loop over the tokens that stood in the map at the tick.
unfoldable pub reap_buckets : Map Text Peers → ℕ → HsRegistry → HsRegistry
reap_buckets [] now r = r
reap_buckets ((token, b) ∷ rest) now r = reap_buckets rest now (reap_bucket token b now r)

unfoldable pub reap : HsRegistry → ℕ → HsRegistry
reap r now = reap_buckets r.waiting now r
