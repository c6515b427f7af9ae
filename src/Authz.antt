-- ===== src/Authz.antt =====
-- internal/role/authz.go: the allowlist of the handshake server and its caches. The mutex makes
-- each method one step. Times are in nanoseconds; the zero time.Time is `none`. What a method
-- logs is its list of events.
pub mod File
pub mod Replay
pub mod Approval
mod Tests
use buddynet.Support.{
  ℕ, ◌+◌, ◌-◌, ◌*◌, ◌==◌, Bool, true, false, not, ◌&&◌, ◌||◌, Option, none, some, List, [], ◌∷◌,
  ◌++◌, Text, text_key, Map, lookup, insert, delete, retain, length, ltb, leb, if◌then◌else◌,
  is_some,
}
use buddynet.Support.Int.{ℤ, pos, ◌+ℤ◌, leb_ℤ}
use buddynet.RateLimit.{Limiter, new, allow}
use buddynet.Ticket.{same}

abbrev pub second : ℕ
second = 1_000_000_000

abbrev pub minute : ℕ
minute = 60 * second

abbrev pub pending_ttl : ℕ
pending_ttl = 30 * minute

abbrev pub log_dedup_window : ℕ
log_dedup_window = 30 * second

abbrev pub max_logged_keys : ℕ
max_logged_keys = 1_024

abbrev pub max_pending : ℕ
max_pending = 1_024

abbrev pub max_replay_regs : ℕ
max_replay_regs = 4_096

abbrev pub max_pre_auth_regs : ℕ
max_pre_auth_regs = 4_096

-- Twice the 60 seconds of `regSkew`.
abbrev pub reg_replay_window : ℕ
reg_replay_window = 2 * (60 * second)

abbrev pub stat_error_window : ℕ
stat_error_window = 5 * minute

pub record PendingEntry : Type 0 where
  pub key : Text
  pub seen : ℕ

pub record Authorizer : Type 0 where
  pub enroll : Option Limiter
  pub keys : Map Text Text
  pub mtime : Option ℕ
  pub logged : Map Text ℕ
  pub pend : Map Text PendingEntry
  pub recent_regs : Map Text ℕ
  pub pre_auth_regs : Map Text ℕ
  pub approved_at : Map Text (Option ℕ)
  pub missing : Bool
  pub last_stat_warn : Option ℕ

pub data Event : Type 0 where
  -- The key and the token's tag, or the key and the code's hash.
  log_pending : Text → Text → Event
  log_missing : ℕ → Event
  log_unreadable : ℕ → Event
  log_reload_failed : Event
  log_restored : ℕ → Event
  log_reload : ℕ → Event

-- What os.Stat and readAuthorized find.
pub data Found {ℓ} (A : Type ℓ) : Type ℓ where
  absent : Found A
  failed : Found A
  present : A → Found A

-- The approval times of a list of keys: those known keep theirs, and the others get `fresh`.
unfoldable pub approve_all : Map Text (Option ℕ) → Option ℕ → Map Text Text → Map Text (Option ℕ)
approve_all old fresh [] = []
approve_all old fresh ((k, label) ∷ keys) =
    let rest = approve_all old fresh keys in
    insert k (elim (lookup k old) [ none ↦ fresh | some at ↦ at ]) rest

-- `load`: the file's keys and its modification time; false is an error.
unfoldable pub load : Bool → Found (Map Text Text × ℕ) → ℕ → Authorizer → Authorizer × Bool
load initial absent now a =
    (record a { keys = []; approved_at = []; mtime = none; missing = true }, true)
load initial failed now a = (a, false)
load initial (present (keys, mtime)) now a =
    let approved =
      if initial then approve_all [] none keys else approve_all a.approved_at (some now) keys in
    (record a { keys = keys; approved_at = approved; mtime = some mtime }, true)

unfoldable pub new_authorizer : Found (Map Text Text × ℕ) → ℕ → Option Authorizer
new_authorizer file now =
    let a : Authorizer = record {
      enroll = some (new 20 2 1_024 now);
      keys = [];
      mtime = none;
      logged = [];
      pend = [];
      recent_regs = [];
      pre_auth_regs = [];
      approved_at = [];
      missing = false;
      last_stat_warn = none;
    } in
    let (a', ok) = load true file now a in if ok then some a' else none

unfoldable pub note_missing : Authorizer → Authorizer × List Event
note_missing a = (
  record a { keys = []; mtime = none; missing = true },
  if a.missing then [] else log_missing (length a.keys) ∷ [],
)

unfoldable pub is_recent : ℕ → ℕ → Option ℕ → Bool
is_recent window now none = false
is_recent window now (some t) = ltb (now - t) window

unfoldable pub note_stat_error : Authorizer → ℕ → Authorizer × List Event
note_stat_error a now =
    if is_recent stat_error_window now a.last_stat_warn
    then (a, [])
    else (record a { last_stat_warn = some now }, log_unreadable (length a.keys) ∷ [])

abbrev pub same_time : Option ℕ → ℕ → Bool
same_time none t = false
same_time (some u) t = u == t

-- `pollOnce`: what os.Stat finds, and what a read then finds.
unfoldable pub poll_once :
    Found ℕ → Found (Map Text Text × ℕ) → ℕ → Authorizer → Authorizer × List Event
unfolding load
poll_once absent file now a = note_missing a
poll_once failed file now a = note_stat_error a now
poll_once (present mtime) file now a =
    let a' = record a { missing = false } in
    if same_time a.mtime mtime
    then (a', [])
    else (let (b, ok) = load false file now a' in
        if not ok then (b, log_reload_failed ∷ []) else (
          b,
          (if a.missing then log_restored (length b.keys) else log_reload (length b.keys)) ∷ [],
        ))

-- `ts` is in seconds; the comparison has one second of slack.
unfoldable pub fresh_since_approval : Authorizer → Text → ℤ → Bool
fresh_since_approval a pubkey ts_nanoseconds = elim (lookup pubkey a.approved_at) [
  | none ↦ true
  | some none ↦ true
  | some (some at) ↦ leb_ℤ (pos at) (ts_nanoseconds +ℤ pos second)
]

unfoldable pub allowed : Authorizer → Text → Bool
allowed a pubkey = is_some (lookup pubkey a.keys)

unfoldable pub allow_enroll : Authorizer → Text → ℕ → Authorizer × Bool
allow_enroll a src now = elim a.enroll [
  | none ↦ (a, true)
  | some l ↦ (let (l', granted) = allow l src now in (record a { enroll = some l' }, granted))
]

-- Entries of the window: a loop that deletes the others.
unfoldable pub within : ℕ → ℕ → Map Text ℕ → Map Text ℕ
within window now m = retain (λ t. ltb (now - t) window) m

unfoldable pub log_pending_key : Authorizer → Text → Text → ℕ → Authorizer × List Event
log_pending_key a pubkey tag now =
    if is_recent log_dedup_window now (lookup pubkey a.logged)
    then (a, [])
    else (let kept =
          if leb max_logged_keys (length a.logged)
          then within log_dedup_window now a.logged
          else a.logged in
        if leb max_logged_keys (length kept)
        then (record a { logged = kept }, [])
        else (record a { logged = insert pubkey now kept }, log_pending pubkey tag ∷ []))

unfoldable pub reg_key : Text → Text → Text
reg_key pubkey nonce = pubkey ++ 0 ∷ nonce

-- The loop for the oldest entry, with the oldest so far.
unfoldable pub oldest : Option (Text × ℕ) → Map Text ℕ → Option (Text × ℕ)
oldest best [] = best
oldest none ((k, t) ∷ m) = oldest (some (k, t)) m
oldest (some (k, t)) ((j, u) ∷ m) = oldest (if ltb u t then some (j, u) else some (k, t)) m

unfoldable pub evict_oldest : Map Text ℕ → Map Text ℕ
evict_oldest m = elim (oldest none m) [ none ↦ m | some (k, t) ↦ delete k m ]

-- A place for one more: expired entries go, and then the oldest.
unfoldable pub make_room : ℕ → ℕ → Map Text ℕ → Map Text ℕ
make_room cap now m =
    if leb cap (length m)
    then (let kept = within reg_replay_window now m in
        if leb cap (length kept) then evict_oldest kept else kept)
    else m

-- The pre-authorization cache is pruned with the other one.
unfoldable pub replayed : Authorizer → Text → Text → ℕ → Authorizer × Bool
replayed a pubkey nonce now =
    if same pubkey [] || same nonce []
    then (a, false)
    else (let k = reg_key pubkey nonce in
        if is_recent reg_replay_window now (lookup k a.recent_regs)
        then (a, true)
        else if is_recent reg_replay_window now (lookup k a.pre_auth_regs)
        then (a, true)
        else (
          record a {
            recent_regs = insert k now (make_room max_replay_regs now a.recent_regs);
            pre_auth_regs =
                if leb max_replay_regs (length a.recent_regs)
                then within reg_replay_window now a.pre_auth_regs
                else a.pre_auth_regs;
          },
          false,
        ))

unfoldable pub record_pre_auth : Authorizer → Text → Text → ℕ → Authorizer
record_pre_auth a pubkey nonce now =
    if same pubkey [] || same nonce []
    then a
    else (let k = reg_key pubkey nonce in
        if is_some (lookup k a.pre_auth_regs) then a else record a {
          pre_auth_regs = insert k now (make_room max_pre_auth_regs now a.pre_auth_regs);
        })

-- The code of another key is taken over only if that key is approved.
abbrev pub is_taken : Authorizer → Text → Option PendingEntry → Bool
is_taken a key none = false
is_taken a key (some e) = not (same e.key key) && not (allowed a e.key)

abbrev pub is_new : Text → Option PendingEntry → Bool
is_new key none = true
is_new key (some e) = not (same e.key key)

-- `code` is what OpenCode gives, and `hash` is shortHash of it.
unfoldable pub record_pending :
    Authorizer → Option Text → (Text → Text) → Text → ℕ → Authorizer × List Event
unfolding allowed
record_pending a none hash key now = (a, [])
record_pending a (some code) hash key now =
    if same code []
    then (a, [])
    else (let h = hash code in
        let existing = lookup h a.pend in
        let kept =
          if not (is_some existing) && leb max_pending (length a.pend)
          then retain (λ (e : PendingEntry). not (ltb pending_ttl (now - e.seen))) a.pend
          else a.pend in
        if is_taken a key existing
        then (a, [])
        else if not (is_some existing) && leb max_pending (length kept)
        then (record a { pend = kept }, [])
        else (
          record a { pend = insert h (record { key = key; seen = now }) kept },
          if is_new key existing then log_pending key h ∷ [] else [],
        ))
