-- ===== src/Supervisor.antt =====
-- internal/role/supervisor.go: the workers of the buddies, one for each key, with the index of its
-- interface. The goroutine of `supervise` holds the state, and what it does elsewhere is a list of
-- events: workers that are started and cancelled, and scopes that are programmed. A key stands for
-- its pin.
pub mod Index
pub mod Reload
pub mod Steps
pub mod Shutdown
pub mod Worker
pub mod Manifest
mod Tests
use buddynet.Support.{
  ℕ, zero, suc, ◌+◌, ◌==◌, Bool, true, false, not, ◌&&◌, ◌||◌, Option, none, some, List, [], ◌∷◌,
  ◌++◌, Text, text_key, Map, lookup, insert, delete, length, leb, if◌then◌else◌, is_some,
}
use buddynet.Scope.{Scope, same_scope, effective_scope_of}
use buddynet.Ticket.{same}

abbrev pub max_buddies : ℕ
max_buddies = 48

pub record PeerSpec : Type 0 where
  pub key : Text
  pub token : Text
  pub name : Text
  pub expose : Option Scope

-- The scope of the worker's cell is `cell`.
pub record Handle : Type 0 where
  pub gen : ℕ
  pub spec : PeerSpec
  pub cell : Option Scope

pub record Supervisor : Type 0 where
  pub running : Map Text Handle
  pub gen : ℕ
  pub if_index_of : Map Text ℕ

pub data Event : Type 0 where
  -- The key, the generation and the interface index of a worker.
  started : Text → ℕ → ℕ → Event
  cancelled : Text → ℕ → Event
  -- The interface index and the scope in force.
  reprogrammed : ℕ → Scope → Event

-- The indices in use.
unfoldable pub values : Map Text ℕ → List ℕ
values [] = []
values ((key, i) ∷ m) = i ∷ values m

unfoldable pub contains : ℕ → List ℕ → Bool
contains i [] = false
contains i (j ∷ js) = i == j || contains i js

-- The loop for the lowest index that is free, on fuel.
unfoldable pub first_free : ℕ → List ℕ → ℕ → ℕ
first_free zero used i = i
first_free (suc fuel) used i = elim (contains i used) [
  | true ↦ first_free fuel used (suc i)
  | false ↦ i
]

unfoldable pub alloc_if : Text → Map Text ℕ → ℕ × Map Text ℕ
unfolding values first_free
alloc_if key m = elim (lookup key m) [
  | some i ↦ (i, m)
  | none ↦ let i = first_free (suc (length m)) (values m) 0 in (i, insert key i m)
]

unfoldable pub start : PeerSpec → Supervisor → Supervisor × List Event
unfolding alloc_if
start s v =
    if is_some (lookup s.key v.running)
    then (v, [])
    else (let g = v.gen + 1 in
        let (i, indices) = alloc_if s.key v.if_index_of in
        (
          record {
            running = insert s.key (record { gen = g; spec = s; cell = s.expose }) v.running;
            gen = g;
            if_index_of = indices;
          },
          started s.key g i ∷ [],
        ))

-- A worker's exit.
unfoldable pub exited : Text → ℕ → Supervisor → Supervisor × List Event
exited key g v = elim (lookup key v.running) [
  | none ↦ (v, [])
  | some h ↦
      if h.gen == g
      then (
        record v { running = delete key v.running; if_index_of = delete key v.if_index_of },
        cancelled key g ∷ [],
      )
      else (v, [])
]

-- Whether one of the specs has a key.
unfoldable pub names : Text → List PeerSpec → Bool
names k [] = false
names k (s ∷ specs) = same s.key k || names k specs

-- `want`: the last spec of a key.
unfoldable pub wanted : List PeerSpec → Map Text PeerSpec → Map Text PeerSpec
wanted [] want = want
wanted (s ∷ specs) want = wanted specs (insert s.key s want)

-- The loop over the running workers that stops those no longer wanted.
unfoldable pub stop : Map Text PeerSpec → Map Text Handle → Map Text Handle × List Event
stop want [] = ([], [])
stop want ((key, h) ∷ m) =
    let (kept, events) = stop want m in
    if is_some (lookup key want)
    then ((key, h) ∷ kept, events)
    else (kept, cancelled key h.gen ∷ events)

module _ (itoa : ℕ → Text) (parse_uint16 : Text → Option ℕ) (flag : Option Scope) where
  -- A worker that runs: its scope follows the manifest.
  unfoldable pub rescope : Text → PeerSpec → Handle → Supervisor → Supervisor × List Event
  rescope key s h v =
      if not (same_scope itoa parse_uint16 h.spec.expose s.expose)
      then (
        record v {
          running =
              insert key
                (record h { cell = s.expose; spec = record (h.spec) { expose = s.expose } })
                v.running;
        },
        reprogrammed (elim (lookup key v.if_index_of) [ none ↦ 0 | some i ↦ i ])
              (effective_scope_of flag s.expose)
            ∷ [],
      )
      else (v, [])

  unfoldable pub reconcile : Text → PeerSpec → Supervisor → Supervisor × List Event
  unfolding start rescope
  reconcile key s v = elim (lookup key v.running) [ none ↦ start s v | some h ↦ rescope key s h v ]

  -- The loop over the wanted specs.
  unfoldable pub reconcile_all : Map Text PeerSpec → Supervisor → Supervisor × List Event
  reconcile_all [] v = (v, [])
  reconcile_all ((key, s) ∷ want) v =
      let (v₁, events₁) = reconcile key s v in
      let (v₂, events₂) = reconcile_all want v₁ in (v₂, events₁ ++ events₂)

  -- A reload of the specs that `assemblePeers` found, or `none` if it failed. `order` is the order in
  -- which a loop meets the entries of a map.
  unfoldable pub reload :
      (Map Text PeerSpec → Map Text PeerSpec)
      → Option (List PeerSpec)
      → Supervisor
      → Supervisor × List Event
  unfolding wanted
  reload order none v = (v, [])
  reload order (some desired) v =
      let want = wanted desired [] in
      let (kept, stopped) = stop want v.running in
      let (v', events) = reconcile_all (order want) (record v { running = kept }) in
      (v', stopped ++ events)

-- `supervise` before its loop.
unfoldable pub start_all : List PeerSpec → Supervisor → Supervisor × List Event
start_all [] v = (v, [])
start_all (s ∷ specs) v =
    let (v₁, events₁) = start s v in
    let (v₂, events₂) = start_all specs v₁ in (v₂, events₁ ++ events₂)

unfoldable pub supervise : List PeerSpec → Option (Supervisor × List Event)
unfolding start_all
supervise specs =
    if not (leb (length specs) max_buddies)
    then none
    else some (start_all specs (record { running = []; gen = 0; if_index_of = [] }))
