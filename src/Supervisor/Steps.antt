-- ===== src/Supervisor/Steps.antt =====
-- The loop of `supervise` in internal/role/supervisor.go: the steps, and what holds after any run.
use buddynet.Support.{
  ℕ, ◌≡◌, refl, sym, subst, subst₂, ◌∙◌, inl, inr, Bool, true, false, ◌||◌, ◌==◌, Option, none,
  some, List, [], ◌∷◌, Text, text_key, text_dec, Map, lookup, arith, Bool-cases, Option-cases,
  is_some, lookup-delete, IsDistinct, if◌then◌else◌, All,
}
use buddynet.Scope.{Scope, same_scope}
use buddynet.Supervisor.{
  PeerSpec, Handle, Supervisor, Event, start, exited, wanted, stop, reconcile, reconcile_all,
  reload, start_all, supervise, names,
}
use buddynet.Supervisor.Index.{IsSound, start-IsSound, exited-IsSound}
use buddynet.Supervisor.Reload.{
  lookup-stop, stop-IsSound, names-wanted, IsKeyed, wanted-IsKeyed_empty, IsOrder, entries-IsKeyed,
  IsFollowing, reconcile-IsReconciled,
}

abbrev empty : Supervisor
empty = record { running = []; gen = 0; if_index_of = [] }

empty-IsSound : IsSound empty
unfolding lookup
empty-IsSound = record {
  once = tt;
  apart = tt;
  injective = λ a b i f g. absurd (ground (arith, f));
  indexed = λ k h f. absurd (ground (arith, f));
  followed = λ k h f. absurd (ground (arith, f));
  young = λ k h f. absurd (ground (arith, f));
}

unfoldable pub exits : List (Text × ℕ) → Supervisor → Supervisor
exits [] v = v
exits ((key, g) ∷ es) v = exits es (exited key g v).0

-- What an exit leaves of a key that does not run.
exited-idle :
    (k key : Text) (g : ℕ) (v : Supervisor)
    → lookup k v.running ≡ none
    → (lookup k (exited key g v).0.running ≡ none)
      × (lookup k (exited key g v).0.if_index_of ≡ lookup k v.if_index_of)
unfolding exited
exited-idle k key g v idle = elim (Option-cases (lookup key v.running)) [
  | inl e ↦ rw (e, exited) (idle, refl)
  | inr (h, e) ↦ elim (Bool-cases (h.gen == g)) [
    | inr f ↦ rw (e, f, exited) (idle, refl)
    | inl f ↦ elim (text_dec key k) [
      | yes p ↦ absurd (ground (arith, p, e, idle))
      | no p ↦
          rw (e, f, exited)
            (
              ground (arith, p, idle, lookup-delete key k v.running),
              ground (arith, p, lookup-delete key k v.if_index_of),
            )
    ]
  ]
]

exits-idle :
    (es : List (Text × ℕ)) (k : Text) (v : Supervisor)
    → lookup k v.running ≡ none
    → lookup k (exits es v).if_index_of ≡ lookup k v.if_index_of
unfolding exits
exits-idle [] k v idle = refl
exits-idle ((key, g) ∷ es) k v idle =
    let (still, same_index) = exited-idle k key g v idle in
    exits-idle es k (exited key g v).0 still ∙ same_index

start_all-IsSound :
    (specs : List PeerSpec) (v : Supervisor) → IsSound v → IsSound (start_all specs v).0
unfolding start_all
start_all-IsSound [] v w = w
start_all-IsSound (s ∷ specs) v w = start_all-IsSound specs (start s v).0 (start-IsSound s v w)

both :
    (a b : Option PeerSpec) (c m : Option Handle) (n : Bool)
    → a ≡ b
    → is_some b ≡ n
    → c ≡ (if is_some b then m else none)
    → (is_some a || is_some c) ≡ n
both a none c m n e f g = ground (arith, e, f, g)
both a (some s) c m n e f g = ground (arith, e, f, g)

module _ (itoa : ℕ → Text) (parse_uint16 : Text → Option ℕ) (flag : Option Scope) where
  all_of : Map Text PeerSpec → Supervisor → Supervisor
  all_of entries v = (reconcile_all itoa parse_uint16 flag entries v).0

  one_of : Text → PeerSpec → Supervisor → Supervisor
  one_of key s v = (reconcile itoa parse_uint16 flag key s v).0

  -- What the reconciliation of all the wanted entries establishes.
  record AreReconciled (entries : Map Text PeerSpec) (v v' : Supervisor) : Type 0 where
    sound : IsSound v'
    runs :
        (k : Text)
        → is_some (lookup k v'.running)
          ≡ (is_some (lookup k entries) || is_some (lookup k v.running))
    follows :
        (k : Text) (s : PeerSpec)
        → lookup k entries ≡ some s
        → IsFollowing itoa parse_uint16 flag s (lookup k v'.running)
    others : (k : Text) → lookup k entries ≡ none → lookup k v'.running ≡ lookup k v.running
    indices :
        (k : Text) → lookup k entries ≡ none → lookup k v'.if_index_of ≡ lookup k v.if_index_of

  all_of-AreReconciled :
      (entries : Map Text PeerSpec) (v : Supervisor)
      → IsSound v
      → IsDistinct entries
      → All (λ e. e.1.key ≡ e.0) entries
      → AreReconciled entries v (all_of entries v)
  unfolding reconcile_all all_of lookup
  all_of-AreReconciled [] v w d keyed = record {
    sound = w;
    runs = λ k. refl;
    follows = λ k s h. absurd (ground arith);
    others = λ k h. refl;
    indices = λ k h. refl;
  }
  all_of-AreReconciled ((key, s) ∷ entries) v w d keyed =
      let v₁ = (reconcile itoa parse_uint16 flag key s v).0 in
      let r = reconcile-IsReconciled itoa parse_uint16 flag key s v w keyed.0 in
      let rest = all_of-AreReconciled entries v₁ r.sound d.1 keyed.1 in
      record {
        sound = rest.sound;
        runs = λ k. elim (text_dec key k) [
          | yes p ↦ ground (arith, rest.runs k, r.runs, p)
          | no p ↦ ground (arith, rest.runs k, r.others k, p)
        ];
        follows = λ k t h. elim (text_dec key k) [
          | yes p ↦
              let same_spec : s ≡ t = ground (arith, h, p) in
              let at_key : IsFollowing itoa parse_uint16 flag s
                  (lookup key (all_of entries v₁).running) =
                subst (IsFollowing itoa parse_uint16 flag s) (sym (rest.others key d.0))
                  r.follows in
              subst₂
                (λ u j. IsFollowing itoa parse_uint16 flag u (lookup j (all_of entries v₁).running))
                same_spec p at_key
          | no p ↦ rest.follows k t (ground (arith, h, p))
        ];
        others = λ k h. elim (text_dec key k) [
          | yes p ↦ absurd (ground (arith, h, p))
          | no p ↦ rest.others k (ground (arith, h, p)) ∙ r.others k (λ q. p (sym q))
        ];
        indices = λ k h. elim (text_dec key k) [
          | yes p ↦ absurd (ground (arith, h, p))
          | no p ↦ rest.indices k (ground (arith, h, p)) ∙ r.indices k (λ q. p (sym q))
        ];
      }

  module _ (order : Map Text PeerSpec → Map Text PeerSpec) (desired : List PeerSpec)
      (orders : IsOrder (order (wanted desired [])) (wanted desired [])) where
    abbrev want : Map Text PeerSpec
    want = wanted desired []

    abbrev after : Supervisor → Supervisor
    after v = (reload itoa parse_uint16 flag order (some desired) v).0

    abbrev kept : Supervisor → Supervisor
    kept v = record v { running = (stop want v.running).0 }

    after-AreReconciled :
        (v : Supervisor) → IsSound v → AreReconciled (order want) (kept v) (after v)
    unfolding reload all_of
    after-AreReconciled v w =
        let keyed : IsKeyed (order want) =
          λ k s h. wanted-IsKeyed_empty desired k s (sym (orders.1 k) ∙ h) in
        all_of-AreReconciled (order want) (kept v) (stop-IsSound want v w) orders.0
          (entries-IsKeyed (order want) orders.0 keyed)

    -- After a reload whose specs could be assembled, the keys that run are those of the specs.
    pub reload-running :
        (v : Supervisor)
        → IsSound v
        → (k : Text)
        → is_some (lookup k (reload itoa parse_uint16 flag order (some desired) v).0.running)
          ≡ names k desired
    reload-running v w k =
        let r = after-AreReconciled v w in
        r.runs k
        ∙ both (lookup k (order want)) (lookup k want) (lookup k (kept v).running)
            (lookup k v.running) (names k desired) (orders.1 k) (names-wanted k desired)
            (lookup-stop want k v.running)

    -- After a reload whose specs could be assembled, every worker has in its cell the scope that the
    -- manifest gives its key, or one of the same text.
    reload-follows :
        (v : Supervisor)
        → IsSound v
        → (k : Text) (s : PeerSpec) (h : Handle) → lookup k (wanted desired []) ≡ some s
        → lookup k (reload itoa parse_uint16 flag order (some desired) v).0.running ≡ some h
        → same_scope itoa parse_uint16 h.cell s.expose ≡ true
    reload-follows v w k s h e f =
        let r = after-AreReconciled v w in
        subst (IsFollowing itoa parse_uint16 flag s) f (r.follows k s (orders.1 k ∙ e))

    -- A reload leaves a key that is not wanted its interface index.
    reload-index :
        (v : Supervisor)
        → IsSound v
        → (k : Text) → names k desired ≡ false
        → lookup k (after v).if_index_of ≡ lookup k v.if_index_of
    reload-index v w k h =
        let r = after-AreReconciled v w in
        r.indices k (orders.1 k ∙ absent k (names-wanted k desired ∙ h))
      where
        absent : (k : Text) → is_some (lookup k want) ≡ false → lookup k want ≡ none
        absent k e = ground (arith, e)

    -- The index of a key that a reload stops is not freed by any exits, the worker's own included.
    pub exits-reload :
        (v : Supervisor)
        → IsSound v
        → (k : Text) (i : ℕ) (es : List (Text × ℕ)) → names k desired ≡ false
        → lookup k v.if_index_of ≡ some i
        → lookup k (exits es (reload itoa parse_uint16 flag order (some desired) v).0).if_index_of
          ≡ some i
    exits-reload v w k i es gone h =
        exits-idle es k (after v) (idle (reload-running v w k ∙ gone)) ∙ reload-index v w k gone ∙ h
      where
        idle : is_some (lookup k (after v).running) ≡ false → lookup k (after v).running ≡ none
        idle e = ground (arith, e)

    reload-IsSound : (v : Supervisor) → IsSound v → IsSound (after v)
    reload-IsSound v w = (after-AreReconciled v w).sound

  -- A worker that returns, a reload that fails, and a reload of specs, in any order of the maps.
  pub data Step : Supervisor → Supervisor → Type 0 where
    exit : (v : Supervisor) (key : Text) (g : ℕ) → Step v (exited key g v).0
    reload_failed :
        (v : Supervisor) (order : Map Text PeerSpec → Map Text PeerSpec)
        → Step v (reload itoa parse_uint16 flag order none v).0
    reloaded :
        (v : Supervisor) (order : Map Text PeerSpec → Map Text PeerSpec) (desired : List PeerSpec)
        → IsOrder (order (wanted desired [])) (wanted desired [])
        → Step v (reload itoa parse_uint16 flag order (some desired) v).0

  pub data Reach (v : Supervisor) : Supervisor → Type 0 where
    here : Reach v v
    next : {u w : Supervisor} → Reach v u → Step u w → Reach v w

  Step-IsSound : {v u : Supervisor} → Step v u → IsSound v → IsSound u
  unfolding reload
  Step-IsSound (exit v key g) w = exited-IsSound key g v w
  Step-IsSound (reload_failed v order) w = w
  Step-IsSound (reloaded v order desired orders) w = reload-IsSound order desired orders v w

  Reach-IsSound : {v u : Supervisor} → Reach v u → IsSound v → IsSound u
  Reach-IsSound here w = w
  Reach-IsSound (next r st) w = Step-IsSound st (Reach-IsSound r w)

  -- Whatever the exits and reloads since the start, a key runs once and has an interface index, and
  -- no two keys have one index.
  pub supervise-IsSound :
      (specs : List PeerSpec) (v u : Supervisor) (events : List Event)
      → supervise specs ≡ some (v, events)
      → Reach v u
      → IsSound u
  unfolding supervise
  supervise-IsSound specs v u events h r =
      Reach-IsSound r (subst IsSound first (start_all-IsSound specs empty empty-IsSound))
    where
      first : (start_all specs empty).0 ≡ v
      first = ground (arith, h)
