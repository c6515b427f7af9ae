-- ===== src/Supervisor/Index.antt =====
-- The interface indices of internal/role/supervisor.go: the lowest free one, and no index twice.
use buddynet.Support.{
  ℕ, zero, suc, ◌+◌, ◌≤◌, ◌<◌, ◌≡◌, ◌≢◌, refl, sym, ap, subst, ◌∙◌, inl, inr, true, false, ◌==◌,
  none, some, List, [], ◌∷◌, Text, text_key, text_dec, Map, lookup, length, arith, Bool-cases,
  Option-cases, leb, is_some, lookup-insert, lookup-delete, IsDistinct, insert-IsDistinct,
  delete-IsDistinct, if◌then◌else◌, ℕ_discrete,
}
use buddynet.Supervisor.{
  PeerSpec, Handle, Supervisor, values, contains, first_free, alloc_if, start, exited,
}

-- How many indices are not below a number.
above : ℕ → List ℕ → ℕ
above i [] = 0
above i (j ∷ js) = (if leb i j then 1 else 0) + above i js

above-le : (i : ℕ) (js : List ℕ) → above i js ≤ length js
unfolding above
above-le i [] = omega arith
above-le i (j ∷ js) = ground (arith, above-le i js)

above-suc-le : (i : ℕ) (js : List ℕ) → above (suc i) js ≤ above i js
unfolding above
above-suc-le i [] = omega arith
above-suc-le i (j ∷ js) = ground (arith, above-suc-le i js)

above-suc : (i : ℕ) (js : List ℕ) → contains i js ≡ true → above (suc i) js < above i js
unfolding above contains
above-suc i [] h = absurd (ground arith)
above-suc i (j ∷ js) h = elim (Bool-cases (i == j)) [
  | inl e ↦ ground (arith, above-suc-le i js)
  | inr e ↦ ground (arith, above-suc i js)
]

-- With more fuel than indices that are not below its start, the loop finds the lowest free index.
record IsLowest (used : List ℕ) (from i : ℕ) : Type 0 where
  free : contains i used ≡ false
  low : i ≤ from + above from used
  start : from ≤ i
  others : (j : ℕ) → from ≤ j → j < i → contains j used ≡ true

first_free-IsLowest :
    (fuel : ℕ) (used : List ℕ) (i : ℕ)
    → above i used < fuel
    → IsLowest used i (first_free fuel used i)
unfolding first_free
first_free-IsLowest zero used i h = absurd (omega (arith, h))
first_free-IsLowest (suc fuel) used i h = elim (Bool-cases (contains i used)) [
  | inr e ↦
      rw (e, first_free)
        (record {
          free = e;
          low = omega arith;
          start = omega arith;
          others = λ j a b. absurd (omega (arith, a, b));
        })
  | inl e ↦
      let r = first_free-IsLowest fuel used (suc i) (omega (arith, above-suc i used e)) in
      rw (e, first_free)
        (record {
          free = r.free;
          low = omega (arith, r.low, above-suc i used e);
          start = omega (arith, r.start);
          others = λ j a b. elim (ℕ_discrete i j) [
            | yes p ↦ subst (λ n. contains n used ≡ true) p e
            | no p ↦ r.others j (omega (arith, a, p)) b
          ];
        })
]

lookup-contains :
    (a : Text) (i : ℕ) (m : Map Text ℕ) → lookup a m ≡ some i → contains i (values m) ≡ true
unfolding lookup values contains
lookup-contains a i [] h = absurd (ground arith)
lookup-contains a i ((b, j) ∷ m) h = elim (text_dec b a) [
  | yes p ↦ ground (arith, h)
  | no p ↦ ground (arith, lookup-contains a i m)
]

length-values : (m : Map Text ℕ) → length (values m) ≡ length m
unfolding values
length-values [] = refl
length-values ((b, j) ∷ m) = omega (arith, length-values m)

-- No two keys have one index.
abbrev pub IsInjective : Map Text ℕ → Type 0
IsInjective m = (a b : Text) (i : ℕ) → lookup a m ≡ some i → lookup b m ≡ some i → a ≡ b

-- What the allocation of an index gives: an index the key keeps, at most the number of the
-- others, and not another key's.
pub record IsAllocated (key : Text) (m : Map Text ℕ) (i : ℕ) (m' : Map Text ℕ) : Type 0 where
  pub owned : lookup key m' ≡ some i
  pub others : (a : Text) → a ≢ key → lookup a m' ≡ lookup a m
  pub known : (j : ℕ) → lookup key m ≡ some j → i ≡ j
  pub fresh : lookup key m ≡ none → contains i (values m) ≡ false
  pub low : lookup key m ≡ none → i ≤ length m
  pub lowest : lookup key m ≡ none → (j : ℕ) → j < i → contains j (values m) ≡ true

-- `allocIf` gives a key the index that it has, or else the lowest that no key has, which is at most
-- the number of indices in use; it leaves the other keys theirs.
pub alloc_if-IsAllocated :
    (key : Text) (m : Map Text ℕ) → IsAllocated key m (alloc_if key m).0 (alloc_if key m).1
unfolding alloc_if
alloc_if-IsAllocated key m = elim (Option-cases (lookup key m)) [
  | inr (i, e) ↦
      rw (e, alloc_if)
        (record {
          owned = e;
          others = λ a d. refl;
          known = λ j h. ground (arith, e, h);
          fresh = λ h. absurd (ground (arith, e, h));
          low = λ h. absurd (ground (arith, e, h));
          lowest = λ h. absurd (ground (arith, e, h));
        })
  | inl e ↦
      let used = values m in
      let enough : above 0 used < suc (length m) =
        omega (arith, above-le 0 used, length-values m) in
      let r = first_free-IsLowest (suc (length m)) used 0 enough in
      let i = first_free (suc (length m)) used 0 in
      rw (e, alloc_if)
        (record {
          owned = ground (arith, lookup-insert key key i m);
          others = λ a d. ground (arith, lookup-insert key a i m, d);
          known = λ j h. absurd (ground (arith, e, h));
          fresh = λ h. r.free;
          low = λ h. omega (arith, r.low, enough);
          lowest = λ h j b. r.others j (omega arith) b;
        })
]

alloc_if-IsDistinct : (key : Text) (m : Map Text ℕ) → IsDistinct m → IsDistinct (alloc_if key m).1
unfolding alloc_if
alloc_if-IsDistinct key m d = elim (Option-cases (lookup key m)) [
  | inr (i, e) ↦ rw (e, alloc_if) d
  | inl e ↦ rw (e, alloc_if) (insert-IsDistinct key _ m d)
]

module _ (key : Text) (m : Map Text ℕ) (i : ℕ) (m' : Map Text ℕ) (inj : IsInjective m)
    (r : IsAllocated key m i m') where
  no-clash : (b : Text) (j : ℕ) → b ≢ key → lookup key m' ≡ some j → lookup b m' ≡ some j → ⊥
  no-clash b j d f g =
      let at_b : lookup b m ≡ some j = sym (r.others b d) ∙ g in
      let same_index : i ≡ j = ground (arith, r.owned, f) in
      elim (Option-cases (lookup key m)) [
        | inr (n, e) ↦
            let known : i ≡ n = r.known n e in
            d (inj b key j at_b (e ∙ ap some (sym known ∙ same_index)))
        | inl e ↦
            let free : contains j (values m) ≡ false =
              subst (λ n. contains n (values m) ≡ false) same_index (r.fresh e) in
            absurd (ground (arith, free, lookup-contains b j m at_b))
      ]

  IsAllocated-IsInjective : IsInjective m'
  IsAllocated-IsInjective a b j f g = elim (text_dec a key) [
    | yes p ↦ elim (text_dec b key) [
      | yes q ↦ p ∙ sym q
      | no q ↦ absurd (no-clash b j q (subst (λ c. lookup c m' ≡ some j) p f) g)
    ]
    | no p ↦ elim (text_dec b key) [
      | yes q ↦ absurd (no-clash a j p (subst (λ c. lookup c m' ≡ some j) q g) f)
      | no q ↦ inj a b j (sym (r.others a p) ∙ f) (sym (r.others b q) ∙ g)
    ]
  ]

-- The state of the supervisor: a key runs once and has an index, no two keys have one index, no
-- worker is younger than the last, and a worker's cell has the scope it is known by.
pub record IsSound (v : Supervisor) : Type 0 where
  pub once : IsDistinct v.running
  pub apart : IsDistinct v.if_index_of
  pub injective : IsInjective v.if_index_of
  pub indexed :
      (k : Text) (h : Handle)
      → lookup k v.running ≡ some h
      → is_some (lookup k v.if_index_of) ≡ true
  pub followed : (k : Text) (h : Handle) → lookup k v.running ≡ some h → h.cell ≡ h.spec.expose
  pub young : (k : Text) (h : Handle) → lookup k v.running ≡ some h → h.gen ≤ v.gen

pub start-IsSound : (s : PeerSpec) (v : Supervisor) → IsSound v → IsSound (start s v).0
unfolding start
start-IsSound s v w = elim (Bool-cases (is_some (lookup s.key v.running))) [
  | inl e ↦ rw (e, start) w
  | inr e ↦
      let r = alloc_if-IsAllocated s.key v.if_index_of in
      let m' = (alloc_if s.key v.if_index_of).1 in
      let h : Handle = record { gen = v.gen + 1; spec = s; cell = s.expose } in
      rw (e, start)
        (record {
          once = insert-IsDistinct s.key h v.running w.once;
          apart = alloc_if-IsDistinct s.key v.if_index_of w.apart;
          injective = IsAllocated-IsInjective s.key v.if_index_of _ m' w.injective r;
          indexed = λ k g f. elim (text_dec k s.key) [
            | yes p ↦ ground (arith, r.owned, p)
            | no p ↦
                ground (arith, r.others k p, lookup-insert s.key k h v.running, w.indexed k g, f)
          ];
          followed = λ k g f. elim (text_dec k s.key) [
            | yes p ↦ ground (arith, lookup-insert s.key k h v.running, f)
            | no p ↦ ground (arith, lookup-insert s.key k h v.running, w.followed k g, f)
          ];
          young = λ k g f. elim (text_dec k s.key) [
            | yes p ↦ ground (arith, lookup-insert s.key k h v.running, f)
            | no p ↦ ground (arith, lookup-insert s.key k h v.running, w.young k g, f)
          ];
        })
]

pub exited-IsSound : (key : Text) (g : ℕ) (v : Supervisor) → IsSound v → IsSound (exited key g v).0
unfolding exited
exited-IsSound key g v w = elim (Option-cases (lookup key v.running)) [
  | inl e ↦ rw (e, exited) w
  | inr (h, e) ↦ elim (Bool-cases (h.gen == g)) [
    | inr f ↦ rw (e, f, exited) w
    | inl f ↦
        rw (e, f, exited)
          (record {
            once = delete-IsDistinct key v.running w.once;
            apart = delete-IsDistinct key v.if_index_of w.apart;
            injective = λ a b i p q. ground (
              arith,
              lookup-delete key a v.if_index_of,
              lookup-delete key b v.if_index_of,
              w.injective a b i,
              p,
              q,
            );
            indexed = λ k h' p. ground (
              arith,
              lookup-delete key k v.if_index_of,
              lookup-delete key k v.running,
              w.indexed k h',
              p,
            );
            followed = λ k h' p. ground (arith, lookup-delete key k v.running, w.followed k h', p);
            young = λ k h' p. ground (arith, lookup-delete key k v.running, w.young k h', p);
          })
  ]
]
