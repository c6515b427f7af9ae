-- ===== src/Scope.antt =====
-- internal/nft/scope.go: the ports that a buddy may reach, and `sameScope` and `effectiveScopeOf` of
-- internal/role. The functions of the package strconv are parameters; strings.TrimSpace, ToLower and
-- EqualFold are those of ASCII.
pub mod Tests
use buddynet.Support.{
  ℕ, ◌+◌, ◌==◌, Bool, true, false, not, ◌&&◌, ◌||◌, Option, none, some, List, [], ◌∷◌, ◌++◌, Text,
  ltb, leb, if◌then◌else◌,
}
use buddynet.Support.Lines.{is_space}
use buddynet.Ticket.{same}
use buddynet.Peer.{precedes}

-- Proto and Port.
pub record Port : Type 0 where
  pub proto : Text
  pub port : ℕ

pub record Scope : Type 0 where
  pub all : Bool
  pub ports : List Port

-- The texts "tcp", "udp", "all" and "NONE".
abbrev pub tcp : Text
tcp = 116 ∷ 99 ∷ 112 ∷ []

abbrev pub udp : Text
udp = 117 ∷ 100 ∷ 112 ∷ []

abbrev pub all_text : Text
all_text = 97 ∷ 108 ∷ 108 ∷ []

abbrev pub none_text : Text
none_text = 78 ∷ 79 ∷ 78 ∷ 69 ∷ []

abbrev pub comma : ℕ
comma = 44

abbrev pub slash : ℕ
slash = 47

unfoldable pub lower : Text → Text
lower [] = []
lower (c ∷ s) = (if leb 65 c && leb c 90 then c + 32 else c) ∷ lower s

unfoldable pub trim_left : Text → Text
trim_left [] = []
trim_left (c ∷ s) = let rest = trim_left s in if is_space c then rest else c ∷ s

-- The white space at the end: a space goes if nothing stays after it.
unfoldable pub trim_right : Text → Text
trim_right [] = []
trim_right (c ∷ s) = let rest = trim_right s in if is_space c && same rest [] then [] else c ∷ rest

unfoldable pub trim : Text → Text
trim s = trim_right (trim_left s)

-- The part before a byte and the part after it.
unfoldable pub cut : ℕ → Text → Option (Text × Text)
cut sep [] = none
cut sep (c ∷ s) =
    let rest = cut sep s in
    if c == sep
    then some ([], s)
    else elim rest [ none ↦ none | some (before, after) ↦ some (c ∷ before, after) ]

-- strings.Split with a separator of one byte.
unfoldable pub split : ℕ → Text → List Text
split sep [] = [] ∷ []
split sep (c ∷ s) =
    let rest = split sep s in
    if c == sep then [] ∷ rest else elim rest [ [] ↦ (c ∷ []) ∷ [] | w ∷ ws ↦ (c ∷ w) ∷ ws ]

-- strings.Join with a comma.
unfoldable pub join_parts : List Text → Text
join_parts [] = []
join_parts (w ∷ []) = w
join_parts (w ∷ v ∷ ws) = w ++ comma ∷ join_parts (v ∷ ws)

abbrev pub same_port : Port → Port → Bool
same_port p q = same p.proto q.proto && p.port == q.port

unfoldable pub has_port : Port → List Port → Bool
has_port p [] = false
has_port p (q ∷ ports) = same_port q p || has_port p ports

unfoldable pub add : Port → List Port → List Port
add p ports = if has_port p ports then ports else ports ++ p ∷ []

-- The order of `normalize`.
unfoldable pub is_less : Port → Port → Bool
is_less p q = if not (same p.proto q.proto) then precedes p.proto q.proto else ltb p.port q.port

unfoldable pub insert_port : Port → List Port → List Port
insert_port p [] = p ∷ []
insert_port p (q ∷ ports) =
    let rest = insert_port p ports in if is_less q p then q ∷ rest else p ∷ q ∷ ports

-- sort.Slice: the ports are distinct, so the sorted list is the only one.
unfoldable pub normalize : List Port → List Port
normalize [] = []
normalize (p ∷ ports) = insert_port p (normalize ports)

-- Without a slash the protocol is tcp.
unfoldable pub proto_and_port : Text → Text × Text
unfolding trim lower cut
proto_and_port text = elim (cut slash text) [
  | none ↦ (tcp, text)
  | some (before, after) ↦ (lower (trim before), trim after)
]

module _ (itoa : ℕ → Text) (parse_uint16 : Text → Option ℕ) where
  unfoldable pub parse_port : Text → Option Port
  unfolding trim proto_and_port
  parse_port part =
      let text = trim part in
      let (proto, port) = proto_and_port text in
      if not (same proto tcp) && not (same proto udp) then none else elim (parse_uint16 port) [
        | none ↦ none
        | some n ↦ if n == 0 then none else some (record { proto = proto; port = n })
      ]

  -- The loop over the parts.
  unfoldable pub parse_ports : List Text → List Port → Option (List Port)
  parse_ports [] ports = some ports
  parse_ports (part ∷ parts) ports = elim (parse_port part) [
    | none ↦ none
    | some p ↦ parse_ports parts (add p ports)
  ]

  unfoldable pub parse_scope : Text → Option Scope
  unfolding trim lower split normalize
  parse_scope spec =
      let text = trim spec in
      if same text []
      then none
      else if same (lower text) all_text
      then some (record { all = true; ports = [] })
      else elim (parse_ports (split comma text) []) [
        | none ↦ none
        | some ports ↦ some (record { all = false; ports = normalize ports })
      ]

  abbrev pub port_text : Port → Text
  port_text p = p.proto ++ slash ∷ itoa p.port

  unfoldable pub port_texts : List Port → List Text
  port_texts [] = []
  port_texts (p ∷ ports) = port_text p ∷ port_texts ports

  unfoldable pub scope_string : Scope → Text
  unfolding port_texts join_parts
  scope_string s =
      if s.all
      then all_text
      else elim s.ports [ [] ↦ none_text | p ∷ ports ↦ join_parts (port_texts (p ∷ ports)) ]

  -- Two missing scopes are the same.
  unfoldable pub same_scope : Option Scope → Option Scope → Bool
  unfolding scope_string
  same_scope none none = true
  same_scope none (some t) = false
  same_scope (some s) none = false
  same_scope (some s) (some t) = same (scope_string s) (scope_string t)

-- The buddy's own scope, or else that of the flag, or else nothing.
unfoldable pub effective_scope_of : Option Scope → Option Scope → Scope
effective_scope_of flag (some own) = own
effective_scope_of (some s) none = s
effective_scope_of none none = record { all = false; ports = [] }
