-- ===== src/Scope/Tests.antt =====
-- internal/nft/scope.go at concrete specifications.
use buddynet.Support.{
  ℕ, ◌+◌, ◌-◌, ◌≡◌, refl, true, none, some, Option, [], ◌∷◌, Text, codes, text_dec, ℕ_discrete,
  if◌then◌else◌,
}
use buddynet.Support.{leb, ◌&&◌}
use buddynet.Peer.{precedes}
use buddynet.Scope.{
  lower, trim_left, trim_right, trim, cut, split, join_parts, has_port, add, is_less, insert_port,
  normalize, proto_and_port, parse_port, parse_ports, parse_scope, port_texts, scope_string,
  same_scope, effective_scope_of,
}

unfoldable pub scope_program : Unit {0}
unfolding lower trim_left trim_right trim cut split join_parts has_port add is_less insert_port
    normalize proto_and_port parse_port parse_ports parse_scope port_texts scope_string same_scope
    effective_scope_of precedes text_dec ℕ_discrete
scope_program = tt

-- Decimal digits, for short numbers.
abbrev pub digits : ℕ → Text
digits n = (48 + n) ∷ []

abbrev pub parse_digit : Text → Option ℕ
parse_digit [] = none
parse_digit (c ∷ s) = if leb 48 c && leb c 57 then some (c - 48) else none

-- Two spellings of one exposure are the same scope.
respelled :
    same_scope digits parse_digit
      (parse_scope digits parse_digit (codes " UDP/5, 3,tcp/3"))
      (parse_scope digits parse_digit (codes "tcp/3,udp/5"))
    ≡ true
unfolding scope_program
respelled = refl

-- Port 0 is refused.
no_port_zero : parse_scope digits parse_digit (codes "tcp/0") ≡ none
unfolding scope_program
no_port_zero = refl
