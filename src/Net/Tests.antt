-- ===== src/Net/Tests.antt =====
-- The keys of internal/netkey/netkey.go at concrete addresses.
use buddynet.Support.{[], ◌∷◌, ◌++◌, Text, codes, take, text_dec, holds}
use buddynet.Net.{Texts}

-- Renderings that tell the forms apart.
abbrev pub texts : Texts
texts = record {
  addr_string = λ a. a.port ∷ a.ip;
  ip_string = λ ip. codes "?" ++ ip;
  netip_string = λ ip. codes "ip:" ++ ip;
  prefix_string = λ net bits. bits ∷ net;
  contains = λ p ip. holds (text_dec p.base (take p.bits ip));
}

abbrev pub v4 : Text
v4 = 192 ∷ 0 ∷ 2 ∷ 7 ∷ []

abbrev network : Text
network = 32 ∷ 1 ∷ 13 ∷ 184 ∷ 0 ∷ 0 ∷ 0 ∷ 1 ∷ []

abbrev one : Text
one = 0 ∷ 0 ∷ 0 ∷ 0 ∷ 0 ∷ 0 ∷ 0 ∷ 1 ∷ []

abbrev two : Text
two = 0 ∷ 0 ∷ 0 ∷ 0 ∷ 0 ∷ 0 ∷ 0 ∷ 2 ∷ []
