-- ===== src/Firewall/Tests.antt =====
-- The rules of internal/nft/nft_linux.go at concrete scopes and packets.
use buddynet.Support.{
  ℕ, ◌+◌, ◌*◌, ◌/◌, ◌%◌, ◌≡◌, refl, true, false, some, List, [], ◌∷◌, ◌++◌, Text, codes, Map,
  lookup, insert, delete, text_dec, ℕ_discrete, arith,
}
use buddynet.Scope.{Scope, tcp}
use buddynet.Supervisor.Manifest.{has_text}
use buddynet.Firewall.{
  Host, nl_attr, nl_attr_be32, nl_attr_str_z, nl_nested, expr, data_value, expr_cmp, pad_name,
  exprs_iifname, exprs_l4_proto, exprs_dport, exprs_ct_state_est_rel, expr_verdict,
}
use buddynet.Firewall.Rules.{port_rules, rule_exprs, forward_exprs}
use buddynet.Firewall.Batch.{
  nft_message, batch_delim, table_attr, new_chain, new_rule, append_rules, interface_rules,
  inner_messages, numbered, build_batch,
}
use buddynet.Firewall.State.{
  State, acknowledged, refused, unanswered, without_last, cut_name, apply, remove,
}
use buddynet.Firewall.Kept.{
  IsRendered, here, next, applies, removes, Reach-IsRendered, remove_again,
}
use buddynet.Firewall.Attributes.{IsHost, read_attr, read_attr-nl_attr}

firewall_program : Unit {0}
unfolding nl_attr nl_attr_be32 nl_attr_str_z nl_nested expr data_value expr_cmp pad_name
    exprs_iifname exprs_l4_proto exprs_dport exprs_ct_state_est_rel expr_verdict port_rules
    rule_exprs forward_exprs nft_message batch_delim table_attr new_chain new_rule append_rules
    interface_rules inner_messages numbered build_batch without_last cut_name apply remove has_text
    lookup insert delete text_dec ℕ_discrete
firewall_program = tt

-- A little-endian host.
abbrev little : Host
little = record {
  put16 = λ n. n % 256 ∷ n / 256 ∷ [];
  put32 = λ n. n % 256 ∷ n / 256 % 256 ∷ n / 65_536 % 256 ∷ n / 16_777_216 ∷ [];
}

abbrev get16 : Text → ℕ
get16 (lo ∷ hi ∷ s) = lo + 256 * hi
get16 s = 0

little-IsHost : IsHost little get16
little-IsHost = record { two_bytes = λ n. refl; reads = λ n small. omega arith }

read_attr-nl_attr_example :
    read_attr get16 (nl_attr little 1 (codes "table") ++ codes "next")
    ≡ some (1, codes "table", codes "next")
read_attr-nl_attr_example =
    read_attr-nl_attr little get16 little-IsHost 1 (codes "table") (codes "next") (omega arith)
      (omega arith)

abbrev web : Scope
web = record { all = false; ports = record { proto = tcp; port = 443 } ∷ [] }

abbrev open_host : Scope
open_host = record { all = true; ports = [] }

abbrev scopes : Map Text Scope
scopes = (codes "bnet0", web) ∷ (codes "bnet1", open_host) ∷ []

abbrev order : List Text
order = codes "bnet0" ∷ codes "bnet1" ∷ []

abbrev cleared : State
cleared = record { scopes = []; order = []; kernel = build_batch little [] [] }

cleared-IsRendered : IsRendered little cleared true
unfolding lookup has_text
cleared-IsRendered = record { rendered = λ h. refl; named = λ n. refl; once = tt }

abbrev scoped_once : State
scoped_once = (apply little cleared (codes "bnet0") web acknowledged).0

abbrev refused_once : State
refused_once = (apply little scoped_once (codes "bnet1") open_host refused).0

-- A scope is taken, a second one is refused, and the answer to the removal of the first is late.
Reach-IsRendered_example :
    IsRendered little (remove little refused_once (codes "bnet0") unanswered).0 true
unfolding firewall_program
Reach-IsRendered_example = Reach-IsRendered little cleared-IsRendered (
    next
      (next (next here (applies cleared true (codes "bnet0") web acknowledged))
        (applies scoped_once true (codes "bnet1") open_host refused))
      (removes refused_once true (codes "bnet0") unanswered))

remove_again_example :
    let first = remove little scoped_once (codes "bnet0") refused in
    (first.1 ≡ false)
    × (first.0.kernel ≡ scoped_once.kernel)
    × (remove little first.0 (codes "bnet0") acknowledged ≡ (first.0, true))
unfolding firewall_program
remove_again_example = remove_again little scoped_once (codes "bnet0") web acknowledged refl
