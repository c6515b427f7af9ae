-- ===== src/Firewall/Rules.antt =====
-- `ruleExprs` and `forwardExprs` of internal/nft/nft_linux.go.
use buddynet.Support.{ℕ, List, [], ◌∷◌, ◌++◌, Text, if◌then◌else◌}
use buddynet.Ticket.{same}
use buddynet.Scope.{Port, Scope, udp}
use buddynet.Firewall.{
  Host, exprs_iifname, exprs_l4_proto, exprs_dport, exprs_ct_state_est_rel, expr_verdict,
}

abbrev pub nf_drop : ℕ
nf_drop = 0

abbrev pub nf_accept : ℕ
nf_accept = 1

abbrev pub ipproto_icmp : ℕ
ipproto_icmp = 1

abbrev pub ipproto_tcp : ℕ
ipproto_tcp = 6

abbrev pub ipproto_udp : ℕ
ipproto_udp = 17

abbrev pub ipproto_icmpv6 : ℕ
ipproto_icmpv6 = 58

abbrev pub proto_number : Port → ℕ
proto_number p = if same p.proto udp then ipproto_udp else ipproto_tcp

module _ (host : Host) where
  -- The loop over the ports.
  unfoldable pub port_rules : Text → List Port → List Text
  port_rules name [] = []
  port_rules name (p ∷ ports) =
      (exprs_iifname host name
        ++ (exprs_l4_proto host (proto_number p)
            ++ (exprs_dport host p.port ++ expr_verdict host nf_accept)))
      ∷ port_rules name ports

  unfoldable pub rule_exprs : Text → Scope → List Text
  unfolding port_rules
  rule_exprs name s =
      if s.all
      then []
      else (exprs_iifname host name ++ (exprs_ct_state_est_rel host ++ expr_verdict host nf_accept))
        ∷ (port_rules name s.ports
            ++ (exprs_iifname host name
                ++ (exprs_l4_proto host ipproto_icmp ++ expr_verdict host nf_accept))
              ∷ (exprs_iifname host name
                  ++ (exprs_l4_proto host ipproto_icmpv6 ++ expr_verdict host nf_accept))
              ∷ (exprs_iifname host name ++ expr_verdict host nf_drop)
              ∷ [])

  unfoldable pub forward_exprs : Text → List Text
  forward_exprs name = (exprs_iifname host name ++ expr_verdict host nf_drop) ∷ []
