-- ===== src/Control/Tests.antt =====
-- The connection budget of internal/tunnel/control.go at concrete connections.
use buddynet.Support.{
  ◌≡◌, refl, true, false, some, [], text_key, nat_key, ℕ_discrete, text_dec, lookup, insert, delete,
}
use buddynet.Net.{addr_from_slice, unmap, any_contains, from_ip, from_netip_addr}
use buddynet.Net.Tests.{texts}
use buddynet.Relay.{held, release_ip}
use buddynet.Handshake.Tests.{alice}
use buddynet.Control.{
  Control, new_control, source_allowed, ip_key, admit, release, note_rejection, gate_conn,
}
use buddynet.Control.Slots.{IsCounted, here, next, arrive, gone, Reach-IsCounted}

control_program : Unit {0}
unfolding source_allowed ip_key from_ip from_netip_addr admit release note_rejection gate_conn
    addr_from_slice unmap any_contains held release_ip lookup insert delete text_dec ℕ_discrete
control_program = tt

abbrev one : Control
one = (gate_conn texts [] true (some alice) [] 5 new_control).0

-- A release that runs twice gives back one slot.
release_once : (release 0 (release 0 one)).conns ≡ 0
unfolding control_program
release_once = refl

-- An unverified source is refused, and the line that is logged counts nothing.
refused_uncounted : (gate_conn texts [] false (some alice) [] 5 new_control).2 ≡ some 0
unfolding control_program
refused_uncounted = refl

Reach-IsCounted_example : IsCounted (release 0 one)
Reach-IsCounted_example =
    Reach-IsCounted texts []
      (next (next here (arrive new_control true (some alice) [] 5)) (gone one 0))
