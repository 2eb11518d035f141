-- ===== src/Client/Udp/Tests.antt =====
-- UDP associations at concrete events.
use native.Mathlib.Decide.{ℕ_discrete}
use mytunnel.Prelude.{
  ℕ, ◌≡◌, refl, sym, ap, ◌∙◌, some, none, List, [], ◌∷◌, ◌++◌, arith, All, Text, is_utf8, ok,
}
use mytunnel.Bytes.{list_bytes}
use mytunnel.Dash.{DashMap}
use mytunnel.Dash.Assoc
use mytunnel.Dash.Assoc.{assoc_map}
use mytunnel.Metrics
use mytunnel.Protocol.{encode_udp_packet, decode_udp_packet}
use mytunnel.Protocol.Udp.{wire}
use mytunnel.Protocol.Socks5.{SocketAddr, v4}
use mytunnel.Protocol.Socks5.Address.{domain}
use mytunnel.Proxy.Tests.{test_net, test_map, at}
use mytunnel.Proxy.Udp.{relay_packet, new_pool}
use mytunnel.Server.Stream.{format_target}
use mytunnel.Server.Datagram.{handle_datagram}
use mytunnel.Client.Tests.{host}
use mytunnel.Client.Udp.{
  Target, Asked, Event, Sent, from_local, from_tunnel, local_failed, to_tunnel, to_local,
  read_header, response, note, answer, run,
}
use mytunnel.Client.Udp.Header.{Reads, datagram, read_header-datagram}
use mytunnel.Client.Udp.Justified.{target_of, Text_discrete, Target_discrete, IsJustified}
use mytunnel.Client.Udp.Pending.{run-IsJustified}
use mytunnel.Client.Udp.Relay.{run-answers}

abbrev unprinted : Text → Text
unprinted octets = []

abbrev pending : DashMap Target Asked
pending = assoc_map Asked Target_discrete

abbrev client : SocketAddr
client = v4 127 0 0 1 4000

read_header-datagram_example :
    Reads unprinted (datagram (domain host) 53 (7 ∷ 8 ∷ [])) host 53 (7 ∷ 8 ∷ [])
unfolding is_utf8
read_header-datagram_example =
    read_header-datagram unprinted (domain host) 53 (7 ∷ 8 ∷ []) (omega arith, refl) (omega arith)

relayed :
    (relay_packet test_net test_map
      (at 5)
      (format_target host 53)
      (7 ∷ [])
      (new_pool test_net test_map)).0
    ≡ ok (42 ∷ [])
unfolding relay_packet Assoc.get
relayed = refl

-- Another client asks for another port, and datagrams arrive that are passed over.
abbrev between : List Event
between =
    from_local (datagram (domain host) 54 (9 ∷ [])) (v4 127 0 0 1 4001) 150 250
    ∷ from_tunnel (1 ∷ 2 ∷ [])
    ∷ from_local (0 ∷ 0 ∷ []) client 160 260
    ∷ []

other_port :
    ¬ (target_of (read_header unprinted (datagram (domain host) 54 (9 ∷ []))) ≡ some (host, 53))
unfolding is_utf8
other_port e =
    let (start, header, tail) =
      read_header-datagram unprinted (domain host) 54 (9 ∷ []) (omega arith, refl) (omega arith) in
    let q : some (host, 54) ≡ some (host, 53) = sym (ap target_of header) ∙ e in
    let n : ◌≡◌ {A = ℕ} 54 53 = ap (λ o. elim o [ none ↦ 0 | some t ↦ t.1 ]) q in omega (arith, n)

too_short : ¬ (target_of (read_header unprinted (0 ∷ 0 ∷ [])) ≡ some (host, 53))
unfolding read_header
too_short e = cc

run-answers_example :
    (sent : List ℕ) × (reply : List ℕ) × (during : List Sent) × (after : List Sent)
    × ((handle_datagram test_net test_map (at 5) Metrics.new sent).sent ≡ some reply)
    × (run list_bytes unprinted pending
          (from_local (datagram (domain host) 53 (7 ∷ [])) client 100 200
            ∷ (between ++ from_tunnel reply ∷ local_failed ∷ []))
          pending.empty
        ≡ to_tunnel sent
          ∷ (during ++ to_local (datagram (domain host) 53 (42 ∷ [])) client ∷ after))
unfolding is_utf8
run-answers_example =
    run-answers list_bytes pending unprinted test_net test_map (at 5) Metrics.new (domain host) 53
      (7 ∷ []) (42 ∷ []) client 100 200 between (local_failed ∷ []) pending.empty
      (omega arith, refl) (omega arith) (omega arith)
      ((other_port, omega arith), (tt, ((too_short, omega arith), tt))) refl (omega arith)
      (omega arith) (omega arith) (omega arith) relayed

-- A client asks, another asks for the same and then the server answers: the answer goes to the latter.
abbrev second : SocketAddr
second = v4 127 0 0 1 4001

abbrev asked_twice : List Event
asked_twice =
    from_local (datagram (domain host) 53 (7 ∷ [])) client 100 200
    ∷ from_local (datagram (domain host) 53 (8 ∷ [])) second 110 210
    ∷ from_tunnel (wire host 53 (42 ∷ []))
    ∷ []

sends_answer :
    run list_bytes unprinted pending asked_twice pending.empty
    ≡ to_tunnel (wire host 53 (7 ∷ []))
      ∷ to_tunnel (wire host 53 (8 ∷ []))
      ∷ to_local (datagram (domain host) 53 (42 ∷ [])) second
      ∷ []
unfolding run answer Target_discrete Text_discrete ℕ_discrete read_header note response Assoc.get
    Assoc.without Assoc.filter_by Assoc.dedup encode_udp_packet decode_udp_packet is_utf8
sends_answer = refl

run-IsJustified_example :
    All
      (IsJustified list_bytes unprinted asked_twice)
      (run list_bytes unprinted pending asked_twice pending.empty)
run-IsJustified_example = run-IsJustified list_bytes unprinted pending asked_twice
