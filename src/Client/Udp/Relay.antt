-- ===== src/Client/Udp/Relay.antt =====
-- A UDP packet of a local client through the client, the server, and back.
use mytunnel.Prelude.{
  ℕ, ◌+◌, ◌-◌, ◌≤◌, ◌<◌, ◌%◌, ◌≡◌, refl, ap, ◌∙◌, true, some, List, [], ◌∷◌, ◌++◌, sym, All, Option,
  none, length, drop, to_be_bytes, arith, Text, is_utf8, IsU16, lt→ltb, append_assoc, Result, ok,
  err,
}
use mytunnel.Bytes.{BytesCrate}
use mytunnel.Dash.{DashMap}
use mytunnel.Metrics.{Metrics}
use mytunnel.Protocol.{UdpPacket, encode_udp_packet, decode_udp_packet}
use mytunnel.Protocol
use mytunnel.Protocol.Udp.{view}
use mytunnel.Protocol.Socks5.{SocketAddr}
use mytunnel.Protocol.Socks5.Address.{Address, domain, IsAddress, shown}
use mytunnel.Proxy.Udp.{Network, Times, new_pool, relay_packet}
use mytunnel.Server.Stream.{format_target}
use mytunnel.Server.Datagram.{handle_datagram}
use mytunnel.Server.Datagram.Replies.{handle_datagram-response}
use mytunnel.Client.Udp.{
  Target, Asked, pending_timeout, Event, Sent, to_tunnel, to_local, from_local, from_tunnel,
  local_failed, tunnel_failed, read_header, response, note, forward, with_header, answer, run,
}
use mytunnel.Client.Udp.Justified.{target_of}
use mytunnel.Client.Udp.Header.{datagram, read_header-datagram}

module _ (bytes : BytesCrate) (dash : DashMap Target Asked) where
  get-note :
      (show_ipv6 : Text → Text) (target : Target) (client : SocketAddr) (noted cleaned : ℕ)
      (p : dash.Map)
      → cleaned - noted < pending_timeout
      → dash.get target (note bytes show_ipv6 dash target client noted cleaned p)
        ≡ some (client, noted)
  unfolding note
  get-note show_ipv6 target client noted cleaned p young =
      dash.get-retain _ target (dash.insert target (client, noted) p)
      ∙ rw
          (
            dash.get-insert_self target (client, noted) p,
            lt→ltb (cleaned - noted) pending_timeout young,
          )
          refl

  -- A packet that is decoded is sent on to the client that asked for its host and port.
  answer-view :
      (show_ipv6 : Text → Text) (r : Result Protocol.Error (UdpPacket bytes)) (p : dash.Map)
      → (host : Text) (port : ℕ) (payload : List ℕ) (client : SocketAddr) (noted : ℕ)
      → view bytes r ≡ ok (host, port, payload)
      → dash.get (host, port) p ≡ some (client, noted)
      → answer bytes show_ipv6 dash r p ≡ to_local (response host port payload) client ∷ []
  unfolding answer
  answer-view show_ipv6 (err e) p host port payload client noted seen known = absurd cc
  answer-view show_ipv6 (ok packet) p host port payload client noted seen known =
      let h : packet.host ≡ host = ground arith in
      let n : packet.port ≡ port = ground arith in
      let b : bytes.contents packet.payload ≡ payload = ground arith in
      let known' : dash.get (packet.host, packet.port) p ≡ some (client, noted) = rw (h, n) known in
      rw (known', answer) (rw (h, n, b) refl)

  -- An event that leaves a pending request as it is: it is no error, does not ask for the same target, and
  -- does not look through the requests when its time is over.
  abbrev pub LeavesPending : (Text → Text) → Target → (noted : ℕ) → Event → Type 0
  LeavesPending show_ipv6 target noted (from_local buf client now cleaned) =
      (¬ (target_of (read_header show_ipv6 buf) ≡ some target))
      × (cleaned - noted < pending_timeout)
  LeavesPending show_ipv6 target noted (from_tunnel packet) = Unit {0}
  LeavesPending show_ipv6 target noted local_failed = ⊥
  LeavesPending show_ipv6 target noted tunnel_failed = ⊥

  get-note_ne :
      (show_ipv6 : Text → Text) (target other : Target) (client by : SocketAddr)
      (noted now cleaned : ℕ) (p : dash.Map)
      → dash.get target p ≡ some (client, noted)
      → ¬ (target ≡ other)
      → cleaned - noted < pending_timeout
      → dash.get target (note bytes show_ipv6 dash other by now cleaned p) ≡ some (client, noted)
  unfolding note
  get-note_ne show_ipv6 target other client by noted now cleaned p known apart young =
      dash.get-retain _ target (dash.insert other (by, now) p)
      ∙ rw
          (
            dash.get-insert_ne other target (by, now) p apart,
            known,
            lt→ltb (cleaned - noted) pending_timeout young,
          )
          refl

  with_header-LeavesPending :
      (show_ipv6 : Text → Text) (target : Target) (client by : SocketAddr) (noted now cleaned : ℕ)
      (buf : List ℕ) (o : Option (Target × ℕ)) (p : dash.Map)
      → dash.get target p ≡ some (client, noted)
      → ¬ (target_of o ≡ some target)
      → cleaned - noted < pending_timeout
      → dash.get target (with_header bytes show_ipv6 dash buf by now cleaned o p).1
        ≡ some (client, noted)
  unfolding with_header
  with_header-LeavesPending show_ipv6 target client by noted now cleaned buf none p known apart
        young =
      known
  with_header-LeavesPending show_ipv6 target client by noted now cleaned buf
        (some ((host, port), start)) p known apart young =
      get-note_ne show_ipv6 target (host, port) client by noted now cleaned p known
        (λ e. apart (ap some (sym e))) young

  -- After such events the request is pending, and the loops go on.
  run-LeavesPending :
      (show_ipv6 : Text → Text) (target : Target) (client : SocketAddr) (noted : ℕ)
      (between later : List Event) (p : dash.Map)
      → dash.get target p ≡ some (client, noted)
      → All (LeavesPending show_ipv6 target noted) between
      → (during : List Sent) × (p₁ : dash.Map) × (dash.get target p₁ ≡ some (client, noted))
        × (run bytes show_ipv6 dash (between ++ later) p
            ≡ during ++ run bytes show_ipv6 dash later p₁)
  unfolding run
  run-LeavesPending show_ipv6 target client noted [] later p known leaves = ([], p, known, refl)
  run-LeavesPending show_ipv6 target client noted (from_local buf by now cleaned ∷ between) later p
        known ((apart, young), leaves) =
      let (sent, p₁) =
        with_header bytes show_ipv6 dash buf by now cleaned (read_header show_ipv6 buf) p in
      let (during, p₂, known₂, e) =
        run-LeavesPending show_ipv6 target client noted between later p₁
          (with_header-LeavesPending show_ipv6 target client by noted now cleaned buf
            (read_header show_ipv6 buf) p known apart young)
          leaves in
      (sent ++ during, p₂, known₂, ap (λ l. sent ++ l) e ∙ sym (append_assoc sent during _))
  run-LeavesPending show_ipv6 target client noted (from_tunnel packet ∷ between) later p known
        (u, leaves) =
      let sent = answer bytes show_ipv6 dash (decode_udp_packet bytes (bytes.from_vec packet)) p in
      let (during, p₂, known₂, e) =
        run-LeavesPending show_ipv6 target client noted between later p known leaves in
      (sent ++ during, p₂, known₂, ap (λ l. sent ++ l) e ∙ sym (append_assoc sent during _))
  run-LeavesPending show_ipv6 target client noted (local_failed ∷ between) later p known leaves =
      absurd leaves.0
  run-LeavesPending show_ipv6 target client noted (tunnel_failed ∷ between) later p known leaves =
      absurd leaves.0

  response_lem :
      (host : Text) (port : ℕ) (payload : List ℕ)
      → length host ≤ 255
      → response host port payload ≡ datagram (domain host) port payload
  unfolding response
  response_lem host port payload short =
      let byte : length host % 256 ≡ length host = omega arith in
      rw (byte, append_assoc host (to_be_bytes port) payload) refl

  module _ (show_ipv6 : Text → Text) (net : Network) (netdash : DashMap net.Addr (net.Socket × ℕ))
      (t : Times) (m : Metrics) (a : Address) (port : ℕ) (payload replied : List ℕ) where
    -- The host as the client prints it.
    abbrev host : Text
    host = shown show_ipv6 a

    -- A local client's datagram for an address and a port is sent to the server as a packet, which the
    -- server relays to that host and port; when the relay brings a response, the server's datagram makes
    -- the client send the same local client a datagram in the format of RFC 1928, with that response and
    -- with that host, as a name, and port. This holds whatever requests were pending and whatever arrives
    -- between the two, as long as no socket fails, no other datagram asks for that host and port, and the
    -- requests are not looked through after this one's timeout; the datagram has at least ten bytes, the
    -- host is UTF-8 of at most 255 bytes, the port a 16-bit number, and the host, with the payload and
    -- with the response, not empty.
    pub run-answers :
        (client : SocketAddr) (noted cleaned : ℕ) (between later : List Event) (p : dash.Map)
        → IsAddress a
        → 10 ≤ length (datagram a port payload)
        → cleaned - noted < pending_timeout
        → All (LeavesPending show_ipv6 (host, port) noted) between
        → is_utf8 host ≡ true
        → length host ≤ 255
        → IsU16 port
        → 0 < length host + length payload
        → 0 < length host + length replied
        → (relay_packet net netdash t (format_target host port) payload (new_pool net netdash)).0
          ≡ ok replied
        → (sent : List ℕ) × (reply : List ℕ) × (during : List Sent) × (after : List Sent)
          × ((handle_datagram net netdash t m sent).sent ≡ some reply)
          × (run bytes show_ipv6 dash
                (from_local (datagram a port payload) client noted cleaned
                  ∷ (between ++ from_tunnel reply ∷ later))
                p
              ≡ to_tunnel sent
                ∷ (during ++ to_local (datagram (domain host) port replied) client ∷ after))
    unfolding run with_header forward
    run-answers client noted cleaned between later p v long young leaves u short p16 n r relayed =
        let (start, header, tail) = read_header-datagram show_ipv6 a port payload v long in
        let (sent, reply, encoded, answered, counted, seen) =
          handle_datagram-response net netdash bytes t m host port payload replied u short p16 n r
            relayed in
        let encoded' : encode_udp_packet bytes host port (drop start (datagram a port payload))
            ≡ ok sent =
          ap (encode_udp_packet bytes host port) tail ∙ encoded in
        let noted_p = note bytes show_ipv6 dash (host, port) client noted cleaned p in
        let (during, p₂, known, rest) =
          run-LeavesPending show_ipv6 (host, port) client noted between (from_tunnel reply ∷ later)
            noted_p (get-note show_ipv6 (host, port) client noted cleaned p young) leaves in
        let back = answer-view show_ipv6 _ _ host port replied client noted seen known in
        let made = response_lem host port replied short in
        let after = run bytes show_ipv6 dash later p₂ in
        (
          sent,
          reply,
          during,
          after,
          answered,
          rw (header, with_header)
              (rw encoded' (
                ap (λ l. to_tunnel sent ∷ l)
                  (rest
                    ∙ ap (λ l. during ++ (l ++ after))
                        (back ∙ ap (λ b. to_local b client ∷ []) made)))),
        )
