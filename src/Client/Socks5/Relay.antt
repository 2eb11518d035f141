-- ===== src/Client/Socks5/Relay.antt =====
-- A SOCKS5 connection through the client and the server, and the other commands.
use mytunnel.Prelude.{
  ℕ, ◌≡◌, ◌≢◌, ◌≤◌, refl, ap, true, false, none, some, List, [], ◌∷◌, ◌++◌, length, arith, Text,
  contains, is_utf8, IsU16, ok, is_ok,
}
use mytunnel.Bytes.{BytesCrate}
use mytunnel.Metrics.{Metrics}
use mytunnel.Protocol.Socks5.{
  SocketAddr, version, auth_none, cmd_connect, cmd_udp_associate, rep_success,
  rep_cmd_not_supported, zero_bind_addr_v4, encode_reply,
}
use mytunnel.Protocol.Socks5.Address.{Address, IsAddress, shown}
use mytunnel.Proxy.Tcp.{proxy_bidirectional}
use mytunnel.Server.Stream.{StreamEnv, handle_stream, format_target}
use mytunnel.Client.{TunnelEnv, Established, establish_tcp_tunnel}
use mytunnel.Client.Establish.{Serves, establish_tcp_tunnel-Serves}
use mytunnel.Client.Socks5.{
  LocalEnv, Handled, handle_socks5_client, command, behind, handle_connect, after_establish,
  handle_udp_associate, refuses,
}
use mytunnel.Client.Socks5.Session.{greeting, request, handle_socks5_client-request}

module _ (bytes : BytesCrate) (show_ipv6 : Text → Text) (senv : StreamEnv) (m : Metrics)
    (loc : LocalEnv) (env : TunnelEnv) where
  -- What the client has done when it relays a connection to a host and a port, after it has written
  -- `selection`; `rest` is what its own client sends behind the request.
  pub record Relays (selection : List ℕ) (host : Text) (port : ℕ) (rest : List ℕ) (h : Handled)
      : Type 0 where
    pub to_server : List ℕ
    pub answered : h.sent ≡ selection ++ encode_reply bytes rep_success zero_bind_addr_v4
    pub requested : h.request ≡ some to_server
    pub reached : (handle_stream senv m to_server).target ≡ some (format_target host port)
    pub copied : h.proxied ≡ some (proxy_bidirectional (env.local_reads rest) env.quic_reads)
    pub succeeded : h.result ≡ ok tt

  handle_connect-Relays :
      (selection : List ℕ) (host : Text) (port : ℕ) (rest : List ℕ)
      → is_utf8 host ≡ true
      → length host ≤ 255
      → IsU16 port
      → loc.replies ≡ true
      → senv.acks ≡ true
      → env.opens ≡ true
      → env.sends ≡ true
      → Serves senv m env
      → Relays selection host port rest (
          behind bytes show_ipv6 loc env selection
            (handle_connect bytes show_ipv6 loc env rest host port))
  unfolding handle_connect after_establish
  handle_connect-Relays selection host port rest u short p replies acks opens sends serves =
      let (to_server, established, reached) =
        establish_tcp_tunnel-Serves bytes senv m env host port u short p acks sends serves in
      let opened : handle_connect bytes show_ipv6 loc env rest host port
          ≡ after_establish bytes show_ipv6 loc env rest
              (establish_tcp_tunnel bytes env host port) =
        ground (arith, opens) in
      rw (opened, established, replies, after_establish)
        record {
          to_server = to_server;
          answered = refl;
          requested = ap (λ (e : Established). some e.request) established;
          reached = reached;
          copied = refl;
          succeeded = refl;
        }

  -- A SOCKS5 CONNECT request for an address and a port, from a client that offers to go without
  -- authentication and whose tunnel leads to the server, is answered with that method and the reply for
  -- success. The client sends the server a request for which that has tried to connect to the same host
  -- (an IP address printed) and port, and then copies in both directions, on the local side from what
  -- follows the request. The host is UTF-8 of at most 255 bytes, the port a 16-bit number, and every
  -- stream can be opened and written.
  pub handle_socks5_client-Relays :
      (methods : List ℕ) (reserved : ℕ) (a : Address) (port : ℕ) (rest : List ℕ)
      → contains methods auth_none ≡ true
      → IsAddress a
      → is_utf8 (shown show_ipv6 a) ≡ true
      → length (shown show_ipv6 a) ≤ 255
      → IsU16 port
      → loc.selects ≡ true
      → loc.replies ≡ true
      → senv.acks ≡ true
      → env.opens ≡ true
      → env.sends ≡ true
      → Serves senv m env
      → Relays (version ∷ auth_none ∷ []) (shown show_ipv6 a) port rest (
          handle_socks5_client bytes show_ipv6 loc env
            (greeting methods (request cmd_connect reserved a port rest)))
  unfolding command
  handle_socks5_client-Relays methods reserved a port rest offered v u short p selects replies acks
        opens sends serves =
      rw
        (handle_socks5_client-request bytes show_ipv6 loc env methods cmd_connect reserved a port
          rest offered selects v)
        (handle_connect-Relays (version ∷ auth_none ∷ []) (shown show_ipv6 a) port rest u short p
          replies acks opens sends serves)

module _ (bytes : BytesCrate) (show_ipv6 : Text → Text) (loc : LocalEnv) (env : TunnelEnv) where
  -- A request with a command other than CONNECT and UDP ASSOCIATE (such as BIND), from a client that
  -- offers to go without authentication, is answered with that method and the reply that the command is
  -- not supported, if these can be written; it is an error, and the tunnel is not used.
  pub handle_socks5_client-unsupported :
      (methods : List ℕ) (cmd reserved : ℕ) (a : Address) (port : ℕ) (rest : List ℕ)
      → contains methods auth_none ≡ true
      → IsAddress a
      → cmd ≢ cmd_connect
      → cmd ≢ cmd_udp_associate
      → loc.selects ≡ true
      → loc.replies ≡ true
      → let h =
          handle_socks5_client bytes show_ipv6 loc env
            (greeting methods (request cmd reserved a port rest)) in
        (h.sent ≡ version ∷ auth_none ∷ encode_reply bytes rep_cmd_not_supported zero_bind_addr_v4)
        × (h.request ≡ none)
        × (h.proxied ≡ none)
        × (h.associated ≡ none)
        × (is_ok h.result ≡ false)
  unfolding command refuses
  handle_socks5_client-unsupported methods cmd reserved a port rest offered v other other' selects
        replies =
      rw
        (handle_socks5_client-request bytes show_ipv6 loc env methods cmd reserved a port rest
          offered selects v)
        (ground (arith, replies))

  -- A UDP ASSOCIATE request, whatever its address, from a client that offers to go without
  -- authentication, is answered with that method and a reply that carries the address of the
  -- association's socket, which is then run; the tunnel's streams are not used. The association can be
  -- created, and both answers written.
  pub handle_socks5_client-associates :
      (methods : List ℕ) (reserved : ℕ) (a : Address) (port : ℕ) (rest : List ℕ) (addr : SocketAddr)
      → contains methods auth_none ≡ true
      → IsAddress a
      → loc.selects ≡ true
      → loc.replies ≡ true
      → loc.associates ≡ true
      → loc.local_addr ≡ some addr
      → let h =
          handle_socks5_client bytes show_ipv6 loc env
            (greeting methods (request cmd_udp_associate reserved a port rest)) in
        (h.sent ≡ version ∷ auth_none ∷ encode_reply bytes rep_success addr)
        × (h.associated ≡ some addr)
        × (h.request ≡ none)
        × (h.result ≡ ok tt)
  unfolding command handle_udp_associate
  handle_socks5_client-associates methods reserved a port rest addr offered v selects replies
        associates bound =
      rw
        (
          handle_socks5_client-request bytes show_ipv6 loc env methods cmd_udp_associate reserved a
              port rest offered selects v,
          bound,
        )
        (ground (arith, replies, associates))
