-- ===== src/Client/Udp.antt =====
-- mytunnel-client/src/tunnel/datagram.rs: the loops of `UdpAssociation::run` over the map of pending
-- requests that they share. What arrives, at which times, is a list of events in the order in which the
-- loops take them; a pass of a loop is one step. What the sockets do with a datagram that is sent makes
-- no difference to the loops. An IPv6 address is printed by a function that the caller chooses.
pub mod Header
pub mod Justified
pub mod Pending
pub mod Relay
pub mod Tests
use mytunnel.Prelude.{
  ℕ, ◌+◌, ◌-◌, ◌*◌, not, List, [], ◌∷◌, ◌++◌, Option, none, some, Text, length, take, drop, get_or,
  ltb, ◌==◌, if◌then◌else◌, is_utf8, as_u8, from_be_bytes, to_be_bytes, Result, ok, err,
}
use mytunnel.Bytes.{BytesCrate}
use mytunnel.Dash.{DashMap}
use mytunnel.Protocol.{UdpPacket, encode_udp_packet, decode_udp_packet}
use mytunnel.Protocol
use mytunnel.Protocol.Socks5.{SocketAddr, show_octets}

-- A host and a port, and the client that asked for them last with the time (in nanoseconds).
abbrev pub Target : Type 0
Target = Text × ℕ

abbrev pub Asked : Type 0
Asked = SocketAddr × ℕ

-- `Duration::from_secs(30)`
abbrev pub pending_timeout : ℕ
pending_timeout = 30 * 1000000000

-- The header of a datagram from a local client: the target, and where the payload begins. A datagram
-- that is passed over has none.
unfoldable pub read_header : (Text → Text) → List ℕ → Option (Target × ℕ)
read_header show_ipv6 buf =
    let len = length buf in
    let atyp = get_or buf 3 0 in
    let domain_len = get_or buf 4 0 in
    let domain = take domain_len (drop 5 buf) in
    let port_start = 5 + domain_len in
    if ltb len 10
    then none
    else if not (get_or buf 2 0 == 0)
    then none
    else if atyp == 0x01
    then some
        ((show_octets (take 4 (drop 4 buf)), from_be_bytes (get_or buf 8 0) (get_or buf 9 0)), 10)
    else if atyp == 0x03
    then (if ltb len (7 + domain_len)
        then none
        else if is_utf8 domain
        then some (
          (domain, from_be_bytes (get_or buf port_start 0) (get_or buf (port_start + 1) 0)),
          port_start + 2,
        )
        else none)
    else if atyp == 0x04
    then (if ltb len 22
        then none
        else some (
          (show_ipv6 (take 16 (drop 4 buf)), from_be_bytes (get_or buf 20 0) (get_or buf 21 0)),
          22,
        ))
    else none

-- The datagram for a local client.
unfoldable pub response : Text → ℕ → List ℕ → List ℕ
response host port payload =
    0 ∷ 0 ∷ 0 ∷ 0x03 ∷ as_u8 (length host) ∷ host ++ to_be_bytes port ++ payload

-- What `recv_from` and `recv_datagram` return: a local client's datagram with its address and the times
-- at which the request is noted and the old ones are looked through, the server's datagram, or an error.
pub data Event : Type 0 where
  from_local : List ℕ → SocketAddr → (noted cleaned : ℕ) → Event
  from_tunnel : List ℕ → Event
  local_failed : Event
  tunnel_failed : Event

-- What is sent, into the tunnel or to a local client.
pub data Sent : Type 0 where
  to_tunnel : List ℕ → Sent
  to_local : List ℕ → SocketAddr → Sent

module _ (bytes : BytesCrate) (show_ipv6 : Text → Text) (dash : DashMap Target Asked) where
  -- The noting of a request, and the removal of those whose time is over.
  unfoldable pub note : Target → SocketAddr → (noted cleaned : ℕ) → dash.Map → dash.Map
  note target client noted cleaned p =
      dash.retain (λ _ asked. ltb (cleaned - asked.1) pending_timeout)
        (dash.insert target (client, noted) p)

  -- `protocol::encode_udp_packet` and `send_datagram`.
  forward : Result Protocol.Error (List ℕ) → List Sent
  forward (ok packet) = to_tunnel packet ∷ []
  forward (err e) = []

  -- A pass of `local_to_tunnel` over a datagram, once its header is read.
  with_header :
      List ℕ
      → SocketAddr
      → (noted cleaned : ℕ) → Option (Target × ℕ)
      → dash.Map
      → List Sent × dash.Map
  unfolding forward note
  with_header buf client noted cleaned none p = ([], p)
  with_header buf client noted cleaned (some ((host, port), data_start)) p = (
    forward (encode_udp_packet bytes host port (drop data_start buf)),
    note (host, port) client noted cleaned p,
  )

  -- A pass of `tunnel_to_local` over a packet that has been decoded.
  answer : Result Protocol.Error (UdpPacket bytes) → dash.Map → List Sent
  unfolding response
  answer (err e) p = []
  answer (ok packet) p = elim (dash.get (packet.host, packet.port) p) [
    | none ↦ []
    | some (client, asked) ↦
        to_local (response packet.host packet.port (bytes.contents packet.payload)) client ∷ []
  ]

  -- `UdpAssociation::run` on the events; the `select!` ends at the first error, and at the end of the
  -- list nothing more arrives.
  unfoldable pub run : List Event → dash.Map → List Sent
  unfolding with_header answer
  run [] p = []
  run (from_local buf client noted cleaned ∷ events) p =
      let (sent, p₁) = with_header buf client noted cleaned (read_header show_ipv6 buf) p in
      sent ++ run events p₁
  run (from_tunnel datagram ∷ events) p =
      answer (decode_udp_packet bytes (bytes.from_vec datagram)) p ++ run events p
  run (local_failed ∷ events) p = []
  run (tunnel_failed ∷ events) p = []
