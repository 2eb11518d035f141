-- ===== src/Client.antt =====
-- The client's proxies, from mytunnel-client/src: what they share, and `establish_tcp_tunnel` of
-- mytunnel-client/src/tunnel/stream.rs. What the sockets and the tunnel do is a parameter.

pub mod Establish
pub mod Http
pub mod Socks5
pub mod Udp
pub mod Config
pub mod Connection
pub mod Tests
use mytunnel.Prelude.{ℕ, Bool, List, [], Text, length, take, ltb, if◌then◌else◌, Result, ok, err}
use mytunnel.Bytes.{BytesCrate}
use mytunnel.Protocol.{encode_tcp_request, decode_tcp_response}
use mytunnel.Protocol
use mytunnel.Proxy.Tcp.{Read, Write}

-- Why a tunnel could not be set up.
pub data Error : Type 0 where
  open_failed : Error
  bad_message : Protocol.Error → Error
  send_failed : Error
  no_response : Error

-- What the tunnel does for one local connection: whether `open_stream` succeeds, whether the request can
-- be written, the bytes that the server answers a request with before it ends the stream, and the reads
-- of the two copying loops (on the local side by the bytes that the client sends behind its request).
pub record TunnelEnv : Type 0 where
  pub opens : Bool
  pub sends : Bool
  pub respond : List ℕ → List ℕ
  pub local_reads : List ℕ → List (Read × Write)
  pub quic_reads : List (Read × Write)

-- What has been written to the QUIC stream, and the result.
pub record Established : Type 0 where
  pub request : List ℕ
  pub result : Result Error (Unit {0})

-- The reading of the status byte: `read_exact` into one byte, then `decode_tcp_response`.
read_status : List ℕ → Result Error (Unit {0})
read_status incoming =
    if ltb (length incoming) 1
    then err no_response
    else elim (decode_tcp_response (take 1 incoming)) [ ok u ↦ ok u | err e ↦ err (bad_message e) ]

-- `establish_tcp_tunnel`
unfoldable pub establish_tcp_tunnel : BytesCrate → TunnelEnv → Text → ℕ → Established
unfolding read_status
establish_tcp_tunnel bytes env host port = elim (encode_tcp_request bytes host port) [
  | err e ↦ record { request = []; result = err (bad_message e) }
  | ok request ↦
      if env.sends
      then record { request = request; result = read_status (env.respond request) }
      else record { request = []; result = err send_failed }
]
