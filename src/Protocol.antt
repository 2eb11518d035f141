-- ===== src/Protocol.antt =====
-- mytunnel-client/src/protocol.rs, the tunnel's own messages: the request that opens a TCP tunnel, the
-- server's status byte, and UDP packets. A `&str` is its bytes; a `Vec<u8>` is a list of bytes.
pub mod Socks5
pub mod Udp
pub mod Tests
use mytunnel.Prelude.{
  ℕ, List, [], ◌∷◌, ◌++◌, length, ltb, Text, is_utf8, as_u8, Result, ok, err, ◌>>=◌, ◌>>◌, bail_if,
  if◌then◌else◌, ◌==◌,
}
use mytunnel.Bytes.{BytesCrate}

abbrev pub tcp_connect : ℕ
tcp_connect = 0x01

abbrev pub status_ok : ℕ
status_ok = 0x00

abbrev pub status_error : ℕ
status_error = 0xff

-- The messages of the `bail!` calls, and the error of `String::from_utf8`.
pub data Error : Type 0 where
  host_too_long : Error
  empty_response : Error
  server_returned_error : Error
  unknown_status : ℕ → Error
  packet_too_short : Error
  packet_truncated : ℕ → Error
  invalid_utf8 : Error
  empty_address : Error
  truncated_ipv4 : Error
  missing_domain_length : Error
  truncated_domain : Error
  truncated_ipv6 : Error
  unknown_address_type : ℕ → Error
  missing_port : Error

-- `String::from_utf8`
abbrev pub from_utf8 : List ℕ → Result Error Text
from_utf8 s = if is_utf8 s then ok s else err invalid_utf8

-- `decode_tcp_response`
unfoldable pub decode_tcp_response : List ℕ → Result Error (Unit {0})
decode_tcp_response [] = err empty_response
decode_tcp_response (status ∷ rest) =
    if status == status_ok
    then ok tt
    else if status == status_error
    then err server_returned_error
    else err (unknown_status status)

module _ (bytes : BytesCrate) where
  open bytes use {Buf, contents, remaining, get_u8, get_u16, copy_to_bytes, put_u16}

  -- `encode_tcp_request`
  unfoldable pub encode_tcp_request : Text → ℕ → Result Error (List ℕ)
  encode_tcp_request host port = do
    bail_if (ltb 255 (length host)) host_too_long
    ok (put_u16 (tcp_connect ∷ []) port ++ as_u8 (length host) ∷ host)

  -- `encode_udp_packet`
  unfoldable pub encode_udp_packet : Text → ℕ → List ℕ → Result Error (List ℕ)
  encode_udp_packet host port payload = do
    bail_if (ltb 255 (length host)) host_too_long
    ok (put_u16 [] port ++ as_u8 (length host) ∷ host ++ payload)

  -- `struct UdpPacket`
  pub record UdpPacket : Type 0 where
    pub host : Text
    pub port : ℕ
    pub payload : Buf

  -- `decode_udp_packet`
  unfoldable pub decode_udp_packet : Buf → Result Error UdpPacket
  decode_udp_packet buf = do
    bail_if (ltb (remaining buf) 4) packet_too_short
    let (port, buf) = get_u16 buf
    let (host_len, buf) = get_u8 buf
    bail_if (ltb (remaining buf) host_len) (packet_truncated host_len)
    let (host_bytes, buf) = copy_to_bytes host_len buf
    host ← from_utf8 (contents host_bytes)
    ok (record { host = host; port = port; payload = buf })
