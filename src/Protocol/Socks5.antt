-- ===== src/Protocol/Socks5.antt =====
-- `mod socks5` of mytunnel-client/src/protocol.rs: addresses in requests, and replies. An IPv6 address
-- is printed by a function that the caller chooses (`Ipv6Addr::to_string`).
pub mod Address
use mytunnel.Prelude.{
  ℕ, ◌+◌, List, [], ◌∷◌, ◌++◌, get_or, ltb, Text, to_decimal, Result, ok, err, ◌>>=◌, ◌>>◌, bail_if,
  if◌then◌else◌, ◌==◌,
}
use mytunnel.Bytes.{BytesCrate}
use mytunnel.Protocol.{
  Error, from_utf8, empty_address, truncated_ipv4, missing_domain_length, truncated_domain,
  truncated_ipv6, unknown_address_type, missing_port,
}

abbrev pub version : ℕ
version = 0x05

abbrev pub auth_none : ℕ
auth_none = 0x00

abbrev pub auth_no_acceptable : ℕ
auth_no_acceptable = 0xff

abbrev pub cmd_connect : ℕ
cmd_connect = 0x01

abbrev pub cmd_bind : ℕ
cmd_bind = 0x02

abbrev pub cmd_udp_associate : ℕ
cmd_udp_associate = 0x03

abbrev pub atyp_ipv4 : ℕ
atyp_ipv4 = 0x01

abbrev pub atyp_domain : ℕ
atyp_domain = 0x03

abbrev pub atyp_ipv6 : ℕ
atyp_ipv6 = 0x04

abbrev pub rep_success : ℕ
rep_success = 0x00

abbrev pub rep_general_failure : ℕ
rep_general_failure = 0x01

abbrev pub rep_host_unreachable : ℕ
rep_host_unreachable = 0x04

abbrev pub rep_cmd_not_supported : ℕ
rep_cmd_not_supported = 0x07

abbrev pub rep_atyp_not_supported : ℕ
rep_atyp_not_supported = 0x08

-- `SocketAddr`: the octets of the address and the port (and, for IPv6, the flow label and scope).
pub data SocketAddr : Type 0 where
  v4 : ℕ → ℕ → ℕ → ℕ → ℕ → SocketAddr
  v6 : List ℕ → ℕ → SocketAddr

-- `Ipv4Addr::to_string`
unfoldable pub show_ipv4 : ℕ → ℕ → ℕ → ℕ → Text
show_ipv4 a b c d = to_decimal a ++ 46 ∷ (to_decimal b ++ 46 ∷ (to_decimal c ++ 46 ∷ to_decimal d))

-- `Ipv4Addr::from(octets).to_string()`; the array has four octets.
unfoldable pub show_octets : List ℕ → Text
unfolding show_ipv4
show_octets s = show_ipv4 (get_or s 0 0) (get_or s 1 0) (get_or s 2 0) (get_or s 3 0)

-- `zero_bind_addr_v4`
abbrev pub zero_bind_addr_v4 : SocketAddr
zero_bind_addr_v4 = v4 0 0 0 0 0

module _ (bytes : BytesCrate) where
  open bytes use {Buf, contents, remaining, get_u8, get_u16, copy_to_bytes, copy_to_slice, put_u16}

  -- The arms of the `match atyp`: the host, and the buffer behind it.
  parse_host : (Text → Text) → ℕ → Buf → Result Error (Text × Buf)
  parse_host show_ipv6 atyp buf =
      if atyp == atyp_ipv4
      then (do
        bail_if (ltb (remaining buf) 4) truncated_ipv4
        let (octets, buf) = copy_to_slice 4 buf
        ok (show_octets octets, buf))
      else if atyp == atyp_domain
      then (do
        bail_if (remaining buf == 0) missing_domain_length
        let (len, buf) = get_u8 buf
        bail_if (ltb (remaining buf) len) truncated_domain
        let (domain, buf) = copy_to_bytes len buf
        host ← from_utf8 (contents domain)
        ok (host, buf))
      else if atyp == atyp_ipv6
      then (do
        bail_if (ltb (remaining buf) 16) truncated_ipv6
        let (octets, buf) = copy_to_slice 16 buf
        ok (show_ipv6 octets, buf))
      else err (unknown_address_type atyp)

  -- `parse_address`; the buffer that is left comes back beside the result.
  unfoldable pub parse_address : (Text → Text) → Buf → Result Error ((Text × ℕ) × Buf)
  unfolding parse_host
  parse_address show_ipv6 buf = do
    bail_if (remaining buf == 0) empty_address
    let (atyp, buf) = get_u8 buf
    (host, buf) ← parse_host show_ipv6 atyp buf
    bail_if (ltb (remaining buf) 2) missing_port
    let (port, buf) = get_u16 buf
    ok ((host, port), buf)

  -- `encode_reply`
  unfoldable pub encode_reply : ℕ → SocketAddr → List ℕ
  encode_reply status (v4 a b c d port) =
      put_u16 (version ∷ status ∷ 0x00 ∷ atyp_ipv4 ∷ a ∷ b ∷ c ∷ d ∷ []) port
  encode_reply status (v6 octets port) = put_u16 (version ∷ status ∷ 0x00 ∷ atyp_ipv6 ∷ octets) port
