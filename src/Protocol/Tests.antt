-- ===== src/Protocol/Tests.antt =====
-- The wire formats at concrete messages.
use mytunnel.Prelude.{
  ℕ, ◌≡◌, refl, true, List, [], ◌∷◌, ◌++◌, arith, Text, text, is_utf8, ok, err, ◌>>=◌,
}
use mytunnel.Bytes.{list_bytes}
use mytunnel.Protocol.{
  UdpPacket, encode_udp_packet, decode_udp_packet, encode_tcp_request, packet_truncated,
}
use mytunnel.Protocol.Socks5.{v4, encode_reply, parse_address, show_ipv4}
use mytunnel.Protocol.Socks5.Address.{
  domain, address_bytes, parse_address_lem, parse_address-encode_reply,
}
use mytunnel.Protocol.Udp.{view, wire, decode-encode_udp_packet, encode-decode_udp_packet}

abbrev host : Text
host = text "8.8.8.8"

abbrev packet : UdpPacket list_bytes
packet = record { host = host; port = 53; payload = 1 ∷ 2 ∷ [] }

-- The source's own test of the request.
request :
    encode_tcp_request list_bytes (text "a.b") 443 ≡ ok (0x01 ∷ 0x01 ∷ 0xbb ∷ 3 ∷ 97 ∷ 46 ∷ 98 ∷ [])
unfolding encode_tcp_request
request = refl

-- A host length that points past the end.
truncated : decode_udp_packet list_bytes (0 ∷ 53 ∷ 9 ∷ 97 ∷ []) ≡ err (packet_truncated 9)
unfolding decode_udp_packet
truncated = refl

host-utf8 : is_utf8 host ≡ true
unfolding is_utf8
host-utf8 = refl

decode-encode_udp_packet_example :
    (encode_udp_packet list_bytes host 53 (1 ∷ []) >>= λ sent.
    view list_bytes (decode_udp_packet list_bytes sent))
    ≡ ok (host, 53, 1 ∷ [])
decode-encode_udp_packet_example =
    decode-encode_udp_packet list_bytes host 53 (1 ∷ []) host-utf8 (omega arith) (omega arith)
      (omega arith)

decoded : decode_udp_packet list_bytes (wire host 53 (1 ∷ 2 ∷ [])) ≡ ok packet
unfolding decode_udp_packet is_utf8
decoded = refl

encode-decode_udp_packet_example :
    encode_udp_packet list_bytes host 53 (1 ∷ 2 ∷ []) ≡ ok (wire host 53 (1 ∷ 2 ∷ []))
encode-decode_udp_packet_example =
    (encode-decode_udp_packet list_bytes (wire host 53 (1 ∷ 2 ∷ [])) packet (omega arith) decoded).0

parse_address_lem_example :
    (q : List ℕ) × (parse_address list_bytes
        (λ s. s)
        (address_bytes (domain (text "a.b")) 80 ++ 7 ∷ [])
      ≡ ok ((text "a.b", 80), q))
    × (q ≡ 7 ∷ [])
unfolding is_utf8 show_ipv4
parse_address_lem_example =
    parse_address_lem list_bytes (λ s. s) (domain (text "a.b")) 80 (7 ∷ []) _ (omega arith, refl)
      refl

parse_address-encode_reply_example :
    encode_reply list_bytes 0 (v4 127 0 0 1 1080)
    ≡ 5
      ∷ 0
      ∷ 0
      ∷ (parse_address-encode_reply list_bytes (λ s. s) 0 (v4 127 0 0 1 1080) tt (omega arith)).0
parse_address-encode_reply_example =
    (parse_address-encode_reply list_bytes (λ s. s) 0 (v4 127 0 0 1 1080) tt (omega arith)).2
