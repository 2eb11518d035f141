-- ===== src/Server/Datagram/Replies.antt =====
-- A packet from the client, through the server, and its response back to the client.
use mytunnel.Prelude.{
  ℕ, suc, ◌+◌, ◌≤◌, ◌<◌, ◌%◌, ◌≡◌, refl, true, none, some, List, ◌++◌, length, arith, Text, is_utf8,
  IsU16, from_be_bytes-div-mod, take-append, drop-append, length-append, le→not_ltb, ok, err,
}
use mytunnel.Bytes.{BytesCrate}
use mytunnel.Dash.{DashMap}
use mytunnel.Metrics.{Metrics, datagram_tx}
use mytunnel.Protocol.{encode_udp_packet, decode_udp_packet}
use mytunnel.Protocol.Udp.{wire, view, encode-wire, decode-wire}
use mytunnel.Proxy.Udp.{Network, Times, new_pool, relay_packet}
use mytunnel.Proxy.Udp
use mytunnel.Server.Stream.{format_target}
use mytunnel.Server.Datagram.{handle_datagram, respond, relay}

module _ (net : Network) (dash : DashMap net.Addr (net.Socket × ℕ)) where
  handle_datagram-wire :
      (t : Times) (m : Metrics) (host : Text) (port : ℕ) (payload : List ℕ)
      → is_utf8 host ≡ true
      → 0 < length host + length payload
      → handle_datagram net dash t m (wire host port payload)
        ≡ relay net dash t m port (length host) host payload
  unfolding handle_datagram relay
  handle_datagram-wire t m host port payload u n =
      let three : 3 + length host ≡ suc (suc (suc (length host))) = omega arith in
      let size = length-append host payload in
      rw
        (
          le→not_ltb (suc (suc (suc (length (host ++ payload))))) 4 (omega (arith, size)),
          le→not_ltb (suc (suc (suc (length (host ++ payload))))) (3 + length host)
              (omega (arith, size)),
          take-append host payload,
          u,
          from_be_bytes-div-mod port,
        )
        (rw (three, drop-append host payload) refl)

  -- A packet that the client encodes, for a host of at most 255 bytes of UTF-8 and a 16-bit port, is
  -- relayed to that host and port; when the relay brings a response, the server's datagram decodes at
  -- the client to the same host and port and that response. (The host may be empty only if neither the
  -- payload nor the response is.)
  pub handle_datagram-response :
      (bytes : BytesCrate) (t : Times) (m : Metrics) (host : Text) (port : ℕ)
      → (payload response : List ℕ) → is_utf8 host ≡ true
      → length host ≤ 255
      → IsU16 port
      → 0 < length host + length payload
      → 0 < length host + length response
      → (relay_packet net dash t (format_target host port) payload (new_pool net dash)).0
        ≡ ok response
      → (sent : List ℕ) × (reply : List ℕ) × (encode_udp_packet bytes host port payload ≡ ok sent)
        × ((handle_datagram net dash t m sent).sent ≡ some reply)
        × ((handle_datagram net dash t m sent).metrics ≡ datagram_tx m)
        × (view bytes (decode_udp_packet bytes (bytes.from_vec reply)) ≡ ok (host, port, response))
  unfolding relay respond
  handle_datagram-response bytes t m host port payload response u h p n r e =
      let short : length host % 256 ≡ length host = omega arith in
      (
        wire host port payload,
        wire host port response,
        encode-wire bytes host port payload h p,
        rw (handle_datagram-wire t m host port payload u n, e, short) refl,
        rw (handle_datagram-wire t m host port payload u n, e) refl,
        decode-wire bytes host port response u r,
      )

  -- When the relay fails, for whatever reason, the server sends nothing back, counts nothing and ends
  -- without an error.
  pub handle_datagram-silent :
      (t : Times) (m : Metrics) (host : Text) (port : ℕ) (payload : List ℕ) (e : Udp.Error)
      → is_utf8 host ≡ true
      → 0 < length host + length payload
      → (relay_packet net dash t (format_target host port) payload (new_pool net dash)).0 ≡ err e
      → handle_datagram net dash t m (wire host port payload)
        ≡ record { sent = none; metrics = m; result = ok tt }
  unfolding relay respond
  handle_datagram-silent t m host port payload e u n failed =
      rw (handle_datagram-wire t m host port payload u n, failed) refl
