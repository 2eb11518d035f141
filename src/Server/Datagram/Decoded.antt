-- ===== src/Server/Datagram/Decoded.antt =====
-- The server's reading of a datagram, which acceptor.rs writes out, is that of the client's decoder in
-- mytunnel-client/src/protocol.rs.
use mytunnel.Prelude.{
  ℕ, suc, ◌+◌, ◌≤◌, ◌≡◌, refl, sym, ap, ◌∙◌, true, false, Bool-cases, inl, inr, List, [], ◌∷◌,
  length, length-take, take, arith, Text, is_utf8, ltb, le→not_ltb, Result, ok, err,
}
use mytunnel.Bytes.{BytesCrate}
use mytunnel.Dash.{DashMap}
use mytunnel.Metrics.{Metrics}
use mytunnel.Protocol.{decode_udp_packet}
use mytunnel.Protocol
use mytunnel.Protocol.Udp.{parse_packet, view, decode-parse}
use mytunnel.Proxy.Udp.{Network, Times}
use mytunnel.Server.Datagram.{Handled, silent, relay, handle_datagram, invalid_utf8}

module _ (net : Network) (dash : DashMap net.Addr (net.Socket × ℕ)) (t : Times) (m : Metrics) where
  -- The handler, given what the decoder makes of the datagram: a packet is relayed, a datagram that is
  -- no packet is ignored, and a host that is not UTF-8 is an error.
  abbrev pub handle_decoded : Result Protocol.Error (Text × ℕ × List ℕ) → Handled
  handle_decoded (ok (host, port, payload)) = relay net dash t m port (length host) host payload
  handle_decoded (err Protocol.invalid_utf8) = silent m (err invalid_utf8)
  handle_decoded (err _) = silent m (ok tt)

  handle_datagram-parse :
      (xs : List ℕ) → handle_datagram net dash t m xs ≡ handle_decoded (parse_packet xs)
  unfolding handle_datagram parse_packet relay
  handle_datagram-parse [] = refl
  handle_datagram-parse (x ∷ []) = refl
  handle_datagram-parse (x ∷ y ∷ []) = refl
  handle_datagram-parse (x ∷ y ∷ z ∷ []) = refl
  handle_datagram-parse (hi ∷ lo ∷ len ∷ x ∷ rest) =
      let long = le→not_ltb (suc (suc (suc (suc (length rest))))) 4 (omega arith) in
      elim (Bool-cases (ltb (suc (length rest)) len)) [
        | inl q ↦
            let short : ltb (suc (suc (suc (suc (length rest))))) (3 + len) ≡ true = ground arith in
            rw (long, short, q) refl
        | inr q ↦
            let fits : ltb (suc (suc (suc (suc (length rest))))) (3 + len) ≡ false = ground arith in
            let fitting : len ≤ suc (length rest) = ground arith in
            let three : 3 + len ≡ suc (suc (suc len)) = omega arith in
            let size : length (take len (x ∷ rest)) ≡ len =
              omega (arith, length-take len (x ∷ rest), fitting) in
            elim (Bool-cases (is_utf8 (take len (x ∷ rest)))) [
              | inl u ↦ rw (long, fits, q, u) (rw (three, size) refl)
              | inr u ↦ rw (long, fits, q, u) refl
            ]
      ]

  -- The handler reads a datagram as the client's decoder does, for every datagram.
  pub handle_datagram-decode_udp_packet :
      (bytes : BytesCrate) (xs : List ℕ)
      → handle_datagram net dash t m xs
        ≡ handle_decoded (view bytes (decode_udp_packet bytes (bytes.from_vec xs)))
  handle_datagram-decode_udp_packet bytes xs =
      handle_datagram-parse xs
      ∙ ap handle_decoded
          (sym (decode-parse bytes (bytes.from_vec xs) xs (bytes.contents-from_vec xs)))
