-- ===== src/Protocol/Udp.antt =====
-- UDP packets: what is encoded decodes to what went in, and nothing else decodes.
use mytunnel.Prelude.{
  ℕ, suc, ◌+◌, ◌≤◌, ◌<◌, ◌%◌, ◌/◌, ◌≡◌, refl, sym, ap, ap₂, ◌∙◌, inl, inr, true, false, List, [],
  ◌∷◌, ◌++◌, length, take, drop, All, arith, Text, is_utf8, from_be_bytes, IsU16, IsByte, Result,
  ok, err, ltb, take-append, drop-append, take-append-drop, length-append, length-take,
  from_be_bytes-div-mod, from_be_bytes-IsU16, Bool-cases, le→not_ltb, ◌>>=◌, if◌then◌else◌,
}
use mytunnel.Bytes.{BytesCrate}
use mytunnel.Protocol.{
  Error, UdpPacket, packet_too_short, packet_truncated, invalid_utf8, encode_udp_packet,
  decode_udp_packet,
}

-- The wire format read from a list: [port, 2 bytes][host length][host][payload].
unfoldable pub parse_packet : List ℕ → Result Error (Text × ℕ × List ℕ)
parse_packet (hi ∷ lo ∷ len ∷ x ∷ rest) =
    if ltb (length (x ∷ rest)) len
    then err (packet_truncated len)
    else if is_utf8 (take len (x ∷ rest))
    then ok (take len (x ∷ rest), from_be_bytes hi lo, drop len (x ∷ rest))
    else err invalid_utf8
parse_packet _ = err packet_too_short

-- The bytes of a packet.
abbrev pub wire : Text → ℕ → List ℕ → List ℕ
wire host port payload = port / 256 ∷ port % 256 ∷ length host ∷ host ++ payload

parse_packet-body :
    (host : Text) (port : ℕ) (body payload : List ℕ)
    → host ++ payload ≡ body
    → is_utf8 host ≡ true
    → 0 < length body
    → parse_packet (port / 256 ∷ port % 256 ∷ length host ∷ body) ≡ ok (host, port, payload)
unfolding parse_packet
parse_packet-body host port [] payload e u n = absurd (omega arith)
parse_packet-body host port (x ∷ rest) payload e u n =
    let front : take (length host) (x ∷ rest) ≡ host =
      ap (take (length host)) (sym e) ∙ take-append host payload in
    let back : drop (length host) (x ∷ rest) ≡ payload =
      ap (drop (length host)) (sym e) ∙ drop-append host payload in
    let fits : ltb (suc (length rest)) (length host) ≡ false =
      le→not_ltb _ _ (omega (arith, ap length e, length-append host payload)) in
    rw (fits, front, back, u, from_be_bytes-div-mod port) refl

parse_packet-inverse :
    (xs : List ℕ) (host : Text) (port : ℕ) (payload : List ℕ)
    → All IsByte xs
    → parse_packet xs ≡ ok (host, port, payload)
    → (xs ≡ wire host port payload) × (length host ≤ 255) × IsU16 port × (is_utf8 host ≡ true)
unfolding parse_packet
parse_packet-inverse [] host port payload all e = cc
parse_packet-inverse (x ∷ []) host port payload all e = cc
parse_packet-inverse (x ∷ y ∷ []) host port payload all e = cc
parse_packet-inverse (x ∷ y ∷ z ∷ []) host port payload all e = cc
parse_packet-inverse (hi ∷ lo ∷ len ∷ x ∷ rest) host port payload all e =
    let fits : len ≤ suc (length rest) = ground arith in
    let hd : take len (x ∷ rest) ≡ host = ground arith in
    let tl : drop len (x ∷ rest) ≡ payload = ground arith in
    let pt : from_be_bytes hi lo ≡ port = ground arith in
    let n : len ≡ length host = omega (arith, ap length hd, length-take len (x ∷ rest)) in
    let split : host ++ payload ≡ x ∷ rest =
      ap₂ ◌++◌ (sym hd) (sym tl) ∙ take-append-drop len (x ∷ rest) in
    let high : hi ≡ from_be_bytes hi lo / 256 = omega (arith, all.1.0) in
    let low : lo ≡ from_be_bytes hi lo % 256 = omega (arith, all.1.0) in
    (
      rw (split, ← pt, ← n) (ap₂ (λ a b. a ∷ b ∷ len ∷ x ∷ rest) high low),
      omega arith,
      rw (← pt) (from_be_bytes-IsU16 hi lo all.0 all.1.0),
      ground arith,
    )

module _ (bytes : BytesCrate) where
  open bytes use {Buf, contents, from_vec}

  -- A host of at most 255 bytes is encoded as port, length, host and payload.
  pub encode-wire :
      (host : Text) (port : ℕ) (payload : List ℕ)
      → length host ≤ 255
      → IsU16 port
      → encode_udp_packet bytes host port payload ≡ ok (wire host port payload)
  unfolding encode_udp_packet
  encode-wire host port payload h p =
      let e : length host % 256 ≡ length host = omega arith in
      rw (le→not_ltb 255 (length host) h, bytes.put_u16_lem [] port p, e)

  -- What a decoded packet says: the host, the port and the bytes of the payload.
  abbrev pub view : Result Error (UdpPacket bytes) → Result Error (Text × ℕ × List ℕ)
  view r = r >>= λ p. ok (p.host, p.port, contents p.payload)

  decode-after_header :
      (b : Buf) (hi lo len x : ℕ) (rest : List ℕ)
      → contents b ≡ hi ∷ lo ∷ len ∷ x ∷ rest
      → view (decode_udp_packet bytes b) ≡ parse_packet (hi ∷ lo ∷ len ∷ x ∷ rest)
  unfolding decode_udp_packet parse_packet
  decode-after_header b hi lo len x rest e =
      let p = bytes.get_u16_lem b hi lo (len ∷ x ∷ rest) e in
      let l = bytes.get_u8_lem (bytes.get_u16 b).1 len (x ∷ rest) p.1 in
      let after = (bytes.get_u8 (bytes.get_u16 b).1).1 in
      let four : ltb (length (contents b)) 4 ≡ false = rw e (le→not_ltb _ 4 (omega arith)) in
      elim (Bool-cases (ltb (suc (length rest)) len)) [
        | inl short ↦
            rw (bytes.remaining_lem b, four, bytes.remaining_lem after, l.1, l.0, short) refl
        | inr fits ↦
            let c = bytes.copy_to_bytes_lem len after (rw l.1 (ground arith)) in
            rw (bytes.remaining_lem b, four, bytes.remaining_lem after, l.1, l.0, fits, c.0, l.1)
              (ground (arith, p.0, c.1 ∙ ap (drop len) l.1))
      ]

  -- The decoder, which reads a buffer piece by piece, agrees with the parser of the wire format.
  pub decode-parse :
      (b : Buf) (xs : List ℕ) → contents b ≡ xs → view (decode_udp_packet bytes b) ≡ parse_packet xs
  unfolding decode_udp_packet parse_packet
  decode-parse b [] e = rw (bytes.remaining_lem b, e)
  decode-parse b (x ∷ []) e = rw (bytes.remaining_lem b, e)
  decode-parse b (x ∷ y ∷ []) e = rw (bytes.remaining_lem b, e)
  decode-parse b (x ∷ y ∷ z ∷ []) e = rw (bytes.remaining_lem b, e)
  decode-parse b (hi ∷ lo ∷ len ∷ x ∷ rest) e = decode-after_header b hi lo len x rest e

  -- The bytes of a packet decode to what the packet was made of.
  pub decode-wire :
      (host : Text) (port : ℕ) (payload : List ℕ)
      → is_utf8 host ≡ true
      → 0 < length host + length payload
      → view (decode_udp_packet bytes (from_vec (wire host port payload)))
        ≡ ok (host, port, payload)
  decode-wire host port payload u n =
      decode-parse _ _ (bytes.contents-from_vec (wire host port payload))
      ∙ parse_packet-body host port (host ++ payload) payload refl u
          (omega (arith, length-append host payload))

  -- Encoding a packet and decoding the bytes gives back its host, port and payload, for a host that is
  -- UTF-8 of at most 255 bytes, a 16-bit port, and a host and payload that are not both empty.
  pub decode-encode_udp_packet :
      (host : Text) (port : ℕ) (payload : List ℕ)
      → is_utf8 host ≡ true
      → length host ≤ 255
      → IsU16 port
      → 0 < length host + length payload
      → (encode_udp_packet bytes host port payload >>= λ sent.
          view (decode_udp_packet bytes (from_vec sent)))
        ≡ ok (host, port, payload)
  decode-encode_udp_packet host port payload u h p n =
      rw (encode-wire host port payload h p) (decode-wire host port payload u n)

  -- A packet of an empty host and an empty payload is encoded, and the decoder refuses it as too short.
  pub decode-encode_empty :
      (port : ℕ)
      → IsU16 port
      → (encode_udp_packet bytes [] port [] >>= λ sent.
          view (decode_udp_packet bytes (from_vec sent)))
        ≡ err packet_too_short
  unfolding parse_packet
  decode-encode_empty port p =
      rw (encode-wire [] port [] (omega arith) p)
        (decode-parse _ _ (bytes.contents-from_vec (wire [] port [])))

  -- Only packets decode: numbers below 256 that decode are what encoding the result gives, and the
  -- host that was read is UTF-8.
  pub encode-decode_udp_packet :
      (b : Buf) (p : UdpPacket bytes)
      → All IsByte (contents b)
      → decode_udp_packet bytes b ≡ ok p
      → (encode_udp_packet bytes p.host p.port (contents p.payload) ≡ ok (contents b))
        × (is_utf8 p.host ≡ true)
  encode-decode_udp_packet b p all e =
      let parsed : parse_packet (contents b) ≡ ok (p.host, p.port, contents p.payload) =
        sym (decode-parse b (contents b) refl) ∙ ap view e in
      let inv = parse_packet-inverse (contents b) p.host p.port (contents p.payload) all parsed in
      (encode-wire p.host p.port (contents p.payload) inv.1 inv.2 ∙ ap ok (sym inv.0), inv.3)
