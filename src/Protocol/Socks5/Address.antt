-- ===== src/Protocol/Socks5/Address.antt =====
-- The SOCKS5 address format (RFC 1928), and that `parse_address` reads it.
use mytunnel.Prelude.{
  ℕ, ◌≤◌, ◌/◌, ◌%◌, ◌≡◌, refl, sym, ◌∙◌, true, List, [], ◌∷◌, ◌++◌, length, arith, Text, is_utf8,
  to_be_bytes, IsU16, ok, length-append, from_be_bytes-div-mod, le→not_ltb, append_assoc,
  append-nil, suc, subst, suc_eq_zero,
}
use mytunnel.Bytes.{BytesCrate, copy_to_bytes-append, copy_to_slice-append}
use mytunnel.Protocol.Socks5.{
  SocketAddr, v4, v6, atyp_ipv4, atyp_domain, atyp_ipv6, show_octets, show_ipv4, parse_host,
  parse_address, encode_reply, version,
}

-- The three kinds of address.
pub data Address : Type 0 where
  ipv4 : ℕ → ℕ → ℕ → ℕ → Address
  domain : Text → Address
  ipv6 : List ℕ → Address

abbrev pub type_byte : Address → ℕ
type_byte (ipv4 a b c d) = atyp_ipv4
type_byte (domain host) = atyp_domain
type_byte (ipv6 octets) = atyp_ipv6

-- The bytes behind the type byte.
abbrev pub body : Address → List ℕ
body (ipv4 a b c d) = a ∷ b ∷ c ∷ d ∷ []
body (domain host) = length host ∷ host
body (ipv6 octets) = octets

-- A name is UTF-8 of at most 255 bytes; an IPv6 address has sixteen octets.
abbrev pub IsAddress : Address → Type 0
IsAddress (ipv4 a b c d) = Unit {0}
IsAddress (domain host) = (length host ≤ 255) × (is_utf8 host ≡ true)
IsAddress (ipv6 octets) = length octets ≡ 16

-- The host that the address stands for, as text.
abbrev pub shown : (Text → Text) → Address → Text
shown show_ipv6 (ipv4 a b c d) = show_ipv4 a b c d
shown show_ipv6 (domain host) = host
shown show_ipv6 (ipv6 octets) = show_ipv6 octets

abbrev pub address_bytes : Address → ℕ → List ℕ
address_bytes a port = type_byte a ∷ body a ++ to_be_bytes port

module _ (bytes : BytesCrate) (show_ipv6 : Text → Text) where
  open bytes use {Buf, contents, from_vec}

  parse_host_lem :
      (a : Address) (b : Buf) (rest : List ℕ)
      → IsAddress a
      → contents b ≡ body a ++ rest
      → (q : Buf) × (parse_host bytes show_ipv6 (type_byte a) b ≡ ok (shown show_ipv6 a, q))
        × (contents q ≡ rest)
  unfolding parse_host show_octets show_ipv4
  parse_host_lem (ipv4 w x y z) b rest v e =
      let c = copy_to_slice-append bytes b (w ∷ x ∷ y ∷ z ∷ []) rest e in
      (
        (bytes.copy_to_slice 4 b).1,
        rw
            (
              bytes.remaining_lem b,
              e,
              le→not_ltb (length (w ∷ x ∷ y ∷ z ∷ rest)) 4 (omega arith),
              c.0,
            )
            refl,
        c.1,
      )
  parse_host_lem (domain host) b rest v e =
      let l = bytes.get_u8_lem b (length host) (host ++ rest) e in
      let after = (bytes.get_u8 b).1 in
      let c = copy_to_bytes-append bytes after host rest l.1 in
      (
        (bytes.copy_to_bytes (length host) after).1,
        rw
            (
              bytes.remaining_lem b,
              e,
              suc_eq_zero (length (host ++ rest)),
              l.0,
              bytes.remaining_lem after,
              l.1,
              le→not_ltb (length (host ++ rest)) (length host)
                  (omega (arith, length-append host rest)),
              c.0,
              v.1,
            )
            refl,
        c.1,
      )
  parse_host_lem (ipv6 octets) b rest v e =
      let c =
        subst
          (λ n.
            ((bytes.copy_to_slice n b).0 ≡ octets) × (contents (bytes.copy_to_slice n b).1 ≡ rest))
          v (copy_to_slice-append bytes b octets rest e) in
      (
        (bytes.copy_to_slice 16 b).1,
        rw
            (
              bytes.remaining_lem b,
              e,
              le→not_ltb (length (octets ++ rest)) 16 (omega (arith, v, length-append octets rest)),
              c.0,
            )
            refl,
        c.1,
      )

  -- `parse_address` reads an address and a port, in the format of RFC 1928, whatever follows them: it
  -- returns the host as text and the port, and leaves what follows. A name has to be UTF-8 of at most
  -- 255 bytes, an IPv6 address to have sixteen octets.
  pub parse_address_lem :
      (a : Address) (port : ℕ) (rest : List ℕ) (b : Buf)
      → IsAddress a
      → contents b ≡ address_bytes a port ++ rest
      → (q : Buf) × (parse_address bytes show_ipv6 b ≡ ok ((shown show_ipv6 a, port), q))
        × (contents q ≡ rest)
  unfolding parse_address
  parse_address_lem a port rest b v e =
      let t = bytes.get_u8_lem b (type_byte a) ((body a ++ to_be_bytes port) ++ rest) e in
      let (q, parsed, left) =
        parse_host_lem a (bytes.get_u8 b).1 (to_be_bytes port ++ rest) v
          (t.1 ∙ append_assoc (body a) (to_be_bytes port) rest) in
      let p = bytes.get_u16_lem q (port / 256) (port % 256) rest left in
      (
        (bytes.get_u16 q).1,
        rw
            (
              bytes.remaining_lem b,
              e,
              suc_eq_zero (length ((body a ++ to_be_bytes port) ++ rest)),
              t.0,
              parsed,
              bytes.remaining_lem q,
              left,
              le→not_ltb (suc (suc (length rest))) 2 (omega arith),
              p.0,
              from_be_bytes-div-mod port,
            )
            refl,
        p.1,
      )

-- The address that a reply carries.
abbrev pub address_of : SocketAddr → Address
address_of (v4 a b c d port) = ipv4 a b c d
address_of (v6 octets port) = ipv6 octets

abbrev pub port_of : SocketAddr → ℕ
port_of (v4 a b c d port) = port
port_of (v6 octets port) = port

module _ (bytes : BytesCrate) (show_ipv6 : Text → Text) where
  encode_reply_bytes :
      (status : ℕ) (addr : SocketAddr)
      → IsU16 (port_of addr)
      → encode_reply bytes status addr
        ≡ version ∷ status ∷ 0x00 ∷ address_bytes (address_of addr) (port_of addr)
  unfolding encode_reply
  encode_reply_bytes status (v4 a b c d port) p = bytes.put_u16_lem _ port p
  encode_reply_bytes status (v6 octets port) p = bytes.put_u16_lem _ port p

  -- A reply is the version, the status, a zero byte, and an address that `parse_address` reads back
  -- as the bound address and port, with nothing behind it. The port is a 16-bit number, and an IPv6
  -- address has sixteen octets.
  pub parse_address-encode_reply :
      (status : ℕ) (addr : SocketAddr)
      → IsAddress (address_of addr)
      → IsU16 (port_of addr)
      → (tail : List ℕ) × (q : bytes.Buf) × (encode_reply bytes status addr
          ≡ version ∷ status ∷ 0x00 ∷ tail)
        × (parse_address bytes show_ipv6 (bytes.from_vec tail)
            ≡ ok ((shown show_ipv6 (address_of addr), port_of addr), q))
        × (bytes.contents q ≡ [])
  parse_address-encode_reply status addr v p =
      let tail = address_bytes (address_of addr) (port_of addr) in
      let (q, parsed, left) =
        parse_address_lem bytes show_ipv6 (address_of addr) (port_of addr) [] (bytes.from_vec tail)
          v (bytes.contents-from_vec tail ∙ sym (append-nil tail)) in
      (tail, q, encode_reply_bytes status addr p, parsed, left)
