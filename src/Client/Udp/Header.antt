-- ===== src/Client/Udp/Header.antt =====
-- The header of a SOCKS5 UDP datagram (RFC 1928, section 7), and that `read_header` reads it.
use mytunnel.Prelude.{
  ℕ, zero, suc, ◌+◌, ◌≤◌, ◌≡◌, refl, ap, ◌∙◌, subst, some, List, [], ◌∷◌, ◌++◌, append_assoc,
  length, take, drop, get_or, arith, Text, to_be_bytes, from_be_bytes-div-mod, length-append,
  take-append, drop-append, le→not_ltb,
}
use mytunnel.Protocol.Socks5.{show_octets, show_ipv4}
use mytunnel.Protocol.Socks5.Address.{
  Address, ipv4, domain, ipv6, type_byte, body, IsAddress, shown,
}
use mytunnel.Client.Udp.{read_header}

-- Two reserved bytes, the fragment 0, the address, the port and the payload.
abbrev pub datagram : Address → ℕ → List ℕ → List ℕ
datagram a port payload = 0 ∷ 0 ∷ 0 ∷ type_byte a ∷ (body a ++ to_be_bytes port) ++ payload

get_or-append :
    (xs ys : List ℕ) (i n d : ℕ) → length xs + i ≡ n → get_or (xs ++ ys) n d ≡ get_or ys i d
get_or-append [] ys i n d e = let same : n ≡ i = omega arith in ap (λ k. get_or ys k d) same
get_or-append (x ∷ xs) ys i zero d e = absurd (omega arith)
get_or-append (x ∷ xs) ys i (suc n) d e = get_or-append xs ys i n d (omega arith)

drop-append_at : (n : ℕ) (xs ys : List ℕ) → length xs ≡ n → drop n (xs ++ ys) ≡ ys
drop-append_at n xs ys e = subst (λ k. drop k (xs ++ ys) ≡ ys) e (drop-append xs ys)

take-append_at : (n : ℕ) (xs ys : List ℕ) → length xs ≡ n → take n (xs ++ ys) ≡ xs
take-append_at n xs ys e = subst (λ k. take k (xs ++ ys) ≡ xs) e (take-append xs ys)

-- What `read_header` finds, and the payload behind it.
abbrev pub Reads : (Text → Text) → List ℕ → Text → ℕ → List ℕ → Type 0
Reads show_ipv6 buf host port payload =
    (start : ℕ) × (read_header show_ipv6 buf ≡ some ((host, port), start))
    × (drop start buf ≡ payload)

module _ (show_ipv6 : Text → Text) where
  -- A header in the format of RFC 1928, not fragmented, is read: its host as text, its port, and the
  -- payload behind it. A name has to be UTF-8 of at most 255 bytes, an IPv6 address to have sixteen
  -- octets, and the datagram at least ten bytes.
  pub read_header-datagram :
      (a : Address) (port : ℕ) (payload : List ℕ)
      → IsAddress a
      → 10 ≤ length (datagram a port payload)
      → Reads show_ipv6 (datagram a port payload) (shown show_ipv6 a) port payload
  unfolding read_header show_octets show_ipv4
  read_header-datagram (ipv4 w x y z) port payload v long =
      (10, rw (le→not_ltb _ 10 long, from_be_bytes-div-mod port) refl, refl)
  read_header-datagram (domain host) port payload v long =
      let front = 0 ∷ 0 ∷ 0 ∷ 0x03 ∷ length host ∷ host in
      let behind = to_be_bytes port ++ payload in
      let size = length-append (host ++ to_be_bytes port) payload in
      let size' = length-append host (to_be_bytes port) in
      let whole = front ++ behind in
      let same : datagram (domain host) port payload ≡ whole =
        ap (λ (r : List ℕ). 0 ∷ 0 ∷ 0 ∷ 0x03 ∷ length host ∷ r)
          (append_assoc host (to_be_bytes port) payload) in
      (
        5 + length host + 2,
        ap (read_header show_ipv6) same
            ∙ rw
                (
                  le→not_ltb (length whole) 10 (subst (λ (b : List ℕ). 10 ≤ length b) same long),
                  le→not_ltb (length whole) (7 + length host)
                      (omega (arith, length-append host behind)),
                  take-append host behind,
                  v.1,
                  get_or-append front behind 0 (5 + length host) 0 (omega arith),
                  get_or-append front behind 1 (5 + length host + 1) 0 (omega arith),
                  from_be_bytes-div-mod port,
                )
                refl,
        drop-append_at (5 + length host + 2)
            (0 ∷ 0 ∷ 0 ∷ 0x03 ∷ length host ∷ host ++ to_be_bytes port) payload
            (omega (arith, size')),
      )
  read_header-datagram (ipv6 octets) port payload v long =
      let front = 0 ∷ 0 ∷ 0 ∷ 0x04 ∷ octets in
      let behind = to_be_bytes port ++ payload in
      let whole = front ++ behind in
      let same : datagram (ipv6 octets) port payload ≡ whole =
        ap (λ (r : List ℕ). 0 ∷ 0 ∷ 0 ∷ 0x04 ∷ r)
          (append_assoc octets (to_be_bytes port) payload) in
      (
        22,
        ap (read_header show_ipv6) same
            ∙ rw
                (
                  le→not_ltb (length whole) 10 (subst (λ (b : List ℕ). 10 ≤ length b) same long),
                  le→not_ltb (length whole) 22 (omega (arith, length-append octets behind, v)),
                  take-append_at 16 octets behind v,
                  get_or-append front behind 0 20 0 (omega (arith, v)),
                  get_or-append front behind 1 21 0 (omega (arith, v)),
                  from_be_bytes-div-mod port,
                )
                refl,
        drop-append_at 22 (0 ∷ 0 ∷ 0 ∷ 0x04 ∷ octets ++ to_be_bytes port) payload
            (omega (arith, length-append octets (to_be_bytes port), v)),
      )
