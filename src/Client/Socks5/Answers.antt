-- ===== src/Client/Socks5/Answers.antt =====
-- What the handler of a SOCKS5 connection may say, whatever it reads.
use mytunnel.Prelude.{
  ℕ, ◌≡◌, ◌⊎◌, inl, inr, refl, Bool, false, not, ◌||◌, Option, none, some, List, [], ◌∷◌, ◌++◌,
  Text, get_or, contains, ◌==◌, is_ok, is_some, if-Holds, Bool-cases, Option-cases, Result-cases,
}
use mytunnel.Bytes.{BytesCrate}
use mytunnel.Protocol.Socks5.{
  SocketAddr, version, auth_none, auth_no_acceptable, cmd_connect, cmd_bind, cmd_udp_associate,
  atyp_ipv4, atyp_domain, atyp_ipv6, rep_success, zero_bind_addr_v4, encode_reply, parse_address,
}
use mytunnel.Server.Stream.{read_exact}
use mytunnel.Client.{TunnelEnv, Established, establish_tcp_tunnel}
use mytunnel.Client.Socks5.{
  LocalEnv, Handled, Error, handle_socks5_client, read_methods, choose_method, read_request,
  read_address, with_length, with_address, command, handle_connect, after_establish,
  handle_udp_associate, refuses,
}

-- Whether data was copied or an association was run.
abbrev pub runs : Handled → Bool
runs h = is_some h.proxied || is_some h.associated

module _ (bytes : BytesCrate) where
  -- Nothing after a failure, or one reply, which says success exactly after one.
  abbrev pub IsReply : List ℕ → Bool → Type 0
  IsReply sent succeeds =
      ((sent ≡ []) × (succeeds ≡ false))
      ⊎ ((status : ℕ) × (addr : SocketAddr) × (sent ≡ encode_reply bytes status addr)
          × (succeeds ≡ (status == rep_success)))

  -- What is written behind the method selection, and what is done.
  abbrev Replies : Handled → Type 0
  Replies h = IsReply h.sent (is_ok h.result) × (is_ok h.result ≡ runs h)

  -- All that is written, and what is done: nothing, or the refusal of every method, or the choice of no
  -- authentication and behind it at most one reply.
  abbrev pub Answers : Handled → Type 0
  Answers h =
      (is_ok h.result ≡ runs h)
      × (((h.sent ≡ []) × (is_ok h.result ≡ false))
          ⊎ (((h.sent ≡ version ∷ auth_no_acceptable ∷ []) × (is_ok h.result ≡ false))
              ⊎ ((reply : List ℕ) × (h.sent ≡ version ∷ auth_none ∷ reply)
                  × IsReply reply (is_ok h.result))))

  refuses-Replies :
      (loc : LocalEnv) (status : ℕ) (request : Option (List ℕ)) (e : Error)
      → (status == rep_success) ≡ false
      → Replies (refuses bytes loc status request e)
  unfolding refuses
  refuses-Replies loc status request e failure = elim (Bool-cases loc.replies) [
    | inl q ↦ rw q (inr (status, zero_bind_addr_v4, refl, rw failure refl), refl)
    | inr q ↦ rw q (inl (refl, refl), refl)
  ]

  handle_udp_associate-Replies : (loc : LocalEnv) → Replies (handle_udp_associate bytes loc)
  unfolding handle_udp_associate
  handle_udp_associate-Replies loc = elim (Bool-cases loc.associates) [
    | inl q ↦ elim (Option-cases loc.local_addr) [
      | inl missing ↦ rw (q, missing) (inl (refl, refl), refl)
      | inr (addr, bound) ↦ elim (Bool-cases loc.replies) [
        | inl writes ↦ rw (q, bound, writes) (inr (rep_success, addr, refl, refl), refl)
        | inr unwritten ↦ rw (q, bound, unwritten) (inl (refl, refl), refl)
      ]
    ]
    | inr q ↦ rw q (refuses-Replies loc _ _ _ refl)
  ]

  module _ (show_ipv6 : Text → Text) (loc : LocalEnv) (env : TunnelEnv) where
    after_establish-Replies :
        (rest : List ℕ) (e : Established) → Replies (after_establish bytes show_ipv6 loc env rest e)
    unfolding after_establish
    after_establish-Replies rest e = elim (Result-cases e.result) [
      | inl (u, q) ↦ elim (Bool-cases loc.replies) [
        | inl writes ↦ rw (q, writes) (inr (rep_success, zero_bind_addr_v4, refl, refl), refl)
        | inr unwritten ↦ rw (q, unwritten) (inl (refl, refl), refl)
      ]
      | inr (why, q) ↦ rw q (refuses-Replies loc _ _ _ refl)
    ]

    handle_connect-Replies :
        (rest : List ℕ) (host : Text) (port : ℕ)
        → Replies (handle_connect bytes show_ipv6 loc env rest host port)
    unfolding handle_connect
    handle_connect-Replies rest host port =
        if-Holds Replies env.opens
          (after_establish-Replies rest (establish_tcp_tunnel bytes env host port))
          (refuses-Replies loc _ _ _ refl)

    command-Replies :
        (cmd : ℕ) (host : Text) (port : ℕ) (rest : List ℕ)
        → Replies (command bytes show_ipv6 loc env cmd host port rest)
    unfolding command
    command-Replies cmd host port rest =
        if-Holds Replies (cmd == cmd_connect) (handle_connect-Replies rest host port) (
          if-Holds Replies (cmd == cmd_udp_associate) (handle_udp_associate-Replies loc) (
            if-Holds Replies (cmd == cmd_bind) (refuses-Replies loc _ _ _ refl)
              (refuses-Replies loc _ _ _ refl)))

    with_address-Replies :
        (cmd : ℕ) (start : List ℕ) (o : Option (List ℕ × List ℕ))
        → Replies (with_address bytes show_ipv6 loc env cmd start o)
    unfolding with_address
    with_address-Replies cmd start none = (inl (refl, refl), refl)
    with_address-Replies cmd start (some (buf, rest)) =
        elim (Result-cases (parse_address bytes show_ipv6 (bytes.from_vec (start ++ buf)))) [
          | inl (((host, port), left), q) ↦
              rw (q, with_address) (command-Replies cmd host port rest)
          | inr (e, q) ↦ rw (q, with_address) (inl (refl, refl), refl)
        ]

    with_length-Replies :
        (cmd : ℕ) (o : Option (List ℕ × List ℕ))
        → Replies (with_length bytes show_ipv6 loc env cmd o)
    unfolding with_length
    with_length-Replies cmd none = (inl (refl, refl), refl)
    with_length-Replies cmd (some (len_buf, rest)) =
        with_address-Replies cmd (atyp_domain ∷ len_buf) _

    read_request-Replies :
        (o : Option (List ℕ × List ℕ)) → Replies (read_request bytes show_ipv6 loc env o)
    unfolding read_request read_address
    read_request-Replies none = (inl (refl, refl), refl)
    read_request-Replies (some (header, rest)) =
        let cmd = get_or header 1 0 in
        let atyp = get_or header 3 0 in
        if-Holds Replies (get_or header 0 0 == version)
          (if-Holds Replies (atyp == atyp_ipv4)
            (with_address-Replies cmd (atyp ∷ []) (read_exact 6 rest))
            (if-Holds Replies (atyp == atyp_domain) (with_length-Replies cmd (read_exact 1 rest)) (
              if-Holds Replies (atyp == atyp_ipv6)
                (with_address-Replies cmd (atyp ∷ []) (read_exact 18 rest))
                (refuses-Replies loc _ _ _ refl))))
          (inl (refl, refl), refl)

    choose_method-Answers :
        (o : Option (List ℕ × List ℕ)) → Answers (choose_method bytes show_ipv6 loc env o)
    unfolding choose_method
    choose_method-Answers none = (refl, inl (refl, refl))
    choose_method-Answers (some (methods, rest)) =
        let (reply, done) = read_request-Replies (read_exact 4 rest) in
        if-Holds Answers (not loc.selects) (refl, inl (refl, refl))
          (if-Holds Answers (contains methods auth_none) (done, inr (inr (_, refl, reply)))
            (refl, inr (inl (refl, refl))))

    read_methods-Answers :
        (o : Option (List ℕ × List ℕ)) → Answers (read_methods bytes show_ipv6 loc env o)
    unfolding read_methods
    read_methods-Answers none = (refl, inl (refl, refl))
    read_methods-Answers (some (header, rest)) =
        if-Holds Answers (get_or header 0 0 == version)
          (choose_method-Answers (read_exact (get_or header 1 0) rest)) (refl, inl (refl, refl))

    -- Whatever bytes the local client sends, and whatever the tunnel does, the handler writes nothing, or
    -- that no method is acceptable, or the choice of no authentication and behind it at most one reply.
    -- The reply says success exactly if the handler succeeds, and it succeeds exactly if it has copied
    -- data or run an association.
    pub handle_socks5_client-Answers :
        (incoming : List ℕ) → Answers (handle_socks5_client bytes show_ipv6 loc env incoming)
    unfolding handle_socks5_client
    handle_socks5_client-Answers incoming = read_methods-Answers (read_exact 2 incoming)
