-- ===== src/Client/Http/Answers.antt =====
-- What the handler of an HTTP connection may say, whatever it reads.
use mytunnel.Prelude.{
  ℕ, ◌≡◌, ◌⊎◌, inl, inr, refl, Bool, true, false, Option, List, [], ◌∷◌, Text, text, ok, is_ok,
  is_some, if-Holds, is_utf8, Result-cases, join_lines, split_whitespace, lines_of, text_eq,
}
use mytunnel.Bytes.{BytesCrate}
use mytunnel.Client.{TunnelEnv, Established, establish_tcp_tunnel}
use mytunnel.Client.Http.{
  Handled, Error, handle_http_client, by_line, by_words, connects, tunnel_to, after_establish,
  refuses, fails, error_response, established_response, parse_connect_target, skip_headers,
}

-- All that the handler itself writes, and what is done: nothing or one error response, and nothing is
-- copied and it fails; or the established response, and then data is copied and it succeeds.
abbrev pub Answers : Handled → Type 0
Answers h =
    ((is_some h.proxied ≡ false)
      × (is_ok h.result ≡ false)
      × ((h.sent ≡ [])
          ⊎ ((status : ℕ) × (message : Text) × (h.sent ≡ error_response status message))))
    ⊎ ((h.sent ≡ established_response)
        × (is_some h.proxied ≡ true)
        × (is_some h.request ≡ true)
        × (h.result ≡ ok tt))

fails-Answers : (e : Error) → Answers (fails e)
fails-Answers e = inl (refl, refl, inl refl)

refuses-Answers :
    (acks : Bool) (status : ℕ) (message : Text) (request : Option (List ℕ)) (e : Error)
    → Answers (refuses acks status message request e)
unfolding refuses
refuses-Answers true status message request e = inl (refl, refl, inr (status, message, refl))
refuses-Answers false status message request e = inl (refl, refl, inl refl)

module _ (bytes : BytesCrate) (acks : Bool) (env : TunnelEnv) where
  after_establish-Answers :
      (rest : List ℕ) (e : Established) → Answers (after_establish bytes acks env rest e)
  unfolding after_establish
  after_establish-Answers rest e = elim (Result-cases e.result) [
    | inl (u, q) ↦
        rw q (if-Holds Answers acks (inr (refl, refl, refl, refl)) (inl (refl, refl, inl refl)))
    | inr (why, q) ↦ rw q (refuses-Answers acks _ _ _ _)
  ]

  tunnel_to-Answers :
      (rest : List ℕ) (host : Text) (port : ℕ) → Answers (tunnel_to bytes acks env rest host port)
  unfolding tunnel_to
  tunnel_to-Answers rest host port =
      if-Holds Answers env.opens
        (after_establish-Answers rest (establish_tcp_tunnel bytes env host port))
        (refuses-Answers acks _ _ _ _)

  connects-Answers :
      (target : Text) (headers : List Text) → Answers (connects bytes acks env target headers)
  unfolding connects
  connects-Answers target headers = elim (Result-cases (parse_connect_target target)) [
    | inl ((host, port), q) ↦ elim (Result-cases (skip_headers headers)) [
      | inl (rest, q') ↦ rw (q, q', connects) (tunnel_to-Answers (join_lines rest) host port)
      | inr (e, q') ↦ rw (q, q', connects) (fails-Answers e)
    ]
    | inr (e, q) ↦ rw (q, connects) (fails-Answers e)
  ]

  by_words-Answers : (words headers : List Text) → Answers (by_words bytes acks env words headers)
  unfolding by_words
  by_words-Answers [] headers = refuses-Answers acks _ _ _ _
  by_words-Answers (method ∷ []) headers = refuses-Answers acks _ _ _ _
  by_words-Answers (method ∷ target ∷ []) headers = refuses-Answers acks _ _ _ _
  by_words-Answers (method ∷ target ∷ version ∷ more) headers =
      if-Holds Answers (text_eq method (text "CONNECT")) (connects-Answers target headers)
        (refuses-Answers acks _ _ _ _)

  by_line-Answers : (lines : List Text) → Answers (by_line bytes acks env lines)
  unfolding by_line
  by_line-Answers [] = by_words-Answers [] []
  by_line-Answers (line ∷ headers) =
      if-Holds Answers (is_utf8 line) (by_words-Answers (split_whitespace line) headers)
        (fails-Answers _)

  -- Whatever bytes the local client sends, and whatever the tunnel does, the handler itself writes
  -- nothing or one response: the established one exactly if it succeeds, which is when it has sent a
  -- request into the tunnel and has copied data; else at most one error response, and it copies nothing.
  pub handle_http_client-Answers :
      (incoming : List ℕ) → Answers (handle_http_client bytes acks env incoming)
  unfolding handle_http_client
  handle_http_client-Answers incoming = by_line-Answers (lines_of incoming)
