-- ===== src/Metrics/Api/Answers.antt =====
-- What the HTTP interface answers to a request for a path.
use mytunnel.Prelude.{
  ℕ, ◌≤◌, ◌<◌, ◌≡◌, ◌≢◌, refl, sym, ap, ◌∙◌, subst, true, some, List, [], ◌∷◌, ◌++◌, append_assoc,
  take_all, length, Text, text, text_eq, arith, u64_mod, All-append, Lacks, IsVisible, is_utf8, ok,
  split_first_lem, split_whitespace-word, show_usize, value, value-show_usize,
}
use mytunnel.Dash.{DashMap}
use mytunnel.Metrics.{Metrics}
use mytunnel.Pool.Slab.{SlabHandle}
use mytunnel.Connection.State.{ConnectionId}
use mytunnel.Connection.{ConnectionManager, list_connections, connection_count}
use mytunnel.Connection.Tracks.{Tracks}
use mytunnel.Connection.Listed.{length-list_connections}
use mytunnel.Metrics.Api.{
  Json, Handled, strip_cr, first_line, second_word, path_of, connections_response, head, response,
  written, route, answer, handle_request,
}

-- A request for a path: `GET`, the path and the version, then the headers.
abbrev pub get_request : (path headers : Text) → List ℕ
get_request path headers = text "GET " ++ path ++ text " HTTP/1.1" ++ 13 ∷ 10 ∷ headers

strip_cr_lem : (line : Text) → strip_cr (line ++ 13 ∷ []) ≡ line
unfolding strip_cr
strip_cr_lem [] = refl
strip_cr_lem (c ∷ []) = refl
strip_cr_lem (c ∷ d ∷ s) = ap (◌∷◌ c) (strip_cr_lem (d ∷ s))

visible-Lacks : (w : Text) → IsVisible w → Lacks 10 w
visible-Lacks [] h = tt
visible-Lacks (c ∷ w) h = (omega (arith, h.0.0), visible-Lacks w h.1)

module _ (c : ℕ) (p : Text) (v : IsVisible (c ∷ p)) (headers : Text) where
  abbrev line : Text
  line = text "GET " ++ (c ∷ p) ++ text " HTTP/1.1"

  request_line : get_request (c ∷ p) headers ≡ (line ++ 13 ∷ []) ++ 10 ∷ headers
  request_line = sym (append_assoc line (13 ∷ []) (10 ∷ headers))

  line-Lacks : Lacks 10 (line ++ 13 ∷ [])
  line-Lacks =
      All-append (λ b. b ≢ 10) line (13 ∷ [])
        (All-append (λ b. b ≢ 10) (text "GET ") ((c ∷ p) ++ text " HTTP/1.1") (omega arith)
          (All-append (λ b. b ≢ 10) (c ∷ p) (text " HTTP/1.1") (visible-Lacks (c ∷ p) v)
            (omega arith)))
        (omega arith)

  first_line-get_request : first_line (get_request (c ∷ p) headers) ≡ line
  unfolding first_line
  first_line-get_request =
      ap first_line request_line
      ∙ (let found = split_first_lem 10 (line ++ 13 ∷ []) headers line-Lacks in
          rw (found, first_line) (strip_cr_lem line))

  -- The request is understood.
  path_of-get_request : path_of (first_line (get_request (c ∷ p) headers)) ≡ c ∷ p
  unfolding path_of second_word
  path_of-get_request =
      rw (first_line-get_request, path_of)
        (let words =
            split_whitespace-word 71 (text "ET") ((c ∷ p) ++ text " HTTP/1.1") (omega arith) in
          let more = split_whitespace-word c p (text "HTTP/1.1") v in rw (words, more) refl)

-- A response says that it was answered: its status, the body, and the length of the body in decimal.
abbrev pub Answers : Text × Text → Handled → Type 0
Answers (status, body) h =
    (h.result ≡ ok tt)
    × (digits : Text) × (value 0 digits ≡ length body)
    × (h.sent ≡ head status digits ++ body)

written-Answers : (r : Text × Text) → length r.1 < u64_mod → Answers r (written true (response r))
unfolding written response
written-Answers (status, body) small =
    (refl, show_usize (length body), value-show_usize (length body) (omega arith), refl)

module _ {Addr : Type 0} {dash : DashMap ConnectionId SlabHandle} (json : Json)
    (show_addr : Addr → Text) where
  route-connections :
      (now : ℕ) (m : ConnectionManager Addr dash) (metrics : Metrics) (body : Text)
      → Tracks m
      → json.connections
          (record { count = connection_count m; connections = list_connections show_addr now m })
        ≡ some body
      → route json show_addr (text "/connections") now (m, metrics) ≡ (text "200 OK", body)
  unfolding route connections_response text_eq
  route-connections now m metrics body tracks made =
      let count = length-list_connections m tracks show_addr now in rw (count, made) refl

  -- A request for a path that has no spaces gets the answer that the path is routed to, and the
  -- Content-Length of the response is the length of the body. The request fits in the buffer and is
  -- UTF-8, which the lossy conversion keeps, the body is shorter than 2^64 bytes, and the socket can be
  -- written to.
  pub handle_request-Answers :
      (lossy : List ℕ → Text) (c : ℕ) (p headers : Text) (now : ℕ)
      (s : ConnectionManager Addr dash × Metrics)
      → ((bytes : List ℕ) → is_utf8 bytes ≡ true → lossy bytes ≡ bytes)
      → IsVisible (c ∷ p)
      → is_utf8 (get_request (c ∷ p) headers) ≡ true
      → length (get_request (c ∷ p) headers) ≤ 1024
      → length (route json show_addr (c ∷ p) now s).1 < u64_mod
      → Answers
          (route json show_addr (c ∷ p) now s)
          (handle_request json show_addr true lossy (some (get_request (c ∷ p) headers)) now s)
  unfolding handle_request answer
  handle_request-Answers lossy c p headers now s keeps v utf8 fits small =
      let request = get_request (c ∷ p) headers in
      let path : path_of (first_line (lossy request)) ≡ c ∷ p =
        ap (λ x. path_of (first_line x)) (keeps request utf8) ∙ path_of-get_request c p v headers in
      subst (λ bytes. Answers r (answer json show_addr true lossy bytes now s))
        (sym (take_all 1024 request fits))
        (subst (λ x. Answers r (written true (response (route json show_addr x now s)))) (sym path)
          (written-Answers r small))
    where
      r : Text × Text
      r = route json show_addr (c ∷ p) now s

  -- A request for `/connections` is answered with what the serializer makes of the number of
  -- connections that the manager counts and of the list of them, and the Content-Length of the response
  -- is the length of that body. The manager satisfies its invariant, the serializer succeeds, the
  -- request fits in the buffer and is UTF-8, which the lossy conversion keeps, the body is shorter than
  -- 2^64 bytes, and the socket can be written to.
  pub handle_request-connections :
      (lossy : List ℕ → Text) (headers : Text) (now : ℕ) (m : ConnectionManager Addr dash)
      (metrics : Metrics) (body : Text)
      → Tracks m
      → json.connections
          (record { count = connection_count m; connections = list_connections show_addr now m })
        ≡ some body
      → ((bytes : List ℕ) → is_utf8 bytes ≡ true → lossy bytes ≡ bytes)
      → is_utf8 (get_request (text "/connections") headers) ≡ true
      → length (get_request (text "/connections") headers) ≤ 1024
      → length body < u64_mod
      → Answers
          (text "200 OK", body)
          (handle_request json show_addr true lossy
            (some (get_request (text "/connections") headers))
            now
            (m, metrics))
  handle_request-connections lossy headers now m metrics body tracks made keeps utf8 fits small =
      subst (λ r. Answers r handled) routed
        (handle_request-Answers lossy 47 (text "connections") headers now (m, metrics) keeps
          (omega arith) utf8 fits (subst (λ r. length r.1 < u64_mod) (sym routed) small))
    where
      handled : Handled
      handled =
          handle_request json show_addr true lossy
            (some (get_request (text "/connections") headers)) now (m, metrics)

      routed : route json show_addr (text "/connections") now (m, metrics) ≡ (text "200 OK", body)
      routed = route-connections now m metrics body tracks made
