-- ===== src/Server/Stream/Inversion.antt =====
-- What the handler connects to was asked for in the request format.
use mytunnel.Prelude.{
  ℕ, ◌≤◌, ◌≡◌, refl, sym, ap, ap₂, ◌∙◌, subst, inl, inr, true, some, List, [], ◌∷◌, ◌++◌, length,
  take, drop, get_or, arith, Text, is_utf8, IsByte, All, from_be_bytes, length-take,
  take-append-drop, Option-cases, ◌/◌, ◌%◌,
}
use mytunnel.Metrics.{Metrics}
use mytunnel.Proxy.Tcp.{proxy_stream}
use mytunnel.Protocol.{tcp_connect}
use mytunnel.Server.Stream.{
  StreamEnv, read_exact, format_target, dispatch, read_host, handle_stream,
}
use mytunnel.Server.Stream.Requests.{request_bytes, after_proxy-target}

read_exact-inverse :
    (n : ℕ) (s front rest : List ℕ)
    → read_exact n s ≡ some (front, rest)
    → (s ≡ front ++ rest) × (length front ≡ n)
unfolding read_exact
read_exact-inverse n s front rest e =
    let fits : n ≤ length s = ground arith in
    let f : take n s ≡ front = ground arith in
    let r : drop n s ≡ rest = ground arith in
    (sym (take-append-drop n s) ∙ ap₂ ◌++◌ f r, omega (arith, ap length f, length-take n s))

three_bytes : (s : List ℕ) → length s ≡ 3 → s ≡ get_or s 0 0 ∷ get_or s 1 0 ∷ get_or s 2 0 ∷ []
three_bytes [] h = absurd (omega arith)
three_bytes (a ∷ []) h = absurd (omega arith)
three_bytes (a ∷ b ∷ []) h = absurd (omega arith)
three_bytes (a ∷ b ∷ c ∷ []) h = refl
three_bytes (a ∷ b ∷ c ∷ d ∷ s) h = absurd (omega arith)

one_byte : (s : List ℕ) → length s ≡ 1 → s ≡ get_or s 0 0 ∷ []
one_byte [] h = absurd (omega arith)
one_byte (a ∷ []) h = refl
one_byte (a ∷ b ∷ s) h = absurd (omega arith)

-- What the bytes have to be for the handler to connect to a target.
pub record IsRequest (incoming : List ℕ) (target : Text) : Type 0 where
  pub host : Text
  pub port : ℕ
  pub rest : List ℕ
  pub format : incoming ≡ request_bytes tcp_connect host port rest
  pub checked : is_utf8 host ≡ true
  pub named : target ≡ format_target host port

dispatch-target :
    (env : StreamEnv) (m : Metrics) (request_type : ℕ) (host : Text) (port : ℕ) (target : Text)
    → (dispatch env m request_type host port).target ≡ some target
    → (request_type ≡ tcp_connect) × (target ≡ format_target host port)
unfolding dispatch
dispatch-target env m request_type host port target e = ground (
  arith,
  after_proxy-target (format_target host port)
      (proxy_stream env.connects (format_target host port) env.quic_reads env.tcp_reads m),
)

-- Behind the header: the length byte, the host and what follows it.
read_host-target :
    (env : StreamEnv) (m : Metrics) (request_type port : ℕ) (incoming : List ℕ) (target : Text)
    → (read_host env m request_type port incoming).target ≡ some target
    → (host : Text) × (rest : List ℕ) × (incoming ≡ length host ∷ host ++ rest)
      × (is_utf8 host ≡ true)
      × (request_type ≡ tcp_connect)
      × (target ≡ format_target host port)
unfolding read_host
read_host-target env m request_type port incoming target e =
    elim (Option-cases (read_exact 1 incoming)) [
      | inl x ↦ absurd (ground arith)
      | inr ((len_buf, rest), x) ↦ elim (Option-cases (read_exact (get_or len_buf 0 0) rest)) [
        | inl y ↦ absurd (ground arith)
        | inr ((host, later), y) ↦
            let first = read_exact-inverse 1 incoming len_buf rest x in
            let second = read_exact-inverse (get_or len_buf 0 0) rest host later y in
            let u : is_utf8 host ≡ true = ground arith in
            let d = dispatch-target env m request_type host port target (ground arith) in
            (
              host,
              later,
              first.0
                  ∙ ap₂ ◌++◌ (one_byte len_buf first.1 ∙ ap (λ n. n ∷ []) (sym second.1)) second.0,
              u,
              d.0,
              d.1,
            )
      ]
    ]

-- On any numbers below 256, the handler tries to connect only when they begin with a request for a
-- TCP tunnel, well-formed and with a host of UTF-8, and then to the host and port that the request
-- names.
pub handle_stream-IsRequest :
    (env : StreamEnv) (m : Metrics) (incoming : List ℕ) (target : Text)
    → All IsByte incoming
    → (handle_stream env m incoming).target ≡ some target
    → IsRequest incoming target
unfolding handle_stream
handle_stream-IsRequest env m incoming target all e = elim (Option-cases (read_exact 3 incoming)) [
  | inl x ↦ absurd (ground arith)
  | inr ((header, behind), x) ↦
      let hi = get_or header 1 0 in
      let lo = get_or header 2 0 in
      let first = read_exact-inverse 3 incoming header behind x in
      let (host, rest, f, u, t, n) =
        read_host-target env m (get_or header 0 0) (from_be_bytes hi lo) behind target
          (ground arith) in
      let whole : incoming ≡ get_or header 0 0 ∷ hi ∷ lo ∷ behind =
        first.0 ∙ ap (λ h. h ++ behind) (three_bytes header first.1) in
      let ranges = subst (All IsByte) whole all in
      let high : hi ≡ from_be_bytes hi lo / 256 = omega (arith, ranges.1.0, ranges.1.1.0) in
      let low : lo ≡ from_be_bytes hi lo % 256 = omega (arith, ranges.1.0, ranges.1.1.0) in
      record {
        host = host;
        port = from_be_bytes hi lo;
        rest = rest;
        format =
            whole
            ∙ ap₂ (λ a b. a ∷ hi ∷ lo ∷ b) t f
            ∙ ap₂ (λ a b. tcp_connect ∷ a ∷ b ∷ length host ∷ host ++ rest) high low;
        checked = u;
        named = n;
      }
]
