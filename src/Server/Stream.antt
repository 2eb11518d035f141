-- ===== src/Server/Stream.antt =====
-- `StreamHandler` of src/server/acceptor.rs: one bidirectional stream, which carries a tunnel request
-- and then the tunnelled data. The peer's bytes, and what the sockets do, are parameters.
pub mod Requests
pub mod Inversion
use mytunnel.Prelude.{
  ℕ, Bool, List, [], ◌∷◌, ◌++◌, Option, none, some, length, take, drop, get_or, ltb, ◌==◌,
  if◌then◌else◌, Text, is_utf8, to_decimal, from_be_bytes, Result, ok, err,
}
use mytunnel.Metrics.{Metrics}
use mytunnel.Proxy.Tcp.{Read, Write, Proxied, proxy_stream}
use mytunnel.Proxy.Tcp

pub data Error : Type 0 where
  stream_ended : Error
  invalid_utf8 : Error
  write_failed : Error
  proxy_failed : Tcp.Error → Error

-- What the stream and the target do: whether the status byte can be written, whether a target accepts
-- the connection, and the reads of the two copying loops.
pub record StreamEnv : Type 0 where
  pub acks : Bool
  pub connects : Text → Bool
  pub quic_reads : List (Read × Write)
  pub tcp_reads : List (Read × Write)

-- What the handler has done: the bytes that it has sent itself, the target to which it has tried to
-- connect, what the proxy has copied, and its result.
pub record Handled : Type 0 where
  pub sent : List ℕ
  pub target : Option Text
  pub proxied : Option Proxied
  pub result : Result Error (Unit {0})

abbrev pub gives_up : Error → Handled
gives_up e = record { sent = []; target = none; proxied = none; result = err e }

-- `recv.read_exact` into a buffer of n bytes: the bytes, and those behind them; an error if the stream
-- ends before.
unfoldable pub read_exact : ℕ → List ℕ → Option (List ℕ × List ℕ)
read_exact n incoming =
    if ltb (length incoming) n then none else some (take n incoming, drop n incoming)

-- `format!("{}:{}", host, port)`
unfoldable pub format_target : Text → ℕ → Text
format_target host port = host ++ 58 ∷ to_decimal port

pub after_proxy : Text → Result Tcp.Error Proxied → Handled
after_proxy target (ok p) = record {
  sent = 0x00 ∷ [];
  target = some target;
  proxied = some p;
  result = ok tt;
}
after_proxy target (err e) = record {
  sent = 0x00 ∷ [];
  target = some target;
  proxied = none;
  result = err (proxy_failed e);
}

-- The `match request_type`.
dispatch : StreamEnv → Metrics → ℕ → Text → ℕ → Handled
unfolding after_proxy format_target
dispatch env m request_type host port =
    if request_type == 0x01
    then (if env.acks
        then after_proxy (format_target host port)
            (proxy_stream env.connects (format_target host port) env.quic_reads env.tcp_reads m)
        else gives_up write_failed)
    else if env.acks
    then record { sent = 0xff ∷ []; target = none; proxied = none; result = ok tt }
    else gives_up write_failed

-- Behind the header of three bytes: the host's length, the host, and its check.
read_host : StreamEnv → Metrics → ℕ → ℕ → List ℕ → Handled
unfolding read_exact dispatch
read_host env m request_type port incoming = elim (read_exact 1 incoming) [
  | none ↦ gives_up stream_ended
  | some (host_len_buf, rest) ↦ elim (read_exact (get_or host_len_buf 0 0) rest) [
    | none ↦ gives_up stream_ended
    | some (host, _) ↦
        if is_utf8 host then dispatch env m request_type host port else gives_up invalid_utf8
  ]
]

-- `StreamHandler::handle_stream`
unfoldable pub handle_stream : StreamEnv → Metrics → List ℕ → Handled
unfolding read_host
handle_stream env m incoming = elim (read_exact 3 incoming) [
  | none ↦ gives_up stream_ended
  | some (header, rest) ↦
      read_host env m (get_or header 0 0) (from_be_bytes (get_or header 1 0) (get_or header 2 0))
        rest
]
