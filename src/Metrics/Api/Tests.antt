-- ===== src/Metrics/Api/Tests.antt =====
-- The HTTP interface at a request, with a serializer that writes only the number.
use mytunnel.Prelude.{
  ℕ, ◌≡◌, refl, true, some, List, [], arith, text, Text, text_eq, to_decimal, show_usize, is_utf8,
  split_first, split_whitespace,
}
use mytunnel.Metrics
use mytunnel.Metrics.{snapshot}
use mytunnel.Pool.Slab
use mytunnel.Connection.{new, connection_count}
use mytunnel.Connection.Tests.{handles, config}
use mytunnel.Connection.Tracks.{new-Tracks}
use mytunnel.Metrics.Api.{Json, first_line, path_of, route, handle_request}
use mytunnel.Metrics.Api.Answers.{
  Answers, get_request, handle_request-Answers, handle_request-connections,
}

abbrev json : Json
json = record {
  connections = λ r. some (show_usize r.count);
  stats = λ r. some (show_usize r.connections_total);
}

abbrev show_addr : ℕ → Text
show_addr addr = to_decimal addr

abbrev same : List ℕ → Text
same bytes = bytes

path : path_of (first_line (get_request (text "/stats") (text "Host: a\r\n\r\n"))) ≡ text "/stats"
unfolding path_of first_line split_first split_whitespace
path = refl

short : path_of (first_line (text "GET\n")) ≡ text "/"
unfolding path_of first_line split_first split_whitespace
short = refl

handle_request-Answers_example :
    Answers
      (route {dash = handles} json show_addr
        (text "/nothing")
        5
        (new ℕ handles config, Metrics.new))
      (handle_request json show_addr true same
        (some (get_request (text "/nothing") []))
        5
        (new ℕ handles config, Metrics.new))
unfolding is_utf8 route text_eq
handle_request-Answers_example =
    handle_request-Answers json show_addr same 47 (text "nothing") [] 5
      (new ℕ handles config, Metrics.new) (λ bytes e. refl) (omega arith) refl (omega arith)
      (omega arith)

handle_request-connections_example :
    Answers
      (text "200 OK", text "0")
      (handle_request json show_addr true same
        (some (get_request (text "/connections") []))
        5
        (new ℕ handles config, Metrics.new))
unfolding is_utf8 show_usize connection_count new Slab.len Slab.new
handle_request-connections_example =
    handle_request-connections json show_addr same [] 5 (new ℕ handles config) Metrics.new
      (text "0") (new-Tracks ℕ handles config (omega arith)).0 refl (λ bytes e. refl) refl
      (omega arith) (omega arith)
