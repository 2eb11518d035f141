-- ===== src/Metrics/Api.antt =====
-- src/metrics/api.rs: one request of the HTTP interface that lists the connections and the counters. The
-- socket is the bytes that its one `read` returns and whether it can be written to; `from_utf8_lossy` and
-- the serializer of serde_json are parameters. The thread that accepts the connections is left out.
pub mod Answers
pub mod Tests
use mytunnel.Prelude.{
  ℕ, Bool, Option, none, some, List, [], ◌∷◌, ◌++◌, take, length, Text, text, text_eq,
  if◌then◌else◌, ◌==◌, Result, ok, err, unwrap_or, split_first, split_whitespace, show_usize,
}
use mytunnel.Dash.{DashMap}
use mytunnel.Metrics.{Metrics, snapshot}
use mytunnel.Pool.Slab.{SlabHandle}
use mytunnel.Connection.State.{ConnectionId, ConnectionInfo}
use mytunnel.Connection.{ConnectionManager, list_connections}

pub data Error : Type 0 where
  read_failed write_failed : Error

-- `struct ConnectionsResponse` and `struct StatsResponse`
pub record ConnectionsResponse : Type 0 where
  pub count : ℕ
  pub connections : List ConnectionInfo

pub record StatsResponse : Type 0 where
  pub connections_total : ℕ
  pub connections_active : ℕ
  pub connections_failed : ℕ
  pub bytes_received : ℕ
  pub bytes_sent : ℕ
  pub streams_opened : ℕ
  pub streams_closed : ℕ
  pub errors_total : ℕ

-- `serde_json::to_string_pretty` of the two.
pub record Json : Type 0 where
  pub connections : ConnectionsResponse → Option Text
  pub stats : StatsResponse → Option Text

-- What is written, and the result.
pub record Handled : Type 0 where
  pub sent : List ℕ
  pub result : Result Error (Unit {0})

-- A line of `str::lines` that ends in a newline loses a carriage return before it.
strip_cr : Text → Text
strip_cr [] = []
strip_cr (c ∷ []) = if c == 13 then [] else c ∷ []
strip_cr (c ∷ d ∷ s) = c ∷ strip_cr (d ∷ s)

-- `request.lines().next().unwrap_or("")`
unfoldable pub first_line : Text → Text
unfolding strip_cr
first_line request = elim (split_first 10 request) [
  | none ↦ request
  | some (line, rest) ↦ strip_cr line
]

-- `split_whitespace().nth(1).unwrap_or("/")`
second_word : List Text → Text
second_word [] = text "/"
second_word (w ∷ []) = text "/"
second_word (w ∷ path ∷ words) = path

unfoldable pub path_of : Text → Text
unfolding second_word
path_of line = second_word (split_whitespace line)

-- What the two structures are filled with.
unfoldable pub connections_response : List ConnectionInfo → ConnectionsResponse
connections_response connections = record { count = length connections; connections = connections }

unfoldable pub stats_response : Metrics → StatsResponse
unfolding snapshot
stats_response m =
    let s = snapshot m in
    record {
      connections_total = s.connections_total;
      connections_active = s.connections_active;
      connections_failed = s.connections_failed;
      bytes_received = s.bytes_received;
      bytes_sent = s.bytes_sent;
      streams_opened = s.streams_opened;
      streams_closed = s.streams_closed;
      errors_total = s.errors_total;
    }

abbrev pub help : Text
help =
    text
      "{\n  \"endpoints\": {\n    \"/connections\": \"List all active connections\",\n    \"/stats\": \"Server statistics\"\n  }\n}"

abbrev pub not_found : Text
not_found = text "{\"error\": \"Not found\"}"

-- The `format!` of the response.
abbrev pub head : (status content_length : Text) → Text
head status content_length =
    text "HTTP/1.1 "
    ++ status
    ++ text "\r\nContent-Type: application/json\r\nContent-Length: "
    ++ content_length
    ++ text "\r\nAccess-Control-Allow-Origin: *\r\nConnection: close\r\n\r\n"

unfoldable pub response : Text × Text → Text
response (status, body) = head status (show_usize (length body)) ++ body

written : (writes : Bool) → Text → Handled
written writes sent =
    if writes
    then record { sent = sent; result = ok tt }
    else record { sent = []; result = err write_failed }

module _ {Addr : Type 0} {dash : DashMap ConnectionId SlabHandle} (json : Json)
    (show_addr : Addr → Text) where
  -- The `match` on the path.
  unfoldable pub route : Text → (now : ℕ) → ConnectionManager Addr dash × Metrics → Text × Text
  route path now (m, metrics) =
      if text_eq path (text "/connections")
      then (
        text "200 OK",
        unwrap_or (json.connections (connections_response (list_connections show_addr now m))) [],
      )
      else if text_eq path (text "/stats")
      then (text "200 OK", unwrap_or (json.stats (stats_response metrics)) [])
      else if text_eq path (text "/")
      then (text "200 OK", help)
      else (text "404 Not Found", not_found)

  answer :
      (writes : Bool) (lossy : List ℕ → Text)
      → List ℕ
      → (now : ℕ) → ConnectionManager Addr dash × Metrics
      → Handled
  unfolding written
  answer writes lossy [] now s = record { sent = []; result = ok tt }
  answer writes lossy (b ∷ bytes) now s =
      written writes (response (route (path_of (first_line (lossy (b ∷ bytes)))) now s))

  -- `handle_request`; the buffer has 1024 bytes.
  unfoldable pub handle_request :
      (writes : Bool) (lossy : List ℕ → Text)
      → Option (List ℕ)
      → (now : ℕ) → ConnectionManager Addr dash × Metrics
      → Handled
  unfolding answer
  handle_request writes lossy none now s = record { sent = []; result = err read_failed }
  handle_request writes lossy (some arrived) now s = answer writes lossy (take 1024 arrived) now s
