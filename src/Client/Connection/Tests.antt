-- ===== src/Client/Connection/Tests.antt =====
-- The client's connection and configuration at a concrete network: one server, whose connections are
-- numbered, and which may be out of reach.
use mytunnel.Prelude.{
  ℕ, suc, ◌≡◌, refl, Bool, true, false, Option, none, some, [], ◌∷◌, text, text_eq, ok,
  if◌then◌else◌, ◌==◌, ==_refl, split_last,
}
use mytunnel.Client.Config.{ServerConfig, get_server_name}
use mytunnel.Client.Connection.{
  Network, TunnelClient, resolve_address, reconnect, live, get_connection, shutdown,
}
use mytunnel.Client.Connection.Live.{Opens, get_connection_again, shutdown-get_connection}

-- Whether the server can be reached, the next connection, and which ones are closed.
record World : Type 0 where
  up : Bool
  next : ℕ
  closed : ℕ → Bool

mark : ℕ → Bool → (ℕ → Bool) → ℕ → Bool
mark c b closed d = if d == c then b else closed d

mark_self : (c : ℕ) (b : Bool) (closed : ℕ → Bool) → mark c b closed c ≡ b
unfolding mark
mark_self c b closed = rw (==_refl c) refl

dialled_if : Bool → World → Option ℕ × World
dialled_if true w =
    (some w.next, record w { next = suc w.next; closed = mark w.next false w.closed })
dialled_if false w = (none, w)

abbrev net : Network
net = record {
  World = World;
  Addr = ℕ;
  Connection = ℕ;
  parse_addr = λ s. if text_eq s (text "10.0.0.1:443") then some 1 else none;
  lookup_host = λ s w. (some (2 ∷ []), w);
  connect = λ addr name w. dialled_if w.up w;
  is_closed = λ c w. w.closed c;
  close = λ c w. record w { closed = mark c true w.closed };
  close-closed = λ c w. mark_self c true w.closed;
}

abbrev config : ServerConfig
config = record { address = text "example.com:443"; server_name = none; insecure = false }

host : get_server_name config ≡ text "example.com"
unfolding get_server_name split_last
host = refl

-- The host keeps its brackets.
host_v6 : get_server_name (record config { address = text "[::1]:443" }) ≡ text "[::1]"
unfolding get_server_name split_last
host_v6 = refl

abbrev world : Bool → World
world up = record { up = up; next = 5; closed = λ c. true }

abbrev lost : TunnelClient net
lost = record { connection = some 3; world = world true }

abbrev found : TunnelClient net
found = record { connection = some 5; world = (dialled_if true (world true)).1 }

reconnected : get_connection net config lost ≡ (ok 5, found)
unfolding get_connection live reconnect resolve_address dialled_if text_eq
reconnected = refl

opens : Opens net (reconnect net config lost.world)
unfolding reconnect resolve_address dialled_if text_eq mark
opens = refl

get_connection_again_example : get_connection net config found ≡ (ok 5, found)
get_connection_again_example = get_connection_again net config lost found 5 opens reconnected

shutdown-get_connection_example :
    (net.is_closed 5 (shutdown net found).world ≡ true) × (live net (shutdown net found) ≡ none)
shutdown-get_connection_example = shutdown-get_connection net config lost found 5 opens reconnected

abbrev down : World → World
down w = record w { up = false }

abbrev back : World → World
back w = record w { up = true }
