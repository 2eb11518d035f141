-- ===== src/Client/Connection/Live.antt =====
-- The connection that the client keeps: it is open when it is handed out, it is not dialled again while
-- it is open, and a lost one is renewed.
use mytunnel.Prelude.{
  ◌≡◌, refl, subst, Bool, true, false, inl, inr, Option, none, some, Option-cases, Result, ok, err,
  if◌then◌else◌,
}
use mytunnel.Client.Config.{ServerConfig}
use mytunnel.Client.Connection.{
  Error, Network, TunnelClient, reconnect, live, store, get_connection, shutdown,
}

module _ (net : Network) where
  -- A connection that was dialled, if one was, has not been closed again when the dialling returns.
  abbrev pub Opens : Result Error net.Connection × net.World → Type 0
  Opens (err e, w) = Unit {0}
  Opens (ok c, w) = net.is_closed c w ≡ false

  -- What a call that needs a connection may return.
  abbrev pub Gets : TunnelClient net → Result Error net.Connection × TunnelClient net → Type 0
  Gets t (err e, t') = (live net t ≡ none) × (t'.connection ≡ t.connection)
  Gets t (ok c, t') = (live net t' ≡ some c) × (t'.connection ≡ some c)

  live_open :
      (t : TunnelClient net) (c : net.Connection)
      → t.connection ≡ some c
      → net.is_closed c t.world ≡ false
      → live net t ≡ some c
  unfolding live
  live_open t c e unclosed = rw (e, unclosed, live) refl

  live_stored :
      (t : TunnelClient net) (c : net.Connection) → live net t ≡ some c → t.connection ≡ some c
  unfolding live
  live_stored t c e = by_stored t.connection e
    where
      by_closed :
          (d : net.Connection) (b : Bool) → (if b then none else some d) ≡ some c → some d ≡ some c
      by_closed d true e = absurd cc
      by_closed d false e = e

      by_stored :
          (o : Option net.Connection)
          → live net (record { connection = o; world = t.world }) ≡ some c
          → o ≡ some c
      by_stored none e = absurd cc
      by_stored (some d) e = by_closed d (net.is_closed d t.world) e

  store-Gets :
      (t : TunnelClient net) (r : Result Error net.Connection × net.World)
      → live net t ≡ none
      → Opens r
      → Gets t (store net t r)
  unfolding store
  store-Gets t (err e, w) lost opens = (lost, refl)
  store-Gets t (ok c, w) lost opens =
      (live_open (record { connection = some c; world = w }) c refl opens, refl)

  pub get_connection-Gets :
      (config : ServerConfig) (t : TunnelClient net)
      → Opens (reconnect net config t.world)
      → Gets t (get_connection net config t)
  unfolding get_connection store
  get_connection-Gets config t opens = elim (Option-cases (live net t)) [
    | inl lost ↦ rw (lost, get_connection) (store-Gets t (reconnect net config t.world) lost opens)
    | inr (c, e) ↦ rw (e, get_connection) (e, live_stored t c e)
  ]

  -- A second call gets the same connection, and changes nothing.
  pub get_connection_again :
      (config : ServerConfig) (t t' : TunnelClient net) (c : net.Connection)
      → Opens (reconnect net config t.world)
      → get_connection net config t ≡ (ok c, t')
      → get_connection net config t' ≡ (ok c, t')
  unfolding get_connection
  get_connection_again config t t' c opens e =
      let (open_now, stored) = subst (Gets t) e (get_connection-Gets config t opens) in
      rw (open_now, get_connection) refl

  -- The client has an open connection.
  abbrev pub IsLive : TunnelClient net → Type 0
  IsLive t = (c : net.Connection) × (live net t ≡ some c)

  -- The shutdown closes the connection that a call got before, and the client has none then.
  pub shutdown-get_connection :
      (config : ServerConfig) (t t' : TunnelClient net) (c : net.Connection)
      → Opens (reconnect net config t.world)
      → get_connection net config t ≡ (ok c, t')
      → (net.is_closed c (shutdown net t').world ≡ true) × (live net (shutdown net t') ≡ none)
  unfolding shutdown live
  shutdown-get_connection config t t' c opens e =
      let (open_now, stored) = subst (Gets t) e (get_connection-Gets config t opens) in
      rw (stored, shutdown) (net.close-closed c t'.world, refl)
