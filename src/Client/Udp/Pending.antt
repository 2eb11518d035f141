-- ===== src/Client/Udp/Pending.antt =====
-- Which local client a response goes to.
use mytunnel.Prelude.{
  ℕ, ◌≡◌, inl, inr, refl, sym, ap, ◌∙◌, subst, Bool, Bool-cases, Option-cases, Option, none, some,
  List, [], ◌∷◌, ◌++◌, drop, append_assoc, All, All-append, Text, Result, ok, err, if◌then◌else◌,
}
use mytunnel.Bytes.{BytesCrate}
use mytunnel.Dash.{DashMap, keep_if}
use mytunnel.Protocol.{UdpPacket, encode_udp_packet, decode_udp_packet}
use mytunnel.Protocol
use mytunnel.Protocol.Socks5.{SocketAddr}
use mytunnel.Client.Udp.{
  Target, Asked, Event, from_local, from_tunnel, local_failed, tunnel_failed, read_header, note,
  forward, with_header, answer, run,
}
use mytunnel.Client.Udp.Justified.{target_of, Target_discrete, asked_for, HasAsked, IsJustified}

keep_if-some :
    {V : Type 0} (keep : V → Bool) (o : Option V) (v : V) → keep_if keep o ≡ some v → o ≡ some v
keep_if-some keep none v e = absurd cc
keep_if-some keep (some w) v e = elim (Bool-cases (keep w)) [
  | inl q ↦ (let r : some w ≡ some v = sym (ap (λ b. if b then some w else none) q) ∙ e in r)
  | inr q ↦ absurd (let r : none ≡ some v = sym (ap (λ b. if b then some w else none) q) ∙ e in cc)
]

module _ (bytes : BytesCrate) (show_ipv6 : Text → Text) (dash : DashMap Target Asked) where
  -- Every pending request was made, by the last that asked for its target.
  abbrev pub Accounted : List Event → dash.Map → Type 0
  Accounted past p =
      (target : Target) (asked : Asked)
      → dash.get target p ≡ some asked
      → HasAsked show_ipv6 past target asked.0

  -- An event that does not ask for the target changes nothing.
  HasAsked-snoc :
      (past : List Event) (e : Event) (target : Target) (client : SocketAddr)
      → HasAsked show_ipv6 past target client
      → ¬ (asked_for show_ipv6 e ≡ some target)
      → HasAsked show_ipv6 (past ++ e ∷ []) target client
  HasAsked-snoc past e target client h other = record {
    buf = h.buf;
    noted = h.noted;
    cleaned = h.cleaned;
    earlier = h.earlier;
    since = h.since ++ e ∷ [];
    split = ap (λ l. l ++ e ∷ []) h.split ∙ append_assoc h.earlier _ (e ∷ []);
    asked = h.asked;
    latest =
        All-append (λ e. ¬ (asked_for show_ipv6 e ≡ some target)) h.since (e ∷ []) h.latest
          (other, tt);
  }

  Accounted-snoc :
      (past : List Event) (e : Event) (p : dash.Map)
      → asked_for show_ipv6 e ≡ none
      → Accounted past p
      → Accounted (past ++ e ∷ []) p
  Accounted-snoc past e p silent before target asked found =
      HasAsked-snoc past e target asked.0 (before target asked found) (λ q. cc)

  note-Accounted :
      (past : List Event) (buf : List ℕ) (target : Target) (client : SocketAddr) (noted cleaned : ℕ)
      (p : dash.Map)
      → asked_for show_ipv6 (from_local buf client noted cleaned) ≡ some target
      → Accounted past p
      → Accounted
          (past ++ from_local buf client noted cleaned ∷ [])
          (note bytes show_ipv6 dash target client noted cleaned p)
  unfolding note
  note-Accounted past buf target client noted cleaned p here before j asked e =
      let kept : dash.get j (dash.insert target (client, noted) p) ≡ some asked =
        keep_if-some _ _ asked
          (sym (dash.get-retain _ j (dash.insert target (client, noted) p)) ∙ e) in
      elim (Target_discrete j target) [
        | yes same ↦
            let found : dash.get target (dash.insert target (client, noted) p) ≡ some asked =
              subst (λ k. dash.get k (dash.insert target (client, noted) p) ≡ some asked) same
                kept in
            let latest : some (client, noted) ≡ some asked =
              sym (dash.get-insert_self target (client, noted) p) ∙ found in
            let by : client ≡ asked.0 = ap (λ o. elim o [ none ↦ client | some a ↦ a.0 ]) latest in
            subst (HasAsked show_ipv6 _ j) by (record {
              buf = buf;
              noted = noted;
              cleaned = cleaned;
              earlier = past;
              since = [];
              split = refl;
              asked = here ∙ ap some (sym same);
              latest = tt;
            })
        | no other ↦
            HasAsked-snoc past (from_local buf client noted cleaned) j asked.0
              (before j asked (sym (dash.get-insert_ne target j (client, noted) p other) ∙ kept))
              (λ q. other (ap (λ o. elim o [ none ↦ j | some k ↦ k ]) (sym q ∙ here)))
      ]

  with_header-IsJustified :
      (events past todo : List Event) (buf : List ℕ) (client : SocketAddr) (noted cleaned : ℕ)
      (o : Option (Target × ℕ))
      → (p : dash.Map) → events ≡ past ++ from_local buf client noted cleaned ∷ todo
      → read_header show_ipv6 buf ≡ o
      → Accounted past p
      → let (sent, p₁) = with_header bytes show_ipv6 dash buf client noted cleaned o p in
        All (IsJustified bytes show_ipv6 events) sent
        × Accounted (past ++ from_local buf client noted cleaned ∷ []) p₁
  unfolding with_header forward
  with_header-IsJustified events past todo buf client noted cleaned none p here e before =
      (tt, Accounted-snoc past _ p (ap target_of e) before)
  with_header-IsJustified events past todo buf client noted cleaned (some ((host, port), start)) p
        here e before =
      (
        forward-IsJustified _ refl,
        note-Accounted past buf (host, port) client noted cleaned p (ap target_of e) before,
      )
    where
      forward-IsJustified :
          (r : Result Protocol.Error (List ℕ))
          → encode_udp_packet bytes host port (drop start buf) ≡ r
          → All (IsJustified bytes show_ipv6 events) (forward bytes show_ipv6 dash r)
      forward-IsJustified (ok packet) encoded = (
        record {
          before = past;
          buf = buf;
          client = client;
          noted = noted;
          cleaned = cleaned;
          after = todo;
          host = host;
          port = port;
          start = start;
          split = here;
          header = e;
          encoded = encoded;
        },
        tt,
      )
      forward-IsJustified (err e) encoded = tt

  answer-IsJustified :
      (events past todo : List Event) (datagram : List ℕ)
      (r : Result Protocol.Error (UdpPacket bytes)) (p : dash.Map)
      → events ≡ past ++ from_tunnel datagram ∷ todo
      → decode_udp_packet bytes (bytes.from_vec datagram) ≡ r
      → Accounted past p
      → All (IsJustified bytes show_ipv6 events) (answer bytes show_ipv6 dash r p)
  unfolding answer
  answer-IsJustified events past todo datagram (err e) p here decoded before = tt
  answer-IsJustified events past todo datagram (ok packet) p here decoded before =
      elim (Option-cases (dash.get (packet.host, packet.port) p)) [
        | inl e ↦ rw (e, answer) tt
        | inr (asked, e) ↦
            rw (e, answer)
              (
                record {
                  before = past;
                  packet = datagram;
                  after = todo;
                  host = packet.host;
                  port = packet.port;
                  payload = bytes.contents packet.payload;
                  split = here;
                  decoded = rw decoded refl;
                  made = refl;
                  asked = before (packet.host, packet.port) asked e;
                },
                tt,
              )
      ]

  run_from :
      (events past todo : List Event) (p : dash.Map)
      → events ≡ past ++ todo
      → Accounted past p
      → All (IsJustified bytes show_ipv6 events) (run bytes show_ipv6 dash todo p)
  unfolding run
  run_from events past [] p here before = tt
  run_from events past (from_local buf client noted cleaned ∷ todo) p here before =
      let e = from_local buf client noted cleaned in
      let (sent, after) =
        with_header-IsJustified events past todo buf client noted cleaned
          (read_header show_ipv6 buf) p here refl before in
      All-append (IsJustified bytes show_ipv6 events) _ _ sent (
        run_from events (past ++ e ∷ []) todo _ (here ∙ sym (append_assoc past (e ∷ []) todo))
          after)
  run_from events past (from_tunnel datagram ∷ todo) p here before =
      let e = from_tunnel datagram in
      All-append (IsJustified bytes show_ipv6 events) _ _
        (answer-IsJustified events past todo datagram
          (decode_udp_packet bytes (bytes.from_vec datagram)) p here refl before)
        (run_from events (past ++ e ∷ []) todo p (here ∙ sym (append_assoc past (e ∷ []) todo))
          (Accounted-snoc past e p refl before))
  run_from events past (local_failed ∷ todo) p here before = tt
  run_from events past (tunnel_failed ∷ todo) p here before = tt

  -- From an association's start, whatever arrives in whatever order: each datagram that it sends to a
  -- local client is made of the host, the port and the payload of a packet that arrived from the tunnel,
  -- and goes to the client that was, when that packet arrived, the last to have sent a datagram with that
  -- host and port in its header; each packet that it sends into the tunnel is the one for the host, the
  -- port and the payload of a local client's datagram.
  pub run-IsJustified :
      (events : List Event)
      → All (IsJustified bytes show_ipv6 events) (run bytes show_ipv6 dash events dash.empty)
  run-IsJustified events =
      run_from events [] events dash.empty refl
        (λ target asked e. absurd (let q = dash.get-empty target in cc))
