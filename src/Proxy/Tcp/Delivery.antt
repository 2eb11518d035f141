-- ===== src/Proxy/Tcp/Delivery.antt =====
-- What the copying loops deliver.
use mytunnel.Prelude.{
  ℕ, ◌+◌, ◌%◌, ◌<◌, ◌≡◌, refl, ap, ◌∙◌, Bool, true, false, List, [], ◌∷◌, ◌++◌, All, length, take,
  arith, length-append, u64_mod, wrapping_add, suc_eq_zero, suc, sym, append_assoc,
}
use mytunnel.Metrics.{Metrics, bytes_rx, bytes_tx}
use mytunnel.Proxy.Tcp.{
  Read, Write, all, broken, Copied, chunk, eof, failed, copy_loop, proxy_userspace,
  proxy_bidirectional,
}

-- All the bytes that the reads bring.
abbrev pub received : List (Read × Write) → List ℕ
received [] = []
received ((chunk bytes, w) ∷ rest) = bytes ++ received rest
received ((eof, w) ∷ rest) = received rest
received ((failed, w) ∷ rest) = received rest

-- A read that brings data, all of which is written.
abbrev pub Passed : Read × Write → Type 0
Passed (chunk [], w) = ⊥
Passed (chunk (x ∷ xs), w) = w ≡ all
Passed (eof, w) = ⊥
Passed (failed, w) = ⊥

-- The next read, if there is one, ends the loop: it brings nothing, or the write of what it brings fails.
abbrev pub Stops : List (Read × Write) → Type 0
Stops [] = Unit {0}
Stops ((chunk [], w) ∷ rest) = Unit {0}
Stops ((chunk (x ∷ xs), all) ∷ rest) = ⊥
Stops ((chunk (x ∷ xs), broken k) ∷ rest) = Unit {0}
Stops ((eof, w) ∷ rest) = Unit {0}
Stops ((failed, w) ∷ rest) = Unit {0}

abbrev pub has_stopped : List (Read × Write) → Bool
has_stopped [] = false
has_stopped (r ∷ rest) = true

-- What a write that fails has written of its data.
abbrev pub cut : List (Read × Write) → List ℕ
cut [] = []
cut ((chunk bytes, all) ∷ rest) = []
cut ((chunk bytes, broken k) ∷ rest) = take k bytes
cut ((eof, w) ∷ rest) = []
cut ((failed, w) ∷ rest) = []

module _ {S : Type 0} (count : ℕ → S → S) where
  -- What the passed reads brought is written, and then the loop ends or waits.
  copy_loop-Passed :
      (passed rest : List (Read × Write)) (total : ℕ) (s : S)
      → All Passed passed
      → Stops rest
      → ((copy_loop count (passed ++ rest) total s).written ≡ received passed ++ cut rest)
        × ((copy_loop count (passed ++ rest) total s).ended ≡ has_stopped rest)
  unfolding copy_loop
  copy_loop-Passed [] [] total s h stops = (refl, refl)
  copy_loop-Passed [] ((eof, w) ∷ rest) total s h stops = (refl, refl)
  copy_loop-Passed [] ((failed, w) ∷ rest) total s h stops = (refl, refl)
  copy_loop-Passed [] ((chunk [], all) ∷ rest) total s h stops = (refl, refl)
  copy_loop-Passed [] ((chunk bytes, broken k) ∷ rest) total s h stops = (refl, refl)
  copy_loop-Passed [] ((chunk (x ∷ xs), all) ∷ rest) total s h stops = absurd stops
  copy_loop-Passed ((eof, w) ∷ passed) rest total s h stops = absurd h.0
  copy_loop-Passed ((failed, w) ∷ passed) rest total s h stops = absurd h.0
  copy_loop-Passed ((chunk [], w) ∷ passed) rest total s h stops = absurd h.0
  copy_loop-Passed ((chunk (x ∷ xs), broken k) ∷ passed) rest total s h stops =
      absurd (let q = h.0 in cc)
  copy_loop-Passed ((chunk (x ∷ xs), all) ∷ passed) rest total s h stops =
      let n = suc (length xs) in
      let later = copy_loop-Passed passed rest (wrapping_add total n) (count n s) h.1 stops in
      rw (suc_eq_zero (length xs)) (
        ap (λ r. x ∷ xs ++ r) later.0 ∙ sym (append_assoc (x ∷ xs) (received passed) (cut rest)),
        later.1,
      )

  -- A number that each write raises by its length, modulo 2^64, ends raised by what the passed reads brought.
  copy_loop-measure :
      (f : ℕ → S → ℕ)
      → ((n total : ℕ) (s : S) → f (wrapping_add total n) (count n s) ≡ (f total s + n) % u64_mod)
      → (passed rest : List (Read × Write)) (total : ℕ) (s : S) → All Passed passed
      → Stops rest
      → f total s < u64_mod
      → let c = copy_loop count (passed ++ rest) total s in
        f c.total c.counters ≡ (f total s + length (received passed)) % u64_mod
  unfolding copy_loop
  copy_loop-measure f step [] [] total s ok stops h = omega arith
  copy_loop-measure f step [] ((eof, w) ∷ rest) total s ok stops h = omega arith
  copy_loop-measure f step [] ((failed, w) ∷ rest) total s ok stops h = omega arith
  copy_loop-measure f step [] ((chunk [], all) ∷ rest) total s ok stops h = omega arith
  copy_loop-measure f step [] ((chunk bytes, broken k) ∷ rest) total s ok stops h = omega arith
  copy_loop-measure f step [] ((chunk (x ∷ xs), all) ∷ rest) total s ok stops h = absurd stops
  copy_loop-measure f step ((eof, w) ∷ passed) rest total s ok stops h = absurd ok.0
  copy_loop-measure f step ((failed, w) ∷ passed) rest total s ok stops h = absurd ok.0
  copy_loop-measure f step ((chunk [], w) ∷ passed) rest total s ok stops h = absurd ok.0
  copy_loop-measure f step ((chunk (x ∷ xs), broken k) ∷ passed) rest total s ok stops h =
      absurd (let q = ok.0 in cc)
  copy_loop-measure f step ((chunk (x ∷ xs), all) ∷ passed) rest total s ok stops h =
      let n = suc (length xs) in
      let later =
        copy_loop-measure f step passed rest (wrapping_add total n) (count n s) ok.1 stops
          (rw (step n total s) (omega arith)) in
      rw (suc_eq_zero (length xs))
        (omega (arith, later, step n total s, length-append xs (received passed)))

  -- What no write changes is not changed.
  copy_loop-keeps :
      {B : Type 0} (f : S → B)
      → ((n : ℕ) (s : S) → f (count n s) ≡ f s)
      → (reads : List (Read × Write)) (total : ℕ) (s : S)
      → f (copy_loop count reads total s).counters ≡ f s
  unfolding copy_loop
  copy_loop-keeps f step [] total s = refl
  copy_loop-keeps f step ((eof, w) ∷ rest) total s = refl
  copy_loop-keeps f step ((failed, w) ∷ rest) total s = refl
  copy_loop-keeps f step ((chunk bytes, broken k) ∷ rest) total s = refl
  copy_loop-keeps f step ((chunk [], all) ∷ rest) total s = refl
  copy_loop-keeps f step ((chunk (x ∷ xs), all) ∷ rest) total s =
      let n = suc (length xs) in
      rw (suc_eq_zero (length xs))
        (copy_loop-keeps f step rest (wrapping_add total n) (count n s) ∙ step n s)

-- What one direction has done with its reads: it has written what those that passed brought, in order,
-- and then what the write that failed, if one did, has written of its data; its total is the number of
-- bytes that those that passed brought, and it has ended if there was another read.
pub record Delivers {S : Type 0} (passed rest : List (Read × Write)) (c : Copied S) : Type 0 where
  pub in_order : c.written ≡ received passed ++ cut rest
  pub counted : c.total ≡ length (received passed) % u64_mod
  pub finished : c.ended ≡ has_stopped rest

copy_loop-Delivers :
    {S : Type 0} (count : ℕ → S → S) (passed rest : List (Read × Write)) (s : S)
    → All Passed passed
    → Stops rest
    → Delivers passed rest (copy_loop count (passed ++ rest) 0 s)
unfolding wrapping_add
copy_loop-Delivers count passed rest s h stops =
    let (written, ended) = copy_loop-Passed count passed rest 0 s h stops in
    record {
      in_order = written;
      counted = omega (
        arith,
        copy_loop-measure count (λ t s. t) (λ n total s. refl) passed rest 0 s h stops
            (omega arith),
      );
      finished = ended;
    }

-- In each direction the server writes the bytes of the reads that come before the first one that brings
-- nothing or whose bytes cannot all be written, in order, then as many of the bytes of that one as its
-- write has written before it failed, and ends with it; its total is the number of bytes of the reads
-- before that one, modulo 2^64. The QUIC send stream is finished once the target's direction has ended.
-- The global byte counters, which are words, rise by the same numbers, modulo 2^64.
pub proxy_userspace-Delivers :
    (quic_passed quic_rest tcp_passed tcp_rest : List (Read × Write)) (m : Metrics)
    → All Passed quic_passed
    → Stops quic_rest
    → All Passed tcp_passed
    → Stops tcp_rest
    → m.bytes_received < u64_mod
    → m.bytes_sent < u64_mod
    → let p = proxy_userspace (quic_passed ++ quic_rest) (tcp_passed ++ tcp_rest) m in
      Delivers quic_passed quic_rest p.to_target
      × Delivers tcp_passed tcp_rest p.to_client
      × (p.send_finished ≡ has_stopped tcp_rest)
      × (p.to_client.counters.bytes_received
          ≡ (m.bytes_received + length (received quic_passed)) % u64_mod)
      × (p.to_client.counters.bytes_sent ≡ (m.bytes_sent + length (received tcp_passed)) % u64_mod)
unfolding proxy_userspace bytes_rx bytes_tx
proxy_userspace-Delivers quic_passed quic_rest tcp_passed tcp_rest m hq sq ht st hr hs =
    let quic_reads = quic_passed ++ quic_rest in
    let tcp_reads = tcp_passed ++ tcp_rest in
    let mid = (copy_loop bytes_rx quic_reads 0 m).counters in
    let same : mid.bytes_sent ≡ m.bytes_sent =
      copy_loop-keeps bytes_rx (λ s. s.bytes_sent) (λ n s. refl) quic_reads 0 m in
    let to_client = copy_loop-Delivers bytes_tx tcp_passed tcp_rest mid ht st in
    (
      copy_loop-Delivers bytes_rx quic_passed quic_rest m hq sq,
      to_client,
      to_client.finished,
      copy_loop-keeps bytes_tx (λ s. s.bytes_received) (λ n s. refl) tcp_reads 0 mid
          ∙ copy_loop-measure bytes_rx (λ t s. s.bytes_received) (λ n total s. refl) quic_passed
              quic_rest 0 m hq sq hr,
      copy_loop-measure bytes_tx (λ t s. s.bytes_sent) (λ n total s. refl) tcp_passed tcp_rest 0 mid
            ht st (omega (arith, same))
          ∙ ap (λ (b : ℕ). (b + length (received tcp_passed)) % u64_mod) same,
    )

-- The client's loops deliver likewise.
pub proxy_bidirectional-Delivers :
    (local_passed local_rest quic_passed quic_rest : List (Read × Write))
    → All Passed local_passed
    → Stops local_rest
    → All Passed quic_passed
    → Stops quic_rest
    → let (tx, rx) = proxy_bidirectional (local_passed ++ local_rest) (quic_passed ++ quic_rest) in
      Delivers local_passed local_rest tx × Delivers quic_passed quic_rest rx
unfolding proxy_bidirectional
proxy_bidirectional-Delivers local_passed local_rest quic_passed quic_rest hl sl hq sq = (
  copy_loop-Delivers (λ _ s. s) local_passed local_rest tt hl sl,
  copy_loop-Delivers (λ _ s. s) quic_passed quic_rest tt hq sq,
)
