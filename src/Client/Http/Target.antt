-- ===== src/Client/Http/Target.antt =====
-- The target of a CONNECT request: what is printed is read back, and nothing else is read.
use mytunnel.Prelude.{
  ℕ, ◌≡◌, ◌≢◌, refl, ap, sym, ◌∙◌, ◌⊎◌, inl, inr, Bool-cases, [], ◌∷◌, ◌++◌, Option, none, some,
  arith, Text, Result, ok, err, ◌>>=◌, IsU16, false, to_decimal, parse_u16, parse_u16-to_decimal,
  to_decimal-Lacks, split_first, split_last, Lacks, split_first_lem, split_last_lem,
  split_first-inverse, split_last-inverse, ◌==◌,
}
use mytunnel.Server.Stream.{format_target}
use mytunnel.Client.Http.{
  parse_connect_target, bracketed, plain, with_port, Error, invalid_port, invalid_target_format,
  invalid_ipv6_target,
}

plain-format_target :
    (host : Text) (port : ℕ) → IsU16 port → plain (format_target host port) ≡ ok (host, port)
unfolding plain format_target
plain-format_target host port p = ground (
  arith,
  split_last_lem 58 host (to_decimal port) (to_decimal-Lacks port 58 refl),
  parse_u16-to_decimal port p,
)

-- The first byte is not an opening bracket.
abbrev pub Unbracketed : Text → Type 0
Unbracketed [] = Unit {0}
Unbracketed (c ∷ s) = c ≢ 91

-- A host and a port, joined by a colon as the server joins them, are read back, whatever colons the host
-- has, if it does not begin with an opening bracket and the port is a 16-bit number.
pub parse_connect_target-format_target :
    (host : Text) (port : ℕ)
    → IsU16 port
    → Unbracketed host
    → parse_connect_target (format_target host port) ≡ ok (host, port)
unfolding parse_connect_target format_target
parse_connect_target-format_target [] port p u = plain-format_target [] port p
parse_connect_target-format_target (c ∷ host) port p u =
    let other : (c == 91) ≡ false = ground arith in rw other (plain-format_target (c ∷ host) port p)

-- An address in brackets, with a colon and a 16-bit port behind them, is read as what stands in the
-- brackets, if that has no closing bracket, and the port.
pub parse_connect_target-bracketed :
    (host : Text) (port : ℕ)
    → IsU16 port
    → Lacks 93 host
    → parse_connect_target (91 ∷ host ++ 93 ∷ 58 ∷ to_decimal port) ≡ ok (host, port)
unfolding parse_connect_target bracketed
parse_connect_target-bracketed host port p h =
    ground (arith, split_first_lem 93 host (58 ∷ to_decimal port) h, parse_u16-to_decimal port p)

-- What a target that was read has to look like: the port's text, and the host before it.
pub record IsTarget (target host : Text) (port : ℕ) : Type 0 where
  pub port_str : Text
  pub port_read : parse_u16 port_str ≡ some port
  pub format : (target ≡ host ++ 58 ∷ port_str) ⊎ (target ≡ 91 ∷ host ++ 93 ∷ 58 ∷ port_str)

with_port-inverse :
    (host port_str h : Text) (port : ℕ)
    → with_port host port_str ≡ ok (h, port)
    → (h ≡ host) × (parse_u16 port_str ≡ some port)
with_port-inverse host port_str h port e = by_number (parse_u16 port_str) refl e
  where
    by_number :
        (o : Option ℕ)
        → parse_u16 port_str ≡ o
        → ◌≡◌ {A = Result Error (Text × ℕ)}
            ((elim o [ none ↦ err invalid_port | some n ↦ ok n ]) >>= λ n. ok (host, n))
            (ok (h, port))
        → (h ≡ host) × (parse_u16 port_str ≡ some port)
    by_number none q r = cc
    by_number (some n) q r = (ground arith, ground arith)

plain-IsTarget :
    (target host : Text) (port : ℕ) → plain target ≡ ok (host, port) → IsTarget target host port
unfolding plain
plain-IsTarget target host port e = by_split (split_last 58 target) refl e
  where
    by_split :
        (o : Option (Text × Text))
        → split_last 58 target ≡ o
        → ◌≡◌ {A = Result Error (Text × ℕ)}
            (elim o [
              | none ↦ err (invalid_target_format target)
              | some (h, port_str) ↦ with_port h port_str
            ])
            (ok (host, port))
        → IsTarget target host port
    by_split none q r = absurd (cc)
    by_split (some (h, port_str)) q r =
        let (same, read) = with_port-inverse h port_str host port r in
        record {
          port_str = port_str;
          port_read = read;
          format = inl (
              split_last-inverse 58 target h port_str q
              ∙ ap (λ (x : Text). x ++ 58 ∷ port_str) (sym same));
        }

bracketed-IsTarget :
    (target host inside behind : Text) (port : ℕ)
    → target ≡ 91 ∷ inside ++ 93 ∷ behind
    → bracketed target inside behind ≡ ok (host, port)
    → IsTarget target host port
unfolding bracketed
bracketed-IsTarget target host inside [] port t e = absurd (cc)
bracketed-IsTarget target host inside (c ∷ port_str) port t e = elim (Bool-cases (c == 58)) [
  | inl colon ↦
      let (same, read) = with_port-inverse inside port_str host port (rw colon at e) in
      let q : c ≡ 58 = ground arith in
      record {
        port_str = port_str;
        port_read = read;
        format = inr (
            t
            ∙ ap (λ (x : ℕ). 91 ∷ inside ++ 93 ∷ x ∷ port_str) q
            ∙ ap (λ (x : Text). 91 ∷ x ++ 93 ∷ 58 ∷ port_str) (sym same));
      }
  | inr other ↦ absurd (let r = rw other at e in cc)
]

-- A target is read as a host and a port only if it is the host, a colon and a number that is the port,
-- or the same with the host in brackets.
pub parse_connect_target-IsTarget :
    (target host : Text) (port : ℕ)
    → parse_connect_target target ≡ ok (host, port)
    → IsTarget target host port
unfolding parse_connect_target
parse_connect_target-IsTarget [] host port e = plain-IsTarget [] host port e
parse_connect_target-IsTarget (c ∷ s) host port e = elim (Bool-cases (c == 91)) [
  | inl bracket ↦ by_split (split_first 93 s) refl (ground arith) (rw bracket at e)
  | inr other ↦ plain-IsTarget (c ∷ s) host port (rw other at e)
]
  where
    by_split :
        (o : Option (Text × Text))
        → split_first 93 s ≡ o
        → c ≡ 91
        → ◌≡◌ {A = Result Error (Text × ℕ)}
            (elim o [
              | none ↦ err (invalid_ipv6_target (c ∷ s))
              | some (h, port_part) ↦ bracketed (c ∷ s) h port_part
            ])
            (ok (host, port))
        → IsTarget (c ∷ s) host port
    by_split none q b r = absurd (cc)
    by_split (some (inside, behind)) q b r =
        bracketed-IsTarget (c ∷ s) host inside behind port
          (ap (λ (x : ℕ). x ∷ s) b ∙ ap (◌∷◌ 91) (split_first-inverse 93 s inside behind q)) r
