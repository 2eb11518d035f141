-- ===== src/Server/Certs.antt =====
-- `load_or_generate_certs` of src/server/listener.rs: the server's certificates and its key. A file that
-- exists has bytes, if it can be read. The crates rustls_pemfile and rcgen are an interface.
use mytunnel.Prelude.{
  ◌≡◌, refl, sym, ap, ◌∙◌, ◌⊎◌, inl, inr, ℕ, Bool, true, false, ◌&&◌, Option, none, some, List, [],
  ◌∷◌, Text, if◌then◌else◌, Result, ok, err, ◌>>=◌, ok_or, ok_or-ok, then_ok,
}
use mytunnel.Server.Config.{TlsConfig}

pub data Error : Type 0 where
  unreadable_cert unreadable_key invalid_certs invalid_key no_key not_generated not_found : Error

pub record Pem : Type 1 where
  pub Cert : Type 0
  pub Key : Type 0
  pub certs : List ℕ → Option (List Cert)
  pub private_key : List ℕ → Option (Option Key)
  pub self_signed : Option (Cert × Key)

abbrev pub Files : Type 0
Files = Text → Option (Option (List ℕ))

-- `Path::exists` and `fs::read`
abbrev pub exists : Files → Text → Bool
exists files path = elim (files path) [ none ↦ false | some contents ↦ true ]

abbrev pub read : Files → Text → Option (List ℕ)
read files path = elim (files path) [ none ↦ none | some contents ↦ contents ]

module _ (pem : Pem) where
  -- The two files are read and parsed.
  load_certs : Files → TlsConfig → Result Error (List pem.Cert × pem.Key)
  load_certs files tls = ok_or (read files tls.cert_path) unreadable_cert >>= λ cert_pem.
      ok_or (read files tls.key_path) unreadable_key >>= λ key_pem.
      ok_or (pem.certs cert_pem) invalid_certs >>= λ certs.
      ok_or (pem.private_key key_pem) invalid_key >>= λ found.
      ok_or found no_key >>= λ key. ok (certs, key)

  generated : Option (pem.Cert × pem.Key) → Result Error (List pem.Cert × pem.Key)
  generated none = err not_generated
  generated (some (cert, key)) = ok (cert ∷ [], key)

  -- `load_or_generate_certs`
  unfoldable pub load_or_generate_certs : Files → TlsConfig → Result Error (List pem.Cert × pem.Key)
  unfolding load_certs generated
  load_or_generate_certs files tls =
      if exists files tls.cert_path && exists files tls.key_path
      then load_certs files tls
      else if tls.auto_generate
      then generated pem.self_signed
      else err not_found

  -- The certificates and the key are those of the configured files.
  pub record Loaded (files : Files) (tls : TlsConfig) (certs : List pem.Cert) (key : pem.Key)
      : Type 0 where
    pub cert_pem : List ℕ
    pub key_pem : List ℕ
    pub cert_read : read files tls.cert_path ≡ some cert_pem
    pub key_read : read files tls.key_path ≡ some key_pem
    pub cert_parsed : pem.certs cert_pem ≡ some certs
    pub key_parsed : pem.private_key key_pem ≡ some (some key)

  -- They are new ones, as the configuration allows it and a file is missing.
  pub record Generated (files : Files) (tls : TlsConfig) (certs : List pem.Cert) (key : pem.Key)
      : Type 0 where
    pub allowed : tls.auto_generate ≡ true
    pub missing : (exists files tls.cert_path && exists files tls.key_path) ≡ false
    pub cert : pem.Cert
    pub single : certs ≡ cert ∷ []
    pub signed : pem.self_signed ≡ some (cert, key)

  generated-Generated :
      (files : Files) (tls : TlsConfig) (certs : List pem.Cert) (key : pem.Key)
      → tls.auto_generate ≡ true
      → (exists files tls.cert_path && exists files tls.key_path) ≡ false
      → generated pem.self_signed ≡ ok (certs, key)
      → Generated files tls certs key
  unfolding generated
  generated-Generated files tls certs key allowed missing e = by_answer pem.self_signed refl e
    where
      by_answer :
          (o : Option (pem.Cert × pem.Key))
          → pem.self_signed ≡ o
          → generated o ≡ ok (certs, key)
          → Generated files tls certs key
      by_answer none s e = absurd cc
      by_answer (some (cert, k)) s e =
          let same : ◌≡◌ {A = List pem.Cert × pem.Key} (cert ∷ [], k) (certs, key) = cc in
          record {
            allowed = allowed;
            missing = missing;
            cert = cert;
            single = sym (ap (λ x. x.0) same);
            signed = s ∙ ap (λ x. some (cert, x)) (ap (λ x. x.1) same);
          }

  load_certs-Loaded :
      (files : Files) (tls : TlsConfig) (certs : List pem.Cert) (key : pem.Key)
      → load_certs files tls ≡ ok (certs, key)
      → Loaded files tls certs key
  unfolding load_certs
  load_certs-Loaded files tls certs key e =
      let (cert_pem, cert_read, e₁) = then_ok (ok_or (read files tls.cert_path) _) _ _ e in
      let (key_pem, key_read, e₂) = then_ok (ok_or (read files tls.key_path) _) _ _ e₁ in
      let (certs', cert_parsed, e₃) = then_ok (ok_or (pem.certs cert_pem) _) _ _ e₂ in
      let (found, key_parsed, e₄) = then_ok (ok_or (pem.private_key key_pem) _) _ _ e₃ in
      let (key', there, e₅) = then_ok (ok_or found _) _ _ e₄ in
      let same : ◌≡◌ {A = List pem.Cert × pem.Key} (certs', key') (certs, key) = cc in
      record {
        cert_pem = cert_pem;
        key_pem = key_pem;
        cert_read = ok_or-ok _ _ cert_pem cert_read;
        key_read = ok_or-ok _ _ key_pem key_read;
        cert_parsed = ok_or-ok _ _ certs' cert_parsed ∙ ap (λ x. some x.0) same;
        key_parsed =
            ok_or-ok _ _ found key_parsed
            ∙ ap some (ok_or-ok found _ key' there ∙ ap (λ x. some x.1) same);
      }

  -- What the function returns comes from the two configured files; or it is a new self-signed certificate
  -- with its key, the configuration says `auto_generate`, and one of the files is missing.
  pub load_or_generate_certs_lem :
      (files : Files) (tls : TlsConfig) (certs : List pem.Cert) (key : pem.Key)
      → load_or_generate_certs files tls ≡ ok (certs, key)
      → Loaded files tls certs key ⊎ Generated files tls certs key
  unfolding load_or_generate_certs
  load_or_generate_certs_lem files tls certs key e =
      by_files (exists files tls.cert_path && exists files tls.key_path) refl tls.auto_generate refl
        e
    where
      by_files :
          (there : Bool)
          → (exists files tls.cert_path && exists files tls.key_path) ≡ there
          → (auto : Bool) → tls.auto_generate ≡ auto
          → (if there
              then load_certs files tls
              else if auto
              then generated pem.self_signed
              else err not_found)
            ≡ ok (certs, key)
          → Loaded files tls certs key ⊎ Generated files tls certs key
      by_files true found auto a e = inl (load_certs-Loaded files tls certs key e)
      by_files false missing true a e = inr (generated-Generated files tls certs key a missing e)
      by_files false missing false a e = absurd cc
