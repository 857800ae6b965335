-- ===== src/Exporters/Otel/Setup/Options.antt =====
-- The options of the OTLP exporters of internal/exporters/otel.go, and what their TLS configuration
-- is.
use lspwatch.Common.{
  ◌≡◌, ◌↔◌, inl, inr, Option, none, some, List, [], ◌∷◌, ◌++◌, if_cases, Bytes, same, same_iff,
  arith,
}
use lspwatch.Common.Results.{ok, ◌>>=◌, >>=-ok}
use lspwatch.Config.{TlsConfig, OpenTelemetryConfig}
use lspwatch.Exporters.Otel.Setup.{
  TlsSettings, GrpcOption, with_endpoint, with_headers, with_tls_credentials, with_insecure,
  with_timeout, with_compressor, HttpOption, http_endpoint, http_headers, http_tls, http_insecure,
  http_gzip, SetupApi, client_pool, own_certificates, new_tls_config, grpc_options, http_options,
  or_error, reading_ca, appending_ca,
}

-- The option of the HTTP exporter for one of the gRPC exporter; a timeout has none.
unfoldable pub counterpart : {Tls : Type 0} → GrpcOption Tls → List (HttpOption Tls)
counterpart (with_endpoint e) = http_endpoint e ∷ []
counterpart (with_headers h) = http_headers h ∷ []
counterpart (with_tls_credentials t) = http_tls t ∷ []
counterpart with_insecure = http_insecure ∷ []
counterpart (with_timeout n) = []
counterpart (with_compressor c) = http_gzip ∷ []

unfoldable pub counterparts : {Tls : Type 0} → List (GrpcOption Tls) → List (HttpOption Tls)
unfolding counterpart
counterparts [] = []
counterparts (o ∷ os) = counterpart o ++ counterparts os

module _ {Pool Cert Grpc Http Resource : Type 0} (api : SetupApi Pool Cert Grpc Http Resource) where
  -- Whatever the configuration: the HTTP exporter gets the options of the gRPC exporter, one for
  -- one and in order, but for the timeout, which it never gets.
  pub http_options-grpc_options :
      (cfg : OpenTelemetryConfig) (tls : TlsSettings Pool Cert)
      → http_options api cfg tls ≡ counterparts (grpc_options api cfg tls)
  unfolding http_options grpc_options counterparts counterpart
  http_options-grpc_options cfg tls = ground arith

  -- What a TLS configuration that was accepted says, field by field.
  new_tls_config_lem :
      (cfg : TlsConfig) (t : TlsSettings Pool Cert)
      → new_tls_config api cfg ≡ ok t
      → (t.insecure_skip_verify ≡ cfg.insecure_skip_verify)
        × (t.root_cas ≡ none)
        × (client_pool api cfg.ca_file ≡ ok t.client_cas)
        × (own_certificates api cfg.cert_file cfg.key_file ≡ ok t.certificates)
  unfolding new_tls_config
  new_tls_config_lem cfg t e =
      let (pool, p, e') = >>=-ok (client_pool api cfg.ca_file) _ e in
      let (certificates, c, e'') = >>=-ok (own_certificates api cfg.cert_file cfg.key_file) _ e' in
      (ground (arith, e''), ground (arith, e''), ground (arith, p, e''), ground (arith, c, e''))

  client_pool_lem :
      (ca_file : Bytes) (pool : Option Pool)
      → client_pool api ca_file ≡ ok pool
      → (ca_file ≡ []) ↔ (pool ≡ none)
  unfolding client_pool
  client_pool_lem ca_file pool e =
      elim (if_cases (same ca_file []) (ok none)
        (or_error reading_ca (api.read_file ca_file)
          >>= (λ pem. or_error appending_ca (api.pool_from_pem pem) >>= λ made. ok (some made)))
        e) [
          | inl (empty, q) ↦ ((λ n. ground (arith, q)), (λ n. (same_iff ca_file []).0 empty))
          | inr (named, q) ↦
              let (pem, read, q') = >>=-ok (or_error reading_ca (api.read_file ca_file)) _ q in
              let (made, parsed, q'') =
                >>=-ok (or_error appending_ca (api.pool_from_pem pem)) _ q' in
              (
                (λ n. ground (arith, named, (same_iff ca_file []).1 n)),
                (λ n. ground (arith, n, q'')),
              )
        ]

  -- The CA file changes nothing for a client. Of two configurations that differ in that file alone,
  -- when both are accepted, the results differ in the pool for the clients of a server alone: the
  -- pool by which a client judges a server is the system's in both, even where a file is named.
  pub new_tls_config-ca_file :
      (cfg : TlsConfig) (other : Bytes) (t u : TlsSettings Pool Cert)
      → new_tls_config api cfg ≡ ok t
      → new_tls_config api (record cfg { ca_file = other }) ≡ ok u
      → (u ≡ record t { client_cas = u.client_cas })
        × (t.root_cas ≡ none)
        × ((cfg.ca_file ≡ []) ↔ (t.client_cas ≡ none))
  new_tls_config-ca_file cfg other t u e f =
      let (skip, roots, pool, own) = new_tls_config_lem cfg t e in
      let (skip', roots', pool', own') = new_tls_config_lem (record cfg { ca_file = other }) u f in
      (
        ground (arith, skip, skip', roots, roots', own, own'),
        roots,
        client_pool_lem cfg.ca_file t.client_cas pool,
      )
