-- ===== src/Config/Rules.antt =====
-- internal/config/config.go: the `validate` tags of the configuration's fields, as a test. The
-- validator itself is a parameter (`Services.validate`).
pub mod Kept
use lspwatch.Common.{
  ℕ, ◌≡◌, refl, sym, ap, ◌∙◌, ◌⊎◌, inl, inr, Bool-cases, same_iff, subst, Bool, true, false, not,
  ◌&&◌, ◌||◌, Option, none, some, List, [], ◌∷◌, leb, is_some, if◌then◌else◌, Bytes, codes, same,
  contains, arith,
}
use lspwatch.Common.Int.{ℤ, pos, negsuc}
use lspwatch.Common.Results.{ok}
use lspwatch.Config.{
  LspwatchConfig, OpenTelemetryConfig, DatadogConfig, TlsConfig, Services, get_default_config,
  get_config, expand, expanded_headers, expanded_keys,
}
use lspwatch.Config.Valid.{get_config-valid, FromFile}

-- `omitnil`, and `omitempty` on a pointer
unfoldable pub optional : {A : Type 0} → (A → Bool) → Option A → Bool
optional test none = true
optional test (some a) = test a

-- `gte` and `lte`
unfoldable pub in_range : ℕ → ℕ → ℤ → Bool
in_range low high (pos n) = leb low n && leb n high
in_range low high (negsuc n) = false

-- `dive` and `oneof`
unfoldable pub all_of : List Bytes → List Bytes → Bool
unfolding contains
all_of options [] = true
all_of options (k ∷ ks) = contains options k && all_of options ks

-- `required`, on a string
is_set : Bytes → Bool
unfolding same
is_set t = not (same t [])

unfoldable pub batch_rules : DatadogConfig → Bool
unfolding optional in_range
batch_rules d = optional (in_range 1 500) d.batch_size && optional (in_range 1 250) d.batch_timeout

unfoldable pub key_rules : DatadogConfig → Bool
unfolding is_set
key_rules d = is_set d.client_api_key && is_set d.client_app_key

abbrev pub protocols : List Bytes
protocols = codes "grpc" ∷ codes "http" ∷ codes "file" ∷ []

abbrev pub tag_options : List Bytes
tag_options = codes "user" ∷ codes "os" ∷ codes "language_server" ∷ codes "ram" ∷ []

module _ (is_filepath : Bytes → Bool) where
  -- `omitempty,filepath`
  path_rule : Bytes → Bool
  unfolding is_set
  path_rule t = not (is_set t) || is_filepath t

  tls_rules : TlsConfig → Bool
  unfolding path_rule
  tls_rules t = path_rule t.ca_file && path_rule t.cert_file && path_rule t.key_file

  rules_but_protocol : OpenTelemetryConfig → Bool
  unfolding is_set tls_rules same
  rules_but_protocol o =
      (not (same o.protocol (codes "file")) || is_set o.directory)
      && (same o.protocol (codes "file") || is_set o.endpoint)
      && tls_rules o.tls
      && (not (is_set o.compression) || same o.compression (codes "gzip"))

  unfoldable pub open_telemetry_rules : OpenTelemetryConfig → Bool
  unfolding rules_but_protocol is_set contains
  open_telemetry_rules o =
      is_set o.protocol && contains protocols o.protocol && rules_but_protocol o

  -- `required_if`, and the rules of the sections that are there
  unfoldable pub section_rules : Bytes → Option OpenTelemetryConfig → Option DatadogConfig → Bool
  unfolding optional open_telemetry_rules batch_rules same
  section_rules exporter open_telemetry datadog =
      (not (same exporter (codes "opentelemetry")) || is_some open_telemetry)
      && (not (same exporter (codes "datadog")) || is_some datadog)
      && optional open_telemetry_rules open_telemetry
      && optional batch_rules datadog

  base_rules : LspwatchConfig → Bool
  unfolding optional in_range all_of is_set same contains
  base_rules c =
      (is_set c.exporter && contains (codes "opentelemetry" ∷ codes "datadog" ∷ []) c.exporter)
      && optional (all_of (codes "request.duration" ∷ codes "server.rss" ∷ [])) c.metrics
      && all_of tag_options c.tags
      && optional (in_range 1 1000) c.polling_interval

  -- The rules but those on the Datadog keys, which are expanded once they have been tested.
  unfoldable pub is_fit : LspwatchConfig → Bool
  unfolding base_rules section_rules
  is_fit c = base_rules c && section_rules c.exporter c.open_telemetry c.datadog

  unfoldable pub is_valid : LspwatchConfig → Bool
  unfolding optional key_rules is_fit
  is_valid c = is_fit c && optional key_rules c.datadog
