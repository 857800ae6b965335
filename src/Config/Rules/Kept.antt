-- ===== src/Config/Rules/Kept.antt =====
-- What of the rules of internal/config/config.go still holds of a configuration that `getConfig`
-- returns.
use lspwatch.Common.{
  ◌≡◌, refl, sym, ap, ◌∙◌, ◌⊎◌, inl, inr, Bool-cases, same_iff, subst, Bool, true, not, ◌&&◌, ◌||◌,
  Option, none, some, [], ◌∷◌, is_some, Bytes, codes, same, contains, arith,
}
use lspwatch.Common.Results.{ok}
use lspwatch.Config.{
  LspwatchConfig, OpenTelemetryConfig, DatadogConfig, Services, get_default_config, get_config,
  expand, expanded_headers, expanded_keys,
}
use lspwatch.Config.Valid.{get_config-valid}
use lspwatch.Config.Rules.{
  optional, in_range, all_of, is_set, protocols, tag_options, batch_rules, key_rules,
  rules_but_protocol, open_telemetry_rules, section_rules, base_rules, is_fit, is_valid,
}

pub both_true : (a b : Bool) → (a && b) ≡ true → (a ≡ true) × (b ≡ true)
both_true a b h = ground arith

base_parts : (a b c d e : Bool) → ((a && b) && c && d && e) ≡ true → (b ≡ true) × (d ≡ true)
base_parts a b c d e h = ground arith

last_part : (a b c d e : Bool) → ((a && b) && c && d && e) ≡ true → e ≡ true
last_part a b c d e h = ground arith

middle : (a b c : Bool) → (a && b && c) ≡ true → b ≡ true
middle a b c h = ground arith

last_of : (a b c d : Bool) → (a && b && c && d) ≡ true → (c ≡ true) × (d ≡ true)
last_of a b c d h = ground arith

module _ (is_filepath : Bytes → Bool) where
  default-is_valid : is_valid is_filepath get_default_config ≡ true
  unfolding is_valid get_default_config
  default-is_valid = refl

  default-is_fit : is_fit is_filepath get_default_config ≡ true
  unfolding is_fit get_default_config
  default-is_fit = refl

  fit-of-valid : (c : LspwatchConfig) → is_valid is_filepath c ≡ true → is_fit is_filepath c ≡ true
  unfolding is_valid
  fit-of-valid c h = (both_true (is_fit is_filepath c) (optional key_rules c.datadog) h).0

  -- What the rules say of the exporter and its section, and of the tags.
  unfoldable pub HasSection : LspwatchConfig → Type 0
  HasSection c =
      ((c.exporter ≡ codes "opentelemetry")
        × ((o : OpenTelemetryConfig) × (c.open_telemetry ≡ some o)
            × (contains protocols o.protocol ≡ true)))
      ⊎ ((c.exporter ≡ codes "datadog")
          × ((d : DatadogConfig) × (c.datadog ≡ some d) × (batch_rules d ≡ true)))

  known_protocol :
      (o : OpenTelemetryConfig)
      → open_telemetry_rules is_filepath o ≡ true
      → contains protocols o.protocol ≡ true
  unfolding open_telemetry_rules
  known_protocol o h =
      middle (is_set o.protocol) (contains protocols o.protocol) (rules_but_protocol is_filepath o)
        h

  open_telemetry_section :
      (o : Option OpenTelemetryConfig) (d : Option DatadogConfig)
      → section_rules is_filepath (codes "opentelemetry") o d ≡ true
      → (s : OpenTelemetryConfig) × (o ≡ some s) × (open_telemetry_rules is_filepath s ≡ true)
  unfolding section_rules optional same
  open_telemetry_section none d h = cc
  open_telemetry_section (some s) d h = (
    s,
    refl,
    (last_of (not (same (codes "opentelemetry") (codes "opentelemetry")) || is_some (some s))
        (not (same (codes "opentelemetry") (codes "datadog")) || is_some d)
        (open_telemetry_rules is_filepath s) (optional batch_rules d) h).0,
  )

  datadog_section :
      (o : Option OpenTelemetryConfig) (d : Option DatadogConfig)
      → section_rules is_filepath (codes "datadog") o d ≡ true
      → (s : DatadogConfig) × (d ≡ some s) × (batch_rules s ≡ true)
  unfolding section_rules optional same
  datadog_section o none h = cc
  datadog_section o (some s) h = (
    s,
    refl,
    (last_of (not (same (codes "datadog") (codes "opentelemetry")) || is_some o)
        (not (same (codes "datadog") (codes "datadog")) || is_some (some s))
        (optional (open_telemetry_rules is_filepath) o) (batch_rules s) h).1,
  )

  known_exporter :
      (e : Bytes)
      → contains (codes "opentelemetry" ∷ codes "datadog" ∷ []) e ≡ true
      → (e ≡ codes "opentelemetry") ⊎ (e ≡ codes "datadog")
  unfolding contains
  known_exporter e h = elim (Bool-cases (same (codes "opentelemetry") e)) [
    | inl otel ↦ inl (sym ((same_iff (codes "opentelemetry") e).0 otel))
    | inr other ↦ elim (Bool-cases (same (codes "datadog") e)) [
      | inl datadog ↦ inr (sym ((same_iff (codes "datadog") e).0 datadog))
      | inr neither ↦ absurd (ground (arith, h, other, neither))
    ]
  ]

  pub is_fit-polling_interval :
      (c : LspwatchConfig)
      → is_fit is_filepath c ≡ true
      → optional (in_range 1 1000) c.polling_interval ≡ true
  unfolding is_fit
  is_fit-polling_interval c h =
      last_part (is_set c.exporter)
        (contains (codes "opentelemetry" ∷ codes "datadog" ∷ []) c.exporter)
        (optional (all_of (codes "request.duration" ∷ codes "server.rss" ∷ [])) c.metrics)
        (all_of tag_options c.tags) (optional (in_range 1 1000) c.polling_interval)
        (both_true (base_rules is_filepath c)
          (section_rules is_filepath c.exporter c.open_telemetry c.datadog) h).0

  -- What the rules say of the sections, and of the tags.
  pub is_fit_lem :
      (c : LspwatchConfig)
      → is_fit is_filepath c ≡ true
      → HasSection c × (all_of tag_options c.tags ≡ true)
  unfolding is_fit HasSection
  is_fit_lem c h =
      let (base, sections) =
        both_true (base_rules is_filepath c)
          (section_rules is_filepath c.exporter c.open_telemetry c.datadog) h in
      let (exporter, tags) =
        base_parts (is_set c.exporter)
          (contains (codes "opentelemetry" ∷ codes "datadog" ∷ []) c.exporter)
          (optional (all_of (codes "request.duration" ∷ codes "server.rss" ∷ [])) c.metrics)
          (all_of tag_options c.tags) (optional (in_range 1 1000) c.polling_interval) base in
      (
        elim (known_exporter c.exporter exporter) [
          | inl otel ↦
              let (o, found, rules) = open_telemetry_section c.open_telemetry c.datadog (
                subst (λ e. section_rules is_filepath e c.open_telemetry c.datadog ≡ true) otel
                  sections) in
              inl (otel, (o, found, known_protocol o rules))
          | inr datadog ↦ inr (
            datadog,
            datadog_section c.open_telemetry c.datadog (
                subst (λ e. section_rules is_filepath e c.open_telemetry c.datadog ≡ true) datadog
                  sections),
          )
        ],
        tags,
      )

  module _ {E : Type 0} (services : Services E) where
    open services use {validate}

    -- The validator reports no error only where the rules hold.
    abbrev pub KeepsRules : Type 0
    KeepsRules = (c : LspwatchConfig) → validate c ≡ true → is_valid is_filepath c ≡ true

    expand-section_rules :
        (env : E) (exporter : Bytes) (o : Option OpenTelemetryConfig) (d : Option DatadogConfig)
        → section_rules is_filepath exporter
            (expanded_headers services env o)
            (expanded_keys services env d)
          ≡ section_rules is_filepath exporter o d
    unfolding section_rules optional expanded_headers expanded_keys
    expand-section_rules env exporter none none = refl
    expand-section_rules env exporter none (some d) = refl
    expand-section_rules env exporter (some o) none = refl
    expand-section_rules env exporter (some o) (some d) = refl

    expand-is_fit :
        (env : E) (c : LspwatchConfig)
        → is_fit is_filepath (expand services env c) ≡ is_fit is_filepath c
    unfolding is_fit expand
    expand-is_fit env c =
        ap (λ b. base_rules is_filepath c && b)
          (expand-section_rules env c.exporter c.open_telemetry c.datadog)

    -- With a validator that keeps the rules, every configuration that the program starts with
    -- satisfies them, but for those on the Datadog keys: an environment variable that is not set
    -- can leave a key empty.
    pub get_config-is_fit :
        (path : Bytes) (env env' : E) (c : LspwatchConfig)
        → KeepsRules
        → get_config services path env ≡ ok (c, env')
        → is_fit is_filepath c ≡ true
    get_config-is_fit path env env' c keeps e = elim (get_config-valid services path env env' c e) [
      | inl (none_given, default, kept) ↦ ap (is_fit is_filepath) default ∙ default-is_fit
      | inr file ↦
          ap (is_fit is_filepath) file.expanded
          ∙ expand-is_fit env' file.written
          ∙ fit-of-valid file.written (keeps file.written file.accepted)
    ]
