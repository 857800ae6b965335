-- ===== src/Config/Valid.antt =====
-- Where a configuration that `getConfig` returns comes from.
use lspwatch.Common.{
  ◌≡◌, refl, sym, subst, ap₂, ◌∙◌, ◌⊎◌, inl, inr, true, Option, some, [], Bytes, same, same_iff,
  Bool-cases, if_cases, arith,
}
use lspwatch.Common.Results.{Result, ok, ◌>>=◌, >>=-ok}
use lspwatch.Config.{
  LspwatchConfig, ConfigError, Services, get_default_config, expand, unmarshalled, validated,
  loaded, environment, read_lspwatch_config, file_read, get_config,
}

module _ {E : Type 0} (services : Services E) where
  open services use {read_file, unmarshal, validate, load_env}

  -- The environment in which a configuration is expanded: that of the process, or what the `.env`
  -- file that the configuration names makes of it.
  pub HasLoaded : LspwatchConfig → E → E → Type 0
  HasLoaded d env env' =
      ((d.env_file_path ≡ []) × (env' ≡ env)) ⊎ (load_env d.env_file_path env ≡ some env')

  -- A configuration that comes from a file: decoded, found valid, and expanded.
  pub record FromFile (path : Bytes) (env : E) (c : LspwatchConfig) (env' : E) : Type 0 where
    pub bytes : Bytes
    pub written : LspwatchConfig
    pub is_read : read_file path ≡ some bytes
    pub is_decoded : unmarshal bytes ≡ some written
    pub accepted : validate written ≡ true
    pub loads : HasLoaded written env env'
    pub expanded : c ≡ expand services env' written

  environment_lem :
      (d : LspwatchConfig) (env env' : E)
      → environment services d env ≡ ok env'
      → HasLoaded d env env'
  unfolding environment loaded HasLoaded
  environment_lem d env env' e = elim (Bool-cases (same d.env_file_path [])) [
    | inl empty ↦ inl ((same_iff d.env_file_path []).0 empty, ground (arith, e, empty))
    | inr named ↦ inr (ground (arith, e, named))
  ]

  file_read_lem :
      (o : Option Bytes) (bytes : Bytes) → file_read services o ≡ ok bytes → o ≡ some bytes
  unfolding file_read
  file_read_lem o bytes e = ground arith

  unmarshalled_lem :
      (o : Option LspwatchConfig) (d : LspwatchConfig) → unmarshalled services o ≡ ok d → o ≡ some d
  unfolding unmarshalled
  unmarshalled_lem o d e = ground arith

  validated_lem :
      (c d : LspwatchConfig) → validated services c ≡ ok d → (c ≡ d) × (validate c ≡ true)
  unfolding validated
  validated_lem c d e = ground arith

  returned_pair :
      (a c : LspwatchConfig) (b d : E) (r : Result ConfigError (LspwatchConfig × E))
      → r ≡ ok (a, b)
      → r ≡ ok (c, d)
      → (a ≡ c) × (b ≡ d)
  returned_pair a c b d r p q = ground arith

  read_lspwatch_config_lem :
      (path bytes : Bytes) (env env' : E) (c : LspwatchConfig)
      → read_file path ≡ some bytes
      → read_lspwatch_config services bytes env ≡ ok (c, env')
      → FromFile path env c env'
  unfolding read_lspwatch_config
  read_lspwatch_config_lem path bytes env env' c r e =
      let (d, p, e') = >>=-ok (unmarshalled services (unmarshal bytes)) _ e in
      let (d', q, e'') = >>=-ok (validated services d) _ e' in
      let (env'', l, e3) = >>=-ok (environment services d' env) _ e'' in
      let (same_written, valid) = validated_lem d d' q in
      let (same_expanded, same_env) = returned_pair _ c _ env' _ refl e3 in
      record {
        bytes = bytes;
        written = d;
        is_read = r;
        is_decoded = unmarshalled_lem _ d p;
        accepted = valid;
        loads =
            subst (λ x. HasLoaded x env env') (sym same_written)
              (subst (λ x. HasLoaded d' env x) same_env (environment_lem d' env env'' l));
        expanded = sym same_expanded ∙ ap₂ (λ x y. expand services x y) same_env (sym same_written);
      }

  -- A configuration that the program starts with is the default one, when no path was given, or it
  -- is what the file decodes to, found valid before anything was expanded, and then expanded in the
  -- environment that its own `.env` file, if it names one, was loaded into.
  pub get_config-valid :
      (path : Bytes) (env env' : E) (c : LspwatchConfig)
      → get_config services path env ≡ ok (c, env')
      → ((path ≡ []) × (c ≡ get_default_config) × (env' ≡ env)) ⊎ FromFile path env c env'
  unfolding get_config
  get_config-valid path env env' c e =
      elim (if_cases (same path []) (ok (get_default_config, env))
        (file_read services (read_file path) >>= λ bytes. read_lspwatch_config services bytes env)
        e) [
          | inl (empty, q) ↦
              let (same_default, same_env) = returned_pair get_default_config c env env' _ refl q in
              inl ((same_iff path []).0 empty, sym same_default, sym same_env)
          | inr (given, q) ↦
              let (bytes, r, q') =
                >>=-ok (file_read services (read_file path))
                  (λ bytes. read_lspwatch_config services bytes env) q in
              inr (read_lspwatch_config_lem path bytes env env' c (file_read_lem _ bytes r) q')
        ]
