-- ===== src/Config/Validate.antt =====
-- internal/config/config.go: Decode after the document's parsing, and Validate.
use group_bridge.Base.{
  Bool, true, not, ◌&&◌, ◌||◌, Option, List, [], ◌∷◌, ◌++◌, ◌==◌, number_eq, Str, str_eq, bytes,
  is_empty, length, ℤ,
}
use group_bridge.Base.Exec.{Result, ok, err}
use group_bridge.Credential.Reference.{is_absolute}
use group_bridge.Config.Types.{
  Server, WebhookSection, Source, Config, ConfigError, with_webhook_env, with_client_env,
}
use group_bridge.Config.Checks.{Url, unless, when, validate_credential_reference, validate_base_url}
use group_bridge.Config.Targets.{check_targets}
use group_bridge.Config.Rules.{check_rules, is_negative, is_zero}

abbrev pub is_positive : ℤ → Bool
is_positive d = not (is_negative d) && not (is_zero d)

abbrev pub server_errors : Server → List ConfigError
server_errors s =
    when (is_empty s.address) ConfigError.no_address
    ++ (unless (is_positive s.shutdown_timeout) ConfigError.bad_shutdown_timeout
        ++ (when
              ((is_empty s.cert_file && not (is_empty s.key_file))
                || (not (is_empty s.cert_file) && is_empty s.key_file))
              ConfigError.lone_tls_file
            ++ when
                (not (is_empty s.cert_file)
                  && (not (is_absolute s.cert_file) || not (is_absolute s.key_file)))
                ConfigError.relative_tls_file))

abbrev pub webhook_errors : WebhookSection → List ConfigError
webhook_errors w =
    validate_credential_reference w.secret_env w.secret_file true
    ++ unless (is_positive w.max_skew) ConfigError.bad_max_skew

module _ (parse_url : Str → Option Url) (to_lower : Str → Str) where
  abbrev pub source_errors : Source → List ConfigError
  source_errors s =
      unless (s.kind == bytes "keycloak") ConfigError.unknown_source
      ++ (when (is_empty s.base_url || is_empty s.realm || is_empty s.client_id)
            ConfigError.incomplete_source
          ++ (validate_credential_reference s.client_secret_env s.client_secret_file true
              ++ (validate_base_url parse_url s.base_url s.allow_insecure_http
                  ++ unless (is_positive s.poll_interval) ConfigError.bad_poll_interval)))

  -- `Validate`, with all errors in their order.
  unfoldable pub validate : Config → List ConfigError
  validate c =
      let (target_errors, targets) = check_targets parse_url c.targets [] in
      server_errors c.server
      ++ (webhook_errors c.webhook
          ++ (source_errors c.source
              ++ (target_errors
                  ++ (when (length c.targets == 0) ConfigError.no_targets
                      ++ (check_rules to_lower targets [] c.rules
                          ++ (when (length c.rules == 0) ConfigError.no_rules
                              ++ when (is_empty c.state_path) ConfigError.no_state_path))))))

  abbrev pub if_faultless : Config → List ConfigError → Result (List ConfigError) Config
  if_faultless c [] = ok c
  if_faultless c (e ∷ es) = err (e ∷ es)

  -- `Decode`, from the document as it was parsed onto the defaults.
  unfoldable pub decode : Config → Result (List ConfigError) Config
  decode c =
      let filled = record c {
        webhook = with_webhook_env c.webhook;
        source = with_client_env c.source;
      } in
      if_faultless filled (validate filled)
