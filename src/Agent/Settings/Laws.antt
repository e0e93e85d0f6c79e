-- ===== src/Agent/Settings/Laws.antt =====
-- internal/agent/config.go: settings that are loaded make a debouncer that is accepted.
use Prim.Native.String.{String}
use mathlib.Core.Path.{subst}
use aap_config_server.Base.{
  ◌≡◌, refl, sym, ap, ◌≢◌, true, false, Option, none, some, arith, eq_iff, NoneFails, first_error,
  first_error-NoneFails,
}
use aap_config_server.Base.Eq.{text_has_eq}
use aap_config_server.Base.Int.{pos, leb_ℤ}
use aap_config_server.Agent.Debounce.{DebounceConfig, validate, new_debouncer}
use aap_config_server.Agent.Settings.{
  AgentConfig, Parsing, Loaded, loaded, not_loaded, with_value, trim_strings, agent_guards,
  validate_agent, env_config, after_validate, load_config,
}

-- the settings that the agent's debouncer is made of
abbrev pub debounce_config : AgentConfig → DebounceConfig
debounce_config c = record {
  cooldown = c.debounce_cooldown;
  quiet_period = c.debounce_quiet;
  max_wait = c.debounce_max_wait;
}

-- what the agent relies on in its settings
pub record IsUsable (p : Parsing) (c : AgentConfig) : Type 0 where
  pub named : (c.org ≢ "") × ((c.project ≢ "") × (c.service ≢ ""))
  pub timed : (leb_ℤ c.http_timeout (pos 0) ≡ false) × (leb_ℤ c.poll_interval (pos 0) ≡ false)
  pub debounces : (new_debouncer (debounce_config c)).1 ≡ none
  pub keyed : c.resolve_secrets ≡ true → c.api_key ≢ ""
  pub dry : c.dry_run ≡ true

module _ (p : Parsing) where
  guards-IsUsable : (c : AgentConfig) → NoneFails (agent_guards p c) → IsUsable p c
  unfolding new_debouncer validate
  guards-IsUsable c
        (
          u1,
          (u2, (u3, (u4, (o, (pr, (s, (h, (i, (dc, (dq, (dm, (mq, (mc, (k, (d, last))))))))))))))),
        ) =
      record {
        named = (
          λ e. ground (arith, eq_iff c.org ""),
          (λ e. ground (arith, eq_iff c.project ""), λ e. ground (arith, eq_iff c.service "")),
        );
        timed = (h, i);
        debounces = rw (dc, dq, dm, mq, mc) refl;
        keyed = λ r e. ground (arith, eq_iff c.api_key "");
        dry = ground arith;
      }

  through :
      {A G : Type 0} {c : AgentConfig} (key : String) (value : Option A) {next : A → Loaded}
      → with_value key value next ≡ loaded c
      → ((a : A) → next a ≡ loaded c → G)
      → G
  unfolding with_value
  through key none h go = absurd (cc h)
  through key (some a) h go = go a h

  module _ (getenv : String → String) (c : AgentConfig) where
    env_config-loaded :
        (next : AgentConfig → Loaded)
        → env_config p getenv next ≡ loaded c
        → (d : AgentConfig) × (next d ≡ loaded c)
    unfolding env_config
    env_config-loaded next h = through _ _ h (λ dry h1. through _ _ h1 (λ resolve h2.
        through _ _ h2 (λ http h3. through _ _ h3 (λ poll h4.
          through _ _ h4 (λ cooldown h5.
            through _ _ h5 (λ quiet h6. through _ _ h6 (λ max_wait h7. (_, h7))))))))

    checked_settings :
        (d : AgentConfig) (error : Option String)
        → error ≡ first_error (agent_guards p d)
        → after_validate p getenv (d, error) ≡ loaded c
        → IsUsable p c
    checked_settings d none is h =
        subst (λ x. IsUsable p x) (ap (λ l. elim l [ loaded x ↦ x | not_loaded key ↦ c ]) h)
          (guards-IsUsable d (first_error-NoneFails (agent_guards p d) (sym is)))
    checked_settings d (some key) is h = absurd (cc h)

    -- Settings that LoadConfig returns, from whatever environment and flags, name a service, have
    -- positive timeouts, carry a key if secrets are to be resolved, make a debouncer without an
    -- error, and ask for a dry run.
    pub load_config-IsUsable :
        (parse_args : AgentConfig → Option AgentConfig)
        → load_config p getenv parse_args ≡ loaded c
        → IsUsable p c
    unfolding load_config validate_agent
    load_config-IsUsable parse_args h =
        let found = env_config-loaded _ h in
        through _ _ found.1 (λ e h2.
          checked_settings (trim_strings p e) (first_error (agent_guards p (trim_strings p e))) refl
            h2)
