-- ===== src/Config/Laws.antt =====
-- internal/config/config.go: what Validate lets through.
use Prim.Native.String.{String}
use aap_config_server.Base.{
  ◌≡◌, refl, ◌≢◌, ◌⊎◌, Bool, true, false, Option, none, some, if◌then◌else◌, Bool-cases, inl, inr,
  arith, eq_iff, NoneFails, first_error, first_error-NoneFails, or_then-none,
}
use aap_config_server.Base.Eq.{◌==◌, text_has_eq}
use aap_config_server.Base.Int.{ℤ, pos, ltb_ℤ, leb_ℤ}
use aap_config_server.Config.{
  Rate, not_a_number, infinite, below_zero, zero_rate, above_zero, RateLimitConfig, ServerConfig,
  is_abs, is_zero, validate_rate_limit, server_guards, limit_errors, validate_server,
  apply_defaults,
}

-- a limiter is off, or it lets some requests through: both knobs are above zero
abbrev pub IsLimit : RateLimitConfig → Type 0
IsLimit cfg =
    ((cfg.requests_per_second ≡ zero_rate) × (is_zero cfg.burst ≡ true))
    ⊎ ((cfg.requests_per_second ≡ above_zero) × (leb_ℤ cfg.burst (pos 0) ≡ false))

-- what the server relies on in its settings
pub record IsServable (c : ServerConfig) : Type 0 where
  pub polls : (c.git_url ≢ "") × (leb_ℤ c.git_poll_interval (pos 0) ≡ false)
  pub keyed : c.api_key ≡ "" → c.allow_unauthenticated_dev ≡ true
  pub one_credential : c.git_ssh_key_path ≢ "" → (c.git_username ≡ "") × (c.git_password ≡ "")
  pub both_or_neither : (c.git_username == "") ≡ (c.git_password == "")
  pub mounted : is_abs c.secret_mount_path ≡ true
  pub scoped :
      (c.sealed_secret_scope ≡ "strict")
      ⊎ ((c.sealed_secret_scope ≡ "namespace-wide") ⊎ (c.sealed_secret_scope ≡ "cluster-wide"))
  pub backs_off :
      (leb_ℤ c.bootstrap_initial_backoff (pos 0) ≡ false)
      × (ltb_ℤ c.bootstrap_max_backoff c.bootstrap_initial_backoff ≡ false)
  pub limits :
      IsLimit c.rate_limit_admin
      × (IsLimit c.rate_limit_secret_resolve
          × (IsLimit c.rate_limit_watch × (IsLimit c.rate_limit_batch × IsLimit c.rate_limit_read)))

zero_refused :
    (prefix : String) (low zero : Bool)
    → zero ≡ false
    → (if low then some prefix else if zero then none else some prefix) ≢ none
zero_refused prefix true zero is h = cc h
zero_refused prefix false true is h = cc is
zero_refused prefix false false is h = cc h

burst_refused :
    (prefix : String) (low small : Bool)
    → small ≡ true
    → (if low then some prefix else if small then some prefix else none) ≢ none
burst_refused prefix true small is h = cc h
burst_refused prefix false true is h = cc h
burst_refused prefix false false is h = cc is

rate-IsLimit :
    (prefix : String) (rate : Rate) (burst : ℤ)
    → validate_rate_limit prefix (record { requests_per_second = rate; burst = burst }) ≡ none
    → IsLimit (record { requests_per_second = rate; burst = burst })
unfolding validate_rate_limit
rate-IsLimit prefix not_a_number burst h = absurd (cc h)
rate-IsLimit prefix infinite burst h = absurd (cc h)
rate-IsLimit prefix below_zero burst h = absurd (cc h)
rate-IsLimit prefix zero_rate burst h = elim (Bool-cases (is_zero burst)) [
  | inl y ↦ inl (refl, y)
  | inr n ↦ absurd (zero_refused prefix (ltb_ℤ burst (pos 0)) (is_zero burst) n h)
]
rate-IsLimit prefix above_zero burst h = elim (Bool-cases (leb_ℤ burst (pos 0))) [
  | inl y ↦ absurd (burst_refused prefix (ltb_ℤ burst (pos 0)) (leb_ℤ burst (pos 0)) y h)
  | inr n ↦ inr (refl, n)
]

module _ (parse_url : String → Option (String × String)) where
  limit_errors-IsLimit :
      (c : ServerConfig)
      → limit_errors parse_url c ≡ none
      → IsLimit c.rate_limit_admin
        × (IsLimit c.rate_limit_secret_resolve
            × (IsLimit c.rate_limit_watch
                × (IsLimit c.rate_limit_batch × IsLimit c.rate_limit_read)))
  limit_errors-IsLimit c h =
      let (a, h1) = or_then-none _ _ h in
      let (s, h2) = or_then-none _ _ h1 in
      let (w, h3) = or_then-none _ _ h2 in
      let (b, r) = or_then-none _ _ h3 in
      (
        rate-IsLimit _ _ _ a,
        (
          rate-IsLimit _ _ _ s,
          (rate-IsLimit _ _ _ w, (rate-IsLimit _ _ _ b, rate-IsLimit _ _ _ r)),
        ),
      )

  guards-IsServable :
      (c : ServerConfig)
      → NoneFails (server_guards parse_url c)
      → limit_errors parse_url c ≡ none
      → IsServable c
  guards-IsServable c
        (
          url,
          (
            poll,
            (
              key,
              (
                ssh,
                (
                  basic,
                  (
                    m1,
                    (
                      m2,
                      (
                        n1,
                        (
                          n2,
                          (scope, (k8s, (u1, (u2, (u3, (api, (att, (ini, (mx, (ord, last)))))))))),
                        ),
                      ),
                    ),
                  ),
                ),
              ),
            ),
          ),
        )
        limits =
      record {
        polls = (λ e. ground (arith, eq_iff c.git_url ""), poll);
        keyed = λ e. ground (arith, eq_iff c.api_key "");
        one_credential = λ there. (
          ground (arith, eq_iff c.git_ssh_key_path "", eq_iff c.git_username ""),
          ground (arith, eq_iff c.git_ssh_key_path "", eq_iff c.git_password ""),
        );
        both_or_neither = ground arith;
        mounted = ground arith;
        scoped = elim (Bool-cases (c.sealed_secret_scope == "strict")) [
          | inl y ↦ inl ((eq_iff c.sealed_secret_scope "strict").0 y)
          | inr n ↦ elim (Bool-cases (c.sealed_secret_scope == "namespace-wide")) [
            | inl y ↦ inr (inl ((eq_iff c.sealed_secret_scope "namespace-wide").0 y))
            | inr m ↦ inr (inr ((eq_iff c.sealed_secret_scope "cluster-wide").0 (ground arith)))
          ]
        ];
        backs_off = (ini, ord);
        limits = limit_errors-IsLimit c limits;
      }

  -- Settings that Validate accepts, with the defaults it fills in, have a repository that is
  -- polled, a key unless the development mode is asked for, one kind of Git credential at most, an
  -- absolute mount, one of the three scopes, a backoff whose maximum is not below its start, and
  -- rate limits that are off or above zero.
  pub validate_server-IsServable :
      (c : ServerConfig)
      → (validate_server parse_url c).1 ≡ none
      → IsServable (validate_server parse_url c).0
  unfolding validate_server
  validate_server-IsServable c h =
      let both =
        or_then-none (first_error (server_guards parse_url (apply_defaults c)))
          (limit_errors parse_url (apply_defaults c)) h in
      guards-IsServable (apply_defaults c)
        (first_error-NoneFails (server_guards parse_url (apply_defaults c)) both.0) both.1
