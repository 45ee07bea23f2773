-- ===== src/Installer/Plan/Outcomes.antt =====
-- The ends that `BuildPlan` of internal/installer/inspect.go can have: with the gateway, or without.
use my_safe.Prelude.{
  ◌≡◌, ◌≢◌, refl, ap, ◌⊎◌, inl, inr, true, false, Option, List, [], ◌∷◌, ◌++◌, Bool-cases,
  Option-cases,
}
use my_safe.Prelude.Int.{ℤ, pos, eq_ℤ}
use my_safe.Prelude.Text.{Text, codes, is_empty}
use my_safe.Prelude.Text.Number.{show_int}
use my_safe.Installer.Url.{Url, UrlError, validate_upstream}
use my_safe.Installer.Inspect.{Environment, ProxyCandidate}
use my_safe.Installer.Plan.{
  GatewaySelection, auto, required, disabled, Plan, is_unsupported, is_required, is_disabled,
  platform_blockers, empty_plan, agent_plan, with_upstream, with_candidates, with_gateway,
  without_gateway, refused_upstream, gateway_plan,
}

-- The Nginx file that a plan will edit is that of the only candidate, whose upstream is the plan's.
abbrev pub IsTheCandidate : Environment → Plan → Type 0
IsTheCandidate e plan =
    (c : ProxyCandidate) × (e.proxy_candidates ≡ c ∷ [])
    × (plan.nginx_config ≡ c.config_path)
    × (plan.upstream ≡ c.upstream)

-- A plan of the gateway, with what it listens on.
pub record IsGateway (e : Environment) (port : ℤ) (plan : Plan) : Type 0 where
  pub installable : plan.installable ≡ true
  pub unblocked : plan.blockers ≡ []
  pub listen : plan.gateway_listen ≡ codes "127.0.0.1:" ++ show_int port
  pub has_port : port ≢ pos 0
  pub edits : (plan.nginx_config ≡ []) ⊎ IsTheCandidate e plan

-- A plan without the gateway; if that was required the plan is not installable.
pub record IsSensor (selection : GatewaySelection) (plan : Plan) : Type 0 where
  pub off : plan.gateway_enabled ≡ false
  pub upstream : plan.upstream ≡ []
  pub nginx_config : plan.nginx_config ≡ []
  pub blocked : (is_required selection ≡ false) ⊎ (plan.installable ≡ false)

abbrev pub Outcome : Environment → GatewaySelection → ℤ → Plan → Type 0
Outcome e selection port plan =
    ((plan.gateway_enabled ≡ true) × IsGateway e port plan) ⊎ IsSensor selection plan

module _ (e : Environment) (selection : GatewaySelection) where
  without_gateway-IsSensor :
      (blocker : Text) (plan : Plan)
      → IsSensor auto plan
      → IsSensor selection (without_gateway selection blocker plan)
  unfolding without_gateway
  without_gateway-IsSensor blocker plan h = elim (Bool-cases (is_required selection)) [
    | inl must ↦ rw must (record {
      off = h.off;
      upstream = h.upstream;
      nginx_config = h.nginx_config;
      blocked = inr refl;
    })
    | inr may ↦ rw may (record {
      off = h.off;
      upstream = h.upstream;
      nginx_config = h.nginx_config;
      blocked = inl may;
    })
  ]

  notice-IsSensor :
      (notices : List Text) → IsSensor auto (record (agent_plan e) { notices = notices })
  unfolding agent_plan empty_plan
  notice-IsSensor notices = record {
    off = refl;
    upstream = refl;
    nginx_config = refl;
    blocked = inl refl;
  }

  Candidate : Text → Text → Type 0
  Candidate upstream nginx_config =
      (nginx_config ≡ [])
      ⊎ ((c : ProxyCandidate) × (e.proxy_candidates ≡ c ∷ [])
          × (nginx_config ≡ c.config_path)
          × (upstream ≡ c.upstream))

  gateway_plan-IsGateway :
      (port : ℤ) (upstream nginx_config : Text)
      → eq_ℤ port (pos 0) ≡ false
      → Candidate upstream nginx_config
      → Outcome e selection port (gateway_plan upstream nginx_config port (agent_plan e))
  unfolding gateway_plan agent_plan empty_plan Candidate
  gateway_plan-IsGateway port upstream nginx_config some_port from =
      let given : port ≢ pos 0 =
        λ zero_port. absurd (cc (some_port, ap (λ (q : ℤ). eq_ℤ q (pos 0)) zero_port)) in
      elim (Bool-cases (is_empty nginx_config)) [
        | inl none_given ↦ rw none_given (
            inl (
              refl,
              record {
                installable = refl;
                unblocked = refl;
                listen = refl;
                has_port = given;
                edits = from;
              },
            ))
        | inr found ↦ rw found (
            inl (
              refl,
              record {
                installable = refl;
                unblocked = refl;
                listen = refl;
                has_port = given;
                edits = from;
              },
            ))
      ]

  with_upstream-Outcome :
      (port : ℤ) (upstream nginx_config : Text)
      → Candidate upstream nginx_config
      → Outcome e selection port (with_upstream selection port upstream nginx_config (agent_plan e))
  unfolding with_upstream
  with_upstream-Outcome port upstream nginx_config h = elim (Bool-cases (eq_ℤ port (pos 0))) [
    | inl no_port ↦ rw no_port (inr (without_gateway-IsSensor _ _ (notice-IsSensor _)))
    | inr has_port ↦ rw has_port (gateway_plan-IsGateway port upstream nginx_config has_port h)
  ]

  with_candidates-Outcome :
      (port : ℤ) (cs : List ProxyCandidate)
      → e.proxy_candidates ≡ cs
      → Outcome e selection port (with_candidates selection port cs (agent_plan e))
  unfolding with_candidates Candidate
  with_candidates-Outcome port [] all = inr (without_gateway-IsSensor _ _ (notice-IsSensor _))
  with_candidates-Outcome port (c ∷ []) all =
      with_upstream-Outcome port c.upstream c.config_path (inr (c, all, refl, refl))
  with_candidates-Outcome port (c ∷ c' ∷ cs) all =
      inr (without_gateway-IsSensor _ _ (notice-IsSensor _))

  refused_upstream-IsSensor :
      (error : UrlError) → IsSensor selection (refused_upstream selection error (agent_plan e))
  unfolding refused_upstream agent_plan empty_plan
  refused_upstream-IsSensor error = elim (Bool-cases (is_required selection)) [
    | inl must ↦
        rw must (record { off = refl; upstream = refl; nginx_config = refl; blocked = inr refl })
    | inr may ↦
        rw may (record { off = refl; upstream = refl; nginx_config = refl; blocked = inl may })
  ]

  pub with_gateway-Outcome :
      (parse_url : Text → Option Url) (port : ℤ) (upstream : Text)
      → Outcome e selection port (with_gateway parse_url e selection port upstream (agent_plan e))
  unfolding with_gateway Candidate
  with_gateway-Outcome parse_url port upstream = elim (Bool-cases (is_empty upstream)) [
    | inl none_given ↦ rw none_given (with_candidates-Outcome port e.proxy_candidates refl)
    | inr given ↦ elim (Option-cases (validate_upstream parse_url upstream)) [
      | inl valid ↦ rw (given, valid) (with_upstream-Outcome port upstream [] (inl refl))
      | inr (error, invalid) ↦ rw (given, invalid) (inr (refused_upstream-IsSensor error))
    ]
  ]

pub disabled_not_required : (s : GatewaySelection) → is_disabled s ≡ true → is_required s ≡ false
unfolding is_disabled
disabled_not_required auto h = refl
disabled_not_required required h = absurd (cc h)
disabled_not_required disabled h = refl

pub platform_blockers-none :
    (e : Environment)
    → is_empty (platform_blockers e) ≡ true
    → (is_unsupported e.support ≡ false) × (e.systemd.available ≡ true)
unfolding platform_blockers
platform_blockers-none e h = elim (Bool-cases (is_unsupported e.support)) [
  | inl bad ↦ absurd (cc (rw bad at h))
  | inr good ↦ elim (Bool-cases e.systemd.available) [
    | inl there ↦ (good, there)
    | inr missing ↦ absurd (cc (rw (good, missing) at h))
  ]
]
