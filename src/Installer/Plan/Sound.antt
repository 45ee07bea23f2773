-- ===== src/Installer/Plan/Sound.antt =====
-- What a plan of internal/installer/inspect.go guarantees.
use my_safe.Prelude.{ℕ, ◌≡◌, refl, ◌∙◌, ◌⊎◌, inl, inr, true, false, Option, ◌++◌, Bool-cases}
use my_safe.Prelude.Int.{pos}
use my_safe.Prelude.Text.{Text, codes, is_empty, trim_space}
use my_safe.Prelude.Text.Number.{show_int}
use my_safe.Installer.Url.{Url}
use my_safe.Installer.Inspect.{Environment}
use my_safe.Installer.Plan.{
  PlanOptions, Plan, planned_port, is_unsupported, is_disabled, platform_blockers, empty_plan,
  agent_plan, build_plan,
}
use my_safe.Installer.Plan.Port.{IsPlanned, planned_port-cases}
use my_safe.Installer.Plan.Outcomes.{
  Outcome, with_gateway-Outcome, disabled_not_required, platform_blockers-none,
}

-- What holds of every plan that is made in the environment.
pub record IsSound (e : Environment) (options : PlanOptions) (plan : Plan) : Type 0 where
  pub platform :
      (plan.installable ≡ false)
      ⊎ ((is_unsupported e.support ≡ false) × (e.systemd.available ≡ true))
  pub outcome : Outcome e options.gateway (planned_port e options.gateway_port) plan
  pub switched_off : (is_disabled options.gateway ≡ false) ⊎ (plan.gateway_enabled ≡ false)

module _ (parse_url : Text → Option Url) (e : Environment) (options : PlanOptions) where
  -- An installable plan is for a supported platform with systemd. A plan with the gateway is installable, has no
  -- blockers, listens on the planned port, and edits no Nginx file but that of the only candidate. Without the
  -- gateway no file is edited, and the plan is not installable if the gateway was required. A gateway that is
  -- disabled is left out.
  pub build_plan-IsSound : IsSound e options (build_plan parse_url e options)
  unfolding build_plan agent_plan empty_plan
  build_plan-IsSound = elim (Bool-cases (is_empty (platform_blockers e))) [
    | inr bad ↦ rw bad (record {
      platform = inl refl;
      outcome =
          inr (record { off = refl; upstream = refl; nginx_config = refl; blocked = inr refl });
      switched_off = inr refl;
    })
    | inl fit ↦
        let platform = platform_blockers-none e fit in
        elim (Bool-cases (is_disabled options.gateway)) [
          | inl off ↦
              rw (fit, off)
                (record {
                  platform = inr platform;
                  outcome = inr (record {
                    off = refl;
                    upstream = refl;
                    nginx_config = refl;
                    blocked = inl (disabled_not_required options.gateway off);
                  });
                  switched_off = inr refl;
                })
          | inr on ↦
              rw (fit, on)
                (record {
                  platform = inr platform;
                  outcome =
                      with_gateway-Outcome e options.gateway parse_url
                        (planned_port e options.gateway_port) (trim_space options.upstream);
                  switched_off = inl on;
                })
        ]
  ]

  -- Where no port is given, a plan with the gateway has a port from 18081 to 18180 that no listener and no candidate
  -- uses.
  pub build_plan-IsPlanned :
      options.gateway_port ≡ pos 0
      → (build_plan parse_url e options).gateway_enabled ≡ true
      → (p : ℕ) × IsPlanned e p
        × ((build_plan parse_url e options).gateway_listen ≡ codes "127.0.0.1:" ++ show_int (pos p))
  build_plan-IsPlanned not_given enabled = elim build_plan-IsSound.outcome [
    | inr sensor ↦ absurd (cc (sensor.off, enabled))
    | inl (_, gateway) ↦ elim (planned_port-cases e) [
      | inl zero_port ↦ absurd (gateway.has_port (rw not_given zero_port))
      | inr (p, chosen, planned) ↦ (p, planned, gateway.listen ∙ rw (not_given, chosen) refl)
    ]
  ]
