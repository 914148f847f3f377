-- ===== src/Spec/Dind/Laws.antt =====
-- internal/spec/dind.go: the mode that a sidecar shows is the one that it was made for.
use garm_provider_docker.Base.{
  String, Bool, true, false, Result, ok, ◌≡◌, refl, arith, eq_iff, ◌==◌, sym, inl, inr, Bool-cases,
}
use garm_provider_docker.Config.Settings.{dind_mode_privileged_sidecar, dind_mode_sysbox_runc}
use garm_provider_docker.Spec.Dind.{
  dind_runtime_selection, dind_mode_of, dind_shares_runner_netns, dind_runtime_sysbox,
}

abbrev selected : Bool → String → Result (Bool × String)
selected privileged runtime = ok (privileged, runtime)

same :
    (p : Bool) (r : String) (q : Bool) (t : String)
    → selected p r ≡ selected q t
    → (p ≡ q) × (r ≡ t)
same p r q t e = (cc e, cc e)

-- The mode that DindModeOf reads off a sidecar is the mode that its privilege and runtime were
-- selected for, and only a sidecar of mode privileged-sidecar is privileged, whose network namespace
-- it shares with the runner.
pub dind_mode_of-dind_runtime_selection :
    (mode : String) (privileged : Bool) (runtime : String)
    → dind_runtime_selection mode ≡ ok (privileged, runtime)
    → (dind_mode_of privileged runtime ≡ mode) × (privileged ≡ dind_shares_runner_netns mode)
unfolding dind_runtime_selection dind_mode_of dind_shares_runner_netns
dind_mode_of-dind_runtime_selection mode privileged runtime h =
    elim (Bool-cases (mode == dind_mode_privileged_sidecar)) [
      | inl sidecar ↦
          let (p, r) = same true "" privileged runtime (ground (arith, h, sidecar)) in
          rw (sidecar, sym p, sym r)
            (sym ((eq_iff mode dind_mode_privileged_sidecar).0 sidecar), refl)
      | inr other ↦ elim (Bool-cases (mode == dind_mode_sysbox_runc)) [
        | inl sysbox ↦
            let (p, r) =
              same false dind_runtime_sysbox privileged runtime
                (ground (arith, h, other, sysbox)) in
            rw (other, sym p, sym r) (sym ((eq_iff mode dind_mode_sysbox_runc).0 sysbox), refl)
        | inr neither ↦ ground (arith, h, other, neither)
      ]
    ]
