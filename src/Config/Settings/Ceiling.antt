-- ===== src/Config/Settings/Ceiling.antt =====
-- internal/config/dind.go: the operator's ceiling on DinD modes.
use garm_provider_docker.Base.{
  String, Bool, true, false, not, List, [], ◌∷◌, contains, ◌==◌, if◌then◌else◌, ok, ◌>>◌, require,
  ◌≡◌, ◌↔◌, refl, arith, eq_iff, ap, subst, sym,
}
use garm_provider_docker.Config.Settings.{
  Config, effective_dind_mode, validate_dind_mode, validate_allowed_dind_modes, all_dind_modes,
  all_modes_valid, no_modes,
}

has_modes : (ms : List String) (m : String) → contains ms m ≡ true → no_modes ms ≡ false
has_modes [] m h = ground arith
has_modes (x ∷ ms) m h = refl

allowed_valid :
    (ms : List String) (m : String)
    → all_modes_valid ms ≡ true
    → contains ms m ≡ true
    → contains all_dind_modes m ≡ true
allowed_valid [] m v h = ground arith
allowed_valid (x ∷ ms) m v h = ground (arith, allowed_valid ms m, eq_iff x m)

passed :
    (a b : Bool) (m mode : String)
    → (require (not a) >> require b >> ok m) ≡ ok mode
    → (mode ≡ m) × (a ≡ false) × (b ≡ true)
passed true b m mode h = ground arith
passed false false m mode h = ground arith
passed false true m mode h = (cc h, refl, refl)

-- The mode that a pool gets is the one that it asked for, or the configured one if it asked for
-- none, and it gets it exactly when the operator's ceiling contains it; an empty ceiling denies
-- every mode.
pub effective_dind_mode_iff :
    (c : Config) (pool_mode mode : String)
    → (effective_dind_mode c pool_mode ≡ ok mode) ↔ (
        (mode ≡ (if pool_mode == "" then c.dind_mode else pool_mode))
        × (contains c.allowed_dind_modes mode ≡ true))
unfolding effective_dind_mode
effective_dind_mode_iff c pool_mode mode =
    asked (if pool_mode == "" then c.dind_mode else pool_mode) c.allowed_dind_modes mode
  where
    asked :
        (m : String) (ms : List String) (mode : String)
        → ((require (not (no_modes ms)) >> require (contains ms m) >> ok m) ≡ ok mode)
          ↔ ((mode ≡ m) × (contains ms mode ≡ true))
    asked m ms mode = (
      λ h.
          let (e, a, b) = passed (no_modes ms) (contains ms m) m mode h in
          (e, subst (λ x. contains ms x ≡ true) (sym e) b),
      λ (e, h).
          let h' : contains ms m ≡ true = subst (λ x. contains ms x ≡ true) e h in
          rw (has_modes ms m h', h') (ap ok (sym e)),
    )

-- A configuration that validation accepts gives a pool that asks for no mode the configured one.
pub validate_dind_mode-effective :
    (pinned : String → Bool → Bool) (c : Config)
    → validate_dind_mode pinned c ≡ ok tt
    → effective_dind_mode c "" ≡ ok c.dind_mode
unfolding validate_dind_mode effective_dind_mode
validate_dind_mode-effective pinned c h = ground (arith, has_modes c.allowed_dind_modes c.dind_mode)

-- Under a ceiling that validation accepts, every mode that a pool gets is one of the provider's
-- modes.
pub validate_allowed_dind_modes-effective :
    (c : Config) (pool_mode mode : String)
    → validate_allowed_dind_modes c ≡ ok tt
    → effective_dind_mode c pool_mode ≡ ok mode
    → contains all_dind_modes mode ≡ true
unfolding validate_allowed_dind_modes
validate_allowed_dind_modes-effective c pool_mode mode v h =
    allowed_valid c.allowed_dind_modes mode (ground (arith, v))
      ((effective_dind_mode_iff c pool_mode mode).0 h).1
