-- ===== src/ExtraSpecs/Bounds.antt =====
-- internal/extraspecs/extraspecs.go: a pool never gets more than the operator allows.
use garm_provider_docker.Base.{
  ℕ, ◌≤◌, String, Bool, true, false, ◌&&◌, ◌||◌, not, [], ◌∷◌, Labels, contains, ltb, ◌==◌,
  if◌then◌else◌, Result, ok, err, failed, ◌>>=◌, ◌>>◌, require, ◌≡◌, refl, arith, subst, bind_ok,
  bind_elim, require_ok, All, is_some, lookup,
}
use garm_provider_docker.Config.ByteSize.{parse_positive_byte_size}
use garm_provider_docker.Config.ByteSize.Bounds.{parse_positive_byte_size-bounds}
use garm_provider_docker.Config.Settings.{
  Config, effective_runner_memory_bytes, effective_dind_memory_bytes, env_allowed,
}
use garm_provider_docker.Config.Settings.Ceiling.{effective_dind_mode_iff}
use garm_provider_docker.ExtraSpecs.Resolve.{
  ExtraSpecs, Resolved, bound_memory, all_allowed, resolve, valid_env_name, reserved_env_name,
  check_env_names,
}

-- Within a limit, of which 0 is none: at least 1, since Docker reads 0 as no limit.
abbrev pub Within : ℕ → ℕ → Type 0
Within ceiling got = 1 ≤ ceiling → (1 ≤ got) × (got ≤ ceiling)

bound_memory-Within :
    (override : String) (ceiling got : ℕ)
    → bound_memory override ceiling ≡ ok got
    → Within ceiling got
unfolding bound_memory
bound_memory-Within override ceiling got h = asked (override == "") h
  where
    asked :
        (b : Bool)
        → (if b
            then ok ceiling
            else (parse_positive_byte_size override >>= λ req.
                if ltb 0 ceiling && ltb ceiling req then err failed else ok req))
          ≡ ok got
        → Within ceiling got
    asked true h = λ p. ground (arith, h)
    asked false h =
        let (req, e, h') = bind_ok (parse_positive_byte_size override) _ got h in
        let (low, high) = parse_positive_byte_size-bounds override req e in
        λ p. ground (arith, h', low, p)

all_allowed-All :
    (cfg : Config) (env : Labels)
    → all_allowed cfg env ≡ true
    → All (λ (n, v). contains cfg.allowed_env n ≡ true) env
unfolding env_allowed
all_allowed-All cfg [] h = tt
all_allowed-All cfg ((n, v) ∷ env) h = (ground arith, all_allowed-All cfg env (ground arith))

-- The DinD mode is one that the ceiling contains; each memory limit is, where the operator's limit
-- for the flavor is finite, at least 1 byte and at most that limit; and every extra variable is on
-- the allowlist.
abbrev pub IsWithin : ExtraSpecs → Config → Resolved → Type 0
IsWithin s cfg r =
    (contains cfg.allowed_dind_modes r.dind_mode ≡ true)
    × ((c : ℕ) × (effective_runner_memory_bytes cfg s.flavor ≡ ok c)
        × Within c r.runner_memory_bytes)
    × ((c : ℕ) × (effective_dind_memory_bytes cfg s.flavor ≡ ok c) × Within c r.dind_memory_bytes)
    × All (λ (n, v). contains cfg.allowed_env n ≡ true) r.extra_env

same_resolved : (a b : Resolved) → ok a ≡ ok b → a ≡ b
same_resolved a b e = cc e

-- What Resolve returns stays within the operator's configuration: the DinD mode is one that the
-- ceiling contains; each memory limit is, where the operator's limit for the flavor is finite, at
-- least 1 byte and at most that limit; and every extra variable is on the allowlist.
pub resolve-IsWithin :
    (s : ExtraSpecs) (cfg : Config) (r : Resolved) → resolve s cfg ≡ ok r → IsWithin s cfg r
unfolding resolve
resolve-IsWithin s cfg r h =
    bind_elim {m = require (s.flavor == "" || is_some (lookup s.flavor cfg.flavors))} h (λ u e0 h0.
      bind_elim h0 (λ mode e1 h1. bind_elim h1 (λ c e2 h2. bind_elim h2 (λ m e3 h3.
        bind_elim h3 (λ c' e4 h4. bind_elim h4 (λ m' e5 h5. bind_elim h5 (λ u' e6 h6.
          subst (IsWithin s cfg) (same_resolved _ r h6) (
            ((effective_dind_mode_iff cfg s.dind_mode mode).0 e1).1,
            (c, e2, bound_memory-Within s.runner_memory c m e3),
            (c', e4, bound_memory-Within s.dind_memory c' m' e5),
            all_allowed-All cfg s.extra_env (require_ok _ u' e6),
          ))))))))

-- If the checks that end Parse accept the extra variables, each has a well-formed name, and none has
-- a name that the provider reserves.
pub check_env_names-All :
    (env : Labels)
    → check_env_names env ≡ ok tt
    → All (λ (n, v). (valid_env_name n ≡ true) × (reserved_env_name n ≡ false)) env
unfolding check_env_names
check_env_names-All [] h = tt
check_env_names-All ((n, v) ∷ env) h =
    let (a, b, c) = passed (valid_env_name n) (reserved_env_name n) (check_env_names env) h in
    ((a, b), check_env_names-All env c)
  where
    passed :
        (a b : Bool) (r : Result (Unit {0}))
        → (require a >> require (not b) >> r) ≡ ok tt
        → (a ≡ true) × (b ≡ false) × (r ≡ ok tt)
    passed false b r h = ground arith
    passed true true r h = ground arith
    passed true false r h = (refl, refl, h)
