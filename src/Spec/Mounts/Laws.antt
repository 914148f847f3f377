-- ===== src/Spec/Mounts/Laws.antt =====
-- internal/spec/mounts.go with internal/config/cache.go: no two mounts of a runner are at one place.
use garm_provider_docker.Base.{
  String, Bool, true, false, List, [], ◌∷◌, ok, err, failed, All, ◌≡◌, ◌≢◌, refl, sym, ◌∙◌, arith,
  eq_iff, ◌==◌, if◌then◌else◌,
}
use garm_provider_docker.Base.Texts.{has_prefix, strip_prefix, split_on, trim_prefix}
use garm_provider_docker.Docker.Configs.{Mount}
use garm_provider_docker.Config.Cache.{
  Cache, validate_cache, validate_cache_mount_path, collides, path_is_at_or_under,
  canonicalize_var_run, clean_rooted,
}
use garm_provider_docker.Config.Cache.Collisions.{not_reserved, validate_cache-paths}
use garm_provider_docker.Spec.Mounts.{
  RunnerContainerSpec, build_runner_container, runner_mounts, present, optional_mounts, given,
  workspace_mount, named_workspace_mount, socket_volume_mount, cache_volume_mount,
  externals_ro_mount, diag_logs_mount, runner_work_dir, dind_socket_dir, runner_externals_dir,
  runner_diag_dir,
}

-- No mount has this target.
abbrev pub FreeOf : List Mount → String → Type 0
FreeOf ms target = All (λ (m : Mount). target ≢ m.target) ms

-- No two mounts have one target.
abbrev pub TargetsDiffer : List Mount → Type 0
TargetsDiffer [] = Unit
TargetsDiffer (m ∷ ms) = FreeOf ms m.target × TargetsDiffer ms

present-FreeOf :
    (es : List (Bool × Mount)) (target : String)
    → All (λ (e : Bool × Mount). target ≢ e.1.target) es
    → FreeOf (present es) target
present-FreeOf [] target h = tt
present-FreeOf ((true, m) ∷ es) target (d, h) = (d, present-FreeOf es target h)
present-FreeOf ((false, m) ∷ es) target (d, h) = present-FreeOf es target h

abbrev EntriesDiffer : List (Bool × Mount) → Type 0
EntriesDiffer [] = Unit
EntriesDiffer (e ∷ es) = All (λ (d : Bool × Mount). e.1.target ≢ d.1.target) es × EntriesDiffer es

present-TargetsDiffer : (es : List (Bool × Mount)) → EntriesDiffer es → TargetsDiffer (present es)
present-TargetsDiffer [] h = tt
present-TargetsDiffer ((true, m) ∷ es) (d, h) =
    (present-FreeOf es m.target d, present-TargetsDiffer es h)
present-TargetsDiffer ((false, m) ∷ es) (d, h) = present-TargetsDiffer es h

either-workspace :
    (b : Bool) (name : String)
    → (if b then named_workspace_mount name else workspace_mount).target ≡ runner_work_dir
unfolding named_workspace_mount workspace_mount
either-workspace true name = refl
either-workspace false name = refl

-- If the cache section is enabled and passes its checks, and a runner's tool cache and pnpm store are
-- mounted at the section's paths, no two of the runner's mounts have one target.
pub build_runner_container-TargetsDiffer :
    (c : Cache) (s : RunnerContainerSpec)
    → c.enabled ≡ true
    → validate_cache c ≡ ok tt
    → s.toolcache_mount_path ≡ c.toolcache_path
    → s.pnpm_mount_path ≡ c.pnpm_store_path
    → TargetsDiffer ((build_runner_container s).1.mounts)
unfolding build_runner_container runner_mounts named_workspace_mount workspace_mount
    socket_volume_mount cache_volume_mount externals_ro_mount diag_logs_mount
    validate_cache_mount_path collides path_is_at_or_under canonicalize_var_run clean_rooted
    has_prefix strip_prefix split_on trim_prefix
build_runner_container-TargetsDiffer c s on checked tool store =
    let (t, p, differ) = validate_cache-paths c on checked in
    let t_not : (r : String)
        → validate_cache_mount_path r ≡ err failed
        → s.toolcache_mount_path ≢ r =
      λ r bad e. not_reserved c.toolcache_path r bad t (sym tool ∙ e) in
    let p_not : (r : String) → validate_cache_mount_path r ≡ err failed → s.pnpm_mount_path ≢ r =
      λ r bad e. not_reserved c.pnpm_store_path r bad p (sym store ∙ e) in
    let mirror : (a b : String) → a ≢ b → b ≢ a = λ a b d e. d (sym e) in
    let apart : s.toolcache_mount_path ≢ s.pnpm_mount_path = λ e. differ (sym tool ∙ e ∙ store) in
    let no : (a b : String) → (a == b) ≡ false → a ≢ b =
      λ a b f e. ground (arith, f, (eq_iff a b).1 e) in
    (
      rw (either-workspace (given s.workspace_volume_name) s.workspace_volume_name) (
          present-FreeOf (optional_mounts s) runner_work_dir (
            no _ _ refl,
            (
              mirror _ _ (t_not runner_work_dir refl),
              (mirror _ _ (p_not runner_work_dir refl), (no _ _ refl, (no _ _ refl, tt))),
            ),
          )),
      present-TargetsDiffer (optional_mounts s) (
        (
          mirror _ _ (t_not dind_socket_dir refl),
          (mirror _ _ (p_not dind_socket_dir refl), (no _ _ refl, (no _ _ refl, tt))),
        ),
        (
          (apart, (t_not runner_externals_dir refl, (t_not runner_diag_dir refl, tt))),
          (
            (p_not runner_externals_dir refl, (p_not runner_diag_dir refl, tt)),
            ((no _ _ refl, tt), (tt, tt)),
          ),
        ),
      ),
    )
