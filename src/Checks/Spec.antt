-- ===== src/Checks/Spec.antt =====
-- Labels, cache identities and names of internal/spec at concrete inputs.
use garm_provider_docker.Base.{
  ℕ, zero, suc, ◌/◌, ◌*◌, Char, String, true, false, some, ok, All, ◌≡◌, ◌↔◌, refl, ap, is_some,
  arith, ◌⧺◌, [], ◌∷◌,
}
use garm_provider_docker.Base.Times.{TimeFormat, second}
use garm_provider_docker.Base.Texts.{to_lower}
use garm_provider_docker.Base.Texts.Laws.{cons_differs}
use garm_provider_docker.Spec.Labels.{AllocationIdentity, matches_predicate}
use garm_provider_docker.Spec.Cache.Identity.{
  CacheVolumeIdentity, ExternalsVolumeIdentity, toolcache_labels, pnpm_labels, diag_labels,
  externals_labels,
}
use garm_provider_docker.Spec.Cache.Adoption.{validate_adopted_cache_volume}
use garm_provider_docker.Spec.Cache.Adoption.Laws.{toolcache-adoption}
use garm_provider_docker.Spec.Cache.Exclusion.{cache_volumes_excluded}
use garm_provider_docker.Spec.Cache.Gc.{CacheGcConfig, evaluate_cache_eviction}
use garm_provider_docker.Spec.Cache.Gc.Laws.{evaluate_cache_eviction_iff}
use garm_provider_docker.Spec.Names.{validate_allocation_names}
use garm_provider_docker.Spec.Names.Laws.{validate_allocation_names_iff, IsDerivable}

abbrev job : AllocationIdentity
job = record { controller_id = "ctl"; pool_id = "pool"; instance_name = "Job" }

abbrev cache : CacheVolumeIdentity
cache = record {
  controller_id = "ctl";
  repo_key = "acme-repo-0123";
  repo_url_digest = "abcd";
  os_key = "ubuntu-24.04";
}

abbrev shared : CacheVolumeIdentity
shared = record cache { controller_id = "other" }

abbrev externals : ExternalsVolumeIdentity
externals = record { controller_id = "ctl"; image_digest = "sha256:ab" }

abbrev current : String
current = "3"

-- Another controller made it, at another time.
toolcache-adoption_example :
    (validate_adopted_cache_volume
        (toolcache_labels shared "3" "t0")
        (toolcache_labels cache "3" "t1")
      ≡ ok tt)
    ↔ ((shared.repo_key ≡ cache.repo_key)
        × (shared.repo_url_digest ≡ cache.repo_url_digest)
        × (shared.os_key ≡ cache.os_key)
        × (current ≡ current))
toolcache-adoption_example =
    toolcache-adoption shared cache "t0" "t1" "3" "3" (cons_differs _ _) (cons_differs _ _)
      (cons_differs _ _) (cons_differs _ _)

cache_volumes_excluded_example :
    (matches_predicate (toolcache_labels cache "3" "t0") "ctl" ≡ false)
    × (matches_predicate (pnpm_labels cache "3" "t0") "ctl" ≡ false)
    × (matches_predicate (diag_labels cache "t0") "ctl" ≡ false)
    × (matches_predicate (externals_labels externals "t0") "ctl" ≡ false)
cache_volumes_excluded_example = cache_volumes_excluded cache externals "3" "t0" "ctl"

-- A time format that writes a mark, and one more for each second.
abbrev mark : Char
mark = "|"

abbrev marks : ℕ → String
marks zero = "|"
marks (suc n) = String.◌∷◌ mark (marks n)

abbrev characters : String → ℕ
characters String.[] = 0
characters (String.◌∷◌ c s) = suc (characters s)

abbrev less_one : ℕ → ℕ
less_one zero = zero
less_one (suc n) = n

characters-marks : (n : ℕ) → characters (marks n) ≡ suc n
characters-marks zero = refl
characters-marks (suc n) = ap suc (characters-marks n)

abbrev tally : TimeFormat
tally = record {
  format = λ t. marks (t / second);
  parse = λ s. some (less_one (characters s) * second);
  parse_format = λ t. ap (λ n. some (less_one n * second)) (characters-marks (t / second));
}

abbrev gc : CacheGcConfig
gc = record {
  generation = "4";
  pnpm_major = "3";
  image_digest = "sha256:cd";
  stale_days = 0;
  grace = 0;
}

evaluate_cache_eviction_iff_example :
    (is_some (evaluate_cache_eviction tally (toolcache_labels cache "3" "||") gc 5000000000) ≡ true)
    × (is_some (evaluate_cache_eviction tally (pnpm_labels cache "3" "||") gc 5000000000) ≡ false)
    × (is_some (evaluate_cache_eviction tally (diag_labels cache "||") gc 5000000000) ≡ false)
    × (is_some (evaluate_cache_eviction tally (externals_labels externals "||") gc 5000000000)
        ≡ true)
evaluate_cache_eviction_iff_example =
    evaluate_cache_eviction_iff tally gc 5000000000 1000000000 cache externals "3"
      (cons_differs _ _) (omega arith)

validate_allocation_names_iff_example :
    (validate_allocation_names "job" "n1" ≡ ok tt)
    ↔ All IsDerivable (
        to_lower "job"
        ∷ (to_lower "job" ⧺ "-dind")
        ∷ (to_lower "job" ⧺ "-net")
        ∷ (to_lower "job" ⧺ "-" ⧺ "n1" ⧺ "-" ⧺ "workspace")
        ∷ (to_lower "job" ⧺ "-" ⧺ "n1" ⧺ "-" ⧺ "socket")
        ∷ (to_lower "job" ⧺ "-" ⧺ "n1" ⧺ "-" ⧺ "dind-state")
        ∷ [])
validate_allocation_names_iff_example = validate_allocation_names_iff "job" "n1"
