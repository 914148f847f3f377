-- ===== src/Provider/Start.antt =====
-- internal/provider/runner_start.go: creating and starting a runner, once more without its IPv6 sysctl
-- where the host refuses that, with the checks of internal/provider/create.go on the caches that it
-- mounts (revalidateReferencedCaches).
pub mod Laws
use garm_provider_docker.Base.{
  String, Bool, true, false, ◌&&◌, ◌||◌, not, Option, none, some, List, [], ◌∷◌, Labels, label,
  Result, ok, err, Error, failed, not_found, both, ◌==◌, ◌⧺◌, if◌then◌else◌,
}
use garm_provider_docker.Base.Texts.{contains_text, to_lower}
use garm_provider_docker.Docker.Configs.{ContainerConfig, HostConfig}
use garm_provider_docker.Spec.Cache.Adoption.{validate_adopted_cache_volume}
use garm_provider_docker.Spec.Names.{runner_container_name}
use garm_provider_docker.Spec.Mounts.{runner_ipv6_sysctl}

-- An error with its text. `ended` is a context that was cancelled or ran out of time.
pub record Failure : Type 0 where
  pub class : Error
  pub message : String
  pub ended : Bool

-- The daemon calls of a start: ContainerCreate, which may return an id with an error, ContainerStart,
-- ContainerRemove, and VolumeInspect with the labels that it returns.
pub record Starter : Type 1 where
  pub World : Type 0
  pub create : ContainerConfig → HostConfig → String → World → (String × Option Failure) × World
  pub start : String → World → Option Failure × World
  pub remove : String → World → Result (Unit {0}) × World
  pub inspect_volume : String → World → Result Labels × World

-- cacheVolumeRef
pub record CacheRef : Type 0 where
  pub name : String
  pub want : Labels

pub data Rejection : Type 0 where
  not_rejected missing refused : Rejection

abbrev pub ipv6_sysctl_path : String
ipv6_sysctl_path = "sys/net/ipv6/conf/all/disable_ipv6"

unfoldable pub classify_ipv6_sysctl_error : Option Failure → Rejection
classify_ipv6_sysctl_error none = not_rejected
classify_ipv6_sysctl_error (some f) =
    if f.ended
    then not_rejected
    else if not (contains_text f.message runner_ipv6_sysctl)
        && not (contains_text f.message ipv6_sysctl_path)
    then not_rejected
    else if contains_text (to_lower f.message) "no such file or directory"
    then missing
    else refused

abbrev drop_key : String → Labels → Labels
drop_key key [] = []
drop_key key ((k, v) ∷ m) = if k == key then drop_key key m else (k, v) ∷ drop_key key m

unfoldable pub without_ipv6_sysctl : HostConfig → HostConfig
without_ipv6_sysctl host = record host { sysctls = drop_key runner_ipv6_sysctl host.sysctls }

-- fmt.Errorf with "%w" keeps the class; `quote` is the text of a name under %q.
abbrev pub wrapped : String → Failure → Failure
wrapped prefix f = record f { message = prefix ⧺ f.message }

abbrev pub plain_failure : Failure
plain_failure = record { class = failed; message = ""; ended = false }

module _ (S : Starter) (quote : String → String) where
  abbrev pub confirmed : Result Labels → Labels → Bool
  confirmed (err e) want = false
  confirmed (ok got) want = elim (validate_adopted_cache_volume got want) [
    | ok u ↦ true
    | err e ↦ false
  ]

  -- Every cache is inspected; whether all could be confirmed. The error text that lists the caches that
  -- could not is left to its constant part, which names no sysctl.
  unfoldable pub revalidate_referenced_caches : List CacheRef → S.World → Bool × S.World
  revalidate_referenced_caches [] w = (true, w)
  revalidate_referenced_caches (r ∷ rs) w =
      let (got, w1) = S.inspect_volume r.name w in
      let (rest, w2) = revalidate_referenced_caches rs w1 in (confirmed got r.want && rest, w2)

  abbrev pub Started : Type 0
  Started = (String × Option Failure) × S.World

  abbrev pub start_checked : String → String → Bool → S.World → Started
  start_checked instance_name id false w = (
    (
      "",
      some (record plain_failure {
        message = "cache volume(s) could not be confirmed as our seeded cache during create";
      }),
    ),
    (S.remove id w).1,
  )
  start_checked instance_name id true w =
      let (failure, w1) = S.start id w in
      (
        (
          id,
          elim failure [
            | none ↦ none
            | some f ↦
                some (wrapped ("failed to start container for " ⧺ quote instance_name ⧺ ": ") f)
          ],
        ),
        w1,
      )

  abbrev pub created_then : String → List CacheRef → String × Option Failure → S.World → Started
  created_then instance_name refs (id, some f) w =
      (("", some (wrapped ("failed to create container for " ⧺ quote instance_name ⧺ ": ") f)), w)
  created_then instance_name refs (id, none) w =
      let (good, w1) = revalidate_referenced_caches refs w in start_checked instance_name id good w1

  unfoldable pub create_and_start_runner_once :
      ContainerConfig → HostConfig → String → List CacheRef → S.World → Started
  create_and_start_runner_once cfg host instance_name refs w =
      let (made, w1) = S.create cfg host (runner_container_name instance_name) w in
      created_then instance_name refs made w1

  -- errors.Join of the first failure and a removal's; the text stays the first one's.
  abbrev pub joined_failure : Option Failure → Error → Option Failure
  joined_failure none e = some (record plain_failure { class = e })
  joined_failure (some f) e = some (record f { class = both f.class e })

  -- The removal in front of the second try.
  abbrev pub after_removal :
      String → Option Failure → Result (Unit {0}) → S.World → Started → Started
  after_removal id failure (ok u) w again = again
  after_removal id failure (err not_found) w again = again
  after_removal id failure (err e) w again = ((id, joined_failure failure e), w)

  abbrev pub retry_if : Rejection → Started → Started → Started
  retry_if not_rejected first second = first
  retry_if missing first second = second
  retry_if refused first second = second

  unfoldable pub retry :
      ContainerConfig
      → HostConfig
      → String
      → List CacheRef
      → String
      → Option Failure
      → S.World
      → Started
  retry cfg host instance_name refs id failure w =
      let (gone, w1) = S.remove id w in
      let plain = without_ipv6_sysctl host in
      if id == ""
      then create_and_start_runner_once cfg plain instance_name refs w
      else after_removal id failure gone w1
          (create_and_start_runner_once cfg plain instance_name refs w1)

  abbrev pub first_or_retry : HostConfig → Started → Started → Started
  first_or_retry host ((id, failure), w) second =
      if label host.sysctls runner_ipv6_sysctl == ""
      then ((id, failure), w)
      else retry_if (classify_ipv6_sysctl_error failure) ((id, failure), w) second

  unfoldable pub create_and_start_runner :
      ContainerConfig → HostConfig → String → List CacheRef → S.World → Started
  create_and_start_runner cfg host instance_name refs w =
      let first = create_and_start_runner_once cfg host instance_name refs w in
      first_or_retry host first (retry cfg host instance_name refs first.0.0 first.0.1 first.1)
