-- ===== src/Spec/Names.antt =====
-- internal/spec/names.go: the names of an allocation's resources, and the check on derived names.
pub mod Laws
use garm_provider_docker.Base.{
  ℕ, String, len, Char, code, Bool, true, false, ◌&&◌, ◌||◌, not, List, [], ◌∷◌, Option, none, some,
  ◌==◌, eqb, leb, if◌then◌else◌, ◌⧺◌, Result, ok, err, Error, failed, ◌>>◌, ◌>>=◌, require, join,
  returned,
}
use garm_provider_docker.Base.Texts.{to_lower, all_chars, between}

unfoldable pub runner_container_name : String → String
unfolding to_lower
runner_container_name instance_name = to_lower instance_name

unfoldable pub dind_container_name : String → String
unfolding runner_container_name
dind_container_name instance_name = runner_container_name instance_name ⧺ "-dind"

unfoldable pub job_network_name : String → String
unfolding runner_container_name
job_network_name instance_name = runner_container_name instance_name ⧺ "-net"

unfoldable pub volume_name : String → String → String → String
unfolding runner_container_name
volume_name instance_name nonce suffix =
    runner_container_name instance_name ⧺ "-" ⧺ nonce ⧺ "-" ⧺ suffix

unfoldable pub workspace_volume_name : String → String → String
unfolding volume_name
workspace_volume_name instance_name nonce = volume_name instance_name nonce "workspace"

unfoldable pub socket_volume_name : String → String → String
unfolding volume_name
socket_volume_name instance_name nonce = volume_name instance_name nonce "socket"

unfoldable pub dind_state_volume_name : String → String → String
unfolding volume_name
dind_state_volume_name instance_name nonce = volume_name instance_name nonce "dind-state"

abbrev pub docker_name_max_length : ℕ
docker_name_max_length = 255

abbrev pub is_alphanumeric : Char → Bool
is_alphanumeric c =
    between b'a' b'z' (code c) || between b'A' b'Z' (code c) || between b'0' b'9' (code c)

abbrev pub is_name_char : Char → Bool
is_name_char c = is_alphanumeric c || eqb (code c) b'_' || eqb (code c) b'.' || eqb (code c) b'-'

-- ^[a-zA-Z0-9][a-zA-Z0-9_.-]+$
unfoldable pub docker_name_pattern : String → Bool
unfolding all_chars
docker_name_pattern String.[] = false
docker_name_pattern (String.◌∷◌ c s) =
    is_alphanumeric c && not (s == "") && all_chars is_name_char s

unfoldable pub validate_derived_name : String → Result (Unit {0})
unfolding docker_name_pattern
validate_derived_name name = do
  require (not (name == ""))
  require (leb (len name) docker_name_max_length)
  require (docker_name_pattern name)

unfoldable pub allocation_names : String → String → List String
unfolding runner_container_name dind_container_name job_network_name workspace_volume_name
    socket_volume_name dind_state_volume_name
allocation_names instance_name nonce =
    runner_container_name instance_name
    ∷ dind_container_name instance_name
    ∷ job_network_name instance_name
    ∷ workspace_volume_name instance_name nonce
    ∷ socket_volume_name instance_name nonce
    ∷ dind_state_volume_name instance_name nonce
    ∷ []

abbrev add_error : Result (Unit {0}) → List Error → List Error
add_error (ok u) errs = errs
add_error (err e) errs = e ∷ errs

-- The loop over the checks, which collects the errors.
unfoldable pub name_errors : List String → List Error
name_errors [] = []
name_errors (name ∷ names) = add_error (validate_derived_name name) (name_errors names)

unfoldable pub validate_allocation_names : String → String → Result (Unit {0})
unfolding name_errors
validate_allocation_names instance_name nonce =
    returned tt (join (name_errors (allocation_names instance_name nonce)))
