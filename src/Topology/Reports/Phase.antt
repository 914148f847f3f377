-- ===== src/Topology/Reports/Phase.antt =====
-- internal/topology/exitreport.go: how far a runner got, as its log tail shows (classifyRunnerPhase),
-- and what counts as a normal end. Lines hold no line break.
pub mod Laws
use garm_provider_docker.Base.{
  ℕ, String, Bool, true, false, ◌&&◌, ◌||◌, not, Option, none, some, List, [], ◌∷◌, ◌++◌, length,
  leb, eqb, if◌then◌else◌,
}
use garm_provider_docker.Base.Texts.{has_prefix, strip_prefix, contains_text}
use garm_provider_docker.Docker.Containers.{ContainerState}

pub data RunnerPhase : Type 0 where
  before_listening listening_no_job job_started job_completed phase_unknown : RunnerPhase

abbrev pub exit_log_tail_lines : ℕ
exit_log_tail_lines = 20

-- The alternatives of runnerProgressLine's group.
pub data Marker : Type 0 where
  listening running_job job_done : Marker

-- `.+ completed with result: `
abbrev pub completed : Option String → Bool
completed none = false
completed (some String.[]) = false
completed (some (String.◌∷◌ c name)) = contains_text name " completed with result: "

unfoldable pub marker_at : String → Option Marker
marker_at s =
    if has_prefix s "Listening for Jobs"
    then some listening
    else if has_prefix s "Running job: "
    then some running_job
    else if completed (strip_prefix "Job " s)
    then some job_done
    else none

abbrev pub or_later {ℓ} : {A : Type ℓ} → Option A → Option A → Option A
or_later none later = later
or_later (some m) later = some m

abbrev pub after_break : Option String → Option Marker → Option Marker
after_break none later = later
after_break (some rest) later = or_later (marker_at rest) later

-- The leftmost match after a ": ".
unfoldable pub marker_within : String → Option Marker
marker_within String.[] = none
marker_within (String.◌∷◌ c s) = after_break (strip_prefix ": " (String.◌∷◌ c s)) (marker_within s)

-- runnerProgressLine.FindStringSubmatch: `^` matches first.
unfoldable pub progress_of : String → Option Marker
progress_of line = or_later (marker_at line) (marker_within line)

abbrev pub phase_of : Bool → Marker → RunnerPhase
phase_of truncated job_done = job_completed
phase_of true listening = phase_unknown
phase_of true running_job = phase_unknown
phase_of false listening = listening_no_job
phase_of false running_job = job_started

-- The latest line that has a marker.
unfoldable pub latest : List String → Option Marker
unfolding progress_of
latest [] = none
latest (l ∷ ls) = or_later (latest ls) (progress_of l)

abbrev pub phase_without : Bool → ℕ → RunnerPhase
phase_without truncated n =
    if truncated || leb exit_log_tail_lines n then phase_unknown else before_listening

abbrev pub classified : Bool → ℕ → Option Marker → RunnerPhase
classified truncated n (some m) = phase_of truncated m
classified truncated n none = phase_without truncated n

unfoldable pub classify_runner_phase : List String → Bool → RunnerPhase
classify_runner_phase lines truncated = classified truncated (length lines) (latest lines)

abbrev is_job_completed : RunnerPhase → Bool
is_job_completed job_completed = true
is_job_completed before_listening = false
is_job_completed listening_no_job = false
is_job_completed job_started = false
is_job_completed phase_unknown = false

unfoldable pub is_normal_runner_end : Option ContainerState → RunnerPhase → Bool
is_normal_runner_end none phase = false
is_normal_runner_end (some st) phase =
    eqb st.exit_code 0 && not st.oom_killed && is_job_completed phase
