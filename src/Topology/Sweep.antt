-- ===== src/Topology/Sweep.antt =====
-- internal/topology/sweep.go: whether the orphan sweep tears an instance down (sweepInstance). Times
-- are nanoseconds; the daemon's answers are what the lists and inspects of the pass returned.
pub mod Laws
pub mod Orphans
use garm_provider_docker.Base.{
  contains, ℕ, String, Bool, true, false, ◌&&◌, ◌||◌, not, ltb, leb, ◌+◌, List, [], ◌∷◌, ◌++◌,
  Option, none, some, Labels, label, Result, ok, err, Error, ◌==◌, if◌then◌else◌, is_some, ◌>>=◌,
}
use garm_provider_docker.Spec.Labels.{
  matches_predicate, label_instance_name, label_created_at, label_role, role_runner,
}

-- A listed container, and what runnerFinishedAt says of it: no time if it is gone or the time is
-- absent, and an error if the inspect failed.
pub record SweptContainer : Type 0 where
  pub labels : Labels
  pub state : String
  pub finished_at : Result (Option ℕ)

unfoldable pub is_active_runner_state : String → Bool
is_active_runner_state state = state == "running" || state == "paused" || state == "restarting"

abbrev pub later : Option ℕ → ℕ → Option ℕ
later none t = some t
later (some u) t = if ltb u t then some t else some u

-- What `note` keeps of the resources of one pass: whether there is one, and the youngest time.
pub record Noted : Type 0 where
  pub has_resource : Bool
  pub youngest : Option ℕ

-- Whether a live runner was seen, and when the last of the others finished.
pub record Runners : Type 0 where
  pub active : Bool
  pub exited : Option ℕ

module _ (controller_id : String) (parse : String → Option ℕ) where
  -- parseCreatedAt
  unfoldable pub parse_created_at : Labels → Option ℕ
  parse_created_at labels =
      if label labels label_created_at == "" then none else parse (label labels label_created_at)

  abbrev pub note_time : Option ℕ → Option ℕ → Option ℕ
  note_time youngest none = youngest
  note_time youngest (some t) = later youngest t

  abbrev pub noting : Bool → Option ℕ → Noted → Noted
  noting false time noted = noted
  noting true time noted = record { has_resource = true; youngest = note_time noted.youngest time }

  unfoldable pub note : List Labels → Noted → Noted
  note [] noted = noted
  note (labels ∷ ls) noted =
      note ls (noting (matches_predicate labels controller_id) (parse_created_at labels) noted)

  abbrev pub is_own_runner : Labels → Bool
  is_own_runner labels =
      matches_predicate labels controller_id && label labels label_role == role_runner

  abbrev pub note_exit : Runners → Option ℕ → Runners
  note_exit seen none = seen
  note_exit seen (some t) = record seen { exited = later seen.exited t }

  -- A container that is no runner is skipped, a live one noted, and another one's exit noted.
  abbrev pub see : Bool → Bool → Result (Option ℕ) → Runners → Result Runners
  see false active finished seen = ok seen
  see true true finished seen = ok (record seen { active = true })
  see true false (err e) seen = err e
  see true false (ok t) seen = ok (note_exit seen t)

  abbrev pub see_runner : SweptContainer → Runners → Result Runners
  see_runner c seen =
      see (is_own_runner c.labels) (is_active_runner_state c.state) c.finished_at seen

  unfoldable pub see_runners : List SweptContainer → Runners → Result Runners
  see_runners [] seen = ok seen
  see_runners (c ∷ cs) seen = see_runner c seen >>= λ seen'. see_runners cs seen'

  -- The early returns after the pass: whether TeardownAllocation is called.
  abbrev pub decide : ℕ → ℕ → ℕ → Noted → Runners → Bool
  decide now exited_grace inflight_grace noted seen =
      noted.has_resource && not seen.active && elim seen.exited [
        | some t ↦ not (ltb now (t + exited_grace))
        | none ↦ elim noted.youngest [ none ↦ false | some t ↦ not (ltb now (t + inflight_grace)) ]
      ]

  abbrev pub labels_of : List SweptContainer → List Labels
  labels_of [] = []
  labels_of (c ∷ cs) = c.labels ∷ labels_of cs

  unfoldable pub sweep_instance :
      ℕ → ℕ → ℕ → List SweptContainer → List Labels → List Labels → Result Bool
  sweep_instance now exited_grace inflight_grace containers networks volumes =
      see_runners containers (record { active = false; exited = none }) >>= λ seen. ok (
        decide now exited_grace inflight_grace
          (note (labels_of containers ++ networks ++ volumes)
            (record { has_resource = false; youngest = none }))
          seen)

  -- enumerateInstanceNames, without repetitions.
  unfoldable pub add_name : Labels → List String → List String
  add_name labels names =
      if matches_predicate labels controller_id
        && not (label labels label_instance_name == "")
        && not (contains names (label labels label_instance_name))
      then label labels label_instance_name ∷ names
      else names

  unfoldable pub instance_names : List Labels → List String
  instance_names [] = []
  instance_names (labels ∷ ls) = add_name labels (instance_names ls)
