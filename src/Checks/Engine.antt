-- ===== src/Checks/Engine.antt =====
-- The one-slot daemon with the calls on a container beyond its labels, which keep their promises.
use garm_provider_docker.Base.{
  String, Bool, true, false, List, [], ◌∷◌, Option, none, some, Labels, Result, ok, err, not_found,
  All, ◌≡◌, refl, ◌∙◌, subst, arith, ◌==◌, if◌then◌else◌,
}
use garm_provider_docker.Docker.Filters.{LabelFilter}
use garm_provider_docker.Docker.Containers.{
  ContainerState, ContainerJson, ContainerSummary, Engine, EngineLaws,
}
use garm_provider_docker.Checks.Daemon.{daemon, daemon_laws, Slots, satisfies}

abbrev pub running : ContainerState
running = record {
  status = "running";
  oom_killed = false;
  dead = false;
  exit_code = 0;
  finished_at = "";
  error = "";
}

abbrev pub shown : Labels → ContainerJson
shown l = record {
  id = "it";
  name = "/job";
  config = some l;
  state = some running;
  networks = none;
}

abbrev found : Option Labels → Result ContainerJson
found none = err not_found
found (some l) = ok (shown l)

abbrev inspected : String → Slots → Result ContainerJson
inspected i s = if i == "it" then found s.c else err not_found

abbrev pub entry : Labels → ContainerSummary
entry l = record { id = "it"; names = "/job" ∷ []; labels = l; state = "running"; status = "Up" }

abbrev listed : List LabelFilter → Option Labels → List ContainerSummary
listed fs none = []
listed fs (some l) = if satisfies l fs then entry l ∷ [] else []

abbrev pub engine : Engine daemon
engine = record {
  inspect = λ i s. (inspected i s, s);
  start = λ i s. (ok tt, s);
  stop_within = λ t i s. (ok tt, s);
  summaries = λ fs s. (ok (listed fs s.c), s);
}

found-shown : (o : Option Labels) (c : ContainerJson) → found o ≡ ok c → c.config ≡ o
found-shown none c e = ground (arith, e)
found-shown (some l) c e = let same : shown l ≡ c = cc e in subst (λ x. x.config ≡ some l) same refl

found-missing : (o : Option Labels) → found o ≡ err not_found → o ≡ none
found-missing none e = refl
found-missing (some l) e = ground (arith, e)

pub inspect-shows :
    (b : Bool) (o : Option Labels) (c : ContainerJson) (l : Labels)
    → (if b then o else none) ≡ some l
    → (if b then found o else err not_found) ≡ ok c
    → c.config ≡ some l
inspect-shows true o c l at e = found-shown o c e ∙ at
inspect-shows false o c l at e = ground (arith, e)

pub inspect-missing :
    (b : Bool) (o : Option Labels)
    → (if b then found o else err not_found) ≡ err not_found
    → (if b then o else none) ≡ none
inspect-missing true o e = found-missing o e
inspect-missing false o e = refl

pub listed-All :
    (fs : List LabelFilter) (s : Slots) (o : Option Labels)
    → s.c ≡ o
    → All
        (λ (c : ContainerSummary). (if c.id == "it" then s.c else none) ≡ some c.labels)
        (listed fs o)
listed-All fs s none e = tt
listed-All fs s (some l) e = either (satisfies l fs)
  where
    either :
        (b : Bool)
        → All
            (λ (c : ContainerSummary). (if c.id == "it" then s.c else none) ≡ some c.labels)
            (if b then entry l ∷ [] else [])
    either true = (e, tt)
    either false = tt

pub same_list : (xs ys : List ContainerSummary) → ok xs ≡ ok ys → xs ≡ ys
same_list xs ys e = cc e

pub every_summary : (cs : List ContainerSummary) → All (λ (c : ContainerSummary). true ≡ true) cs
every_summary [] = tt
every_summary (c ∷ cs) = (refl, every_summary cs)

abbrev pub engine_laws : EngineLaws daemon daemon_laws engine
engine_laws = record {
  inspect_keeps = λ i w J j l h. h;
  summaries_keeps = λ fs w J j l h. h;
  summaries_sound = λ fs w cs e.
      subst (All (λ (c : ContainerSummary). (if c.id == "it" then w.c else none) ≡ some c.labels))
        (same_list _ _ e) (listed-All fs w w.c refl);
  summaries_ids = λ fs w cs e. every_summary cs;
  inspect_shows = λ i w c l at e. inspect-shows (i == "it") w.c c l at e;
  inspect_missing = λ i w e. inspect-missing (i == "it") w.c e;
  inspect_quiet = λ i w J j h. h;
}
