-- ===== src/Topology/Reports/Phase/Laws.antt =====
-- internal/topology/exitreport.go: the text of a job's name decides nothing.
use garm_provider_docker.Base.{
  String, Bool, true, false, ◌&&◌, not, none, some, List, [], ◌∷◌, ◌++◌, ◌≡◌, refl, arith, ◌⧺◌, eqb,
  if◌then◌else◌, ap, sym, ◌∙◌, length,
}
use Prim.Native.Char.{Char, code}
use text.Mathlib.TextLemmas.{cons-append, nil-append}
use garm_provider_docker.Base.Texts.{has_prefix, strip_prefix, is_digit}
use garm_provider_docker.Base.Texts.Laws.{has_prefix_append}
use garm_provider_docker.Topology.Reports.Phase.{
  job_started, phase_unknown, Marker, running_job, marker_at, marker_within, progress_of, or_later,
  latest, classify_runner_phase, classified, phase_of, after_break,
}

-- The first character is a digit, and no ": " is in the text.
abbrev pub starts_with_digit : String → Bool
starts_with_digit String.[] = false
starts_with_digit (String.◌∷◌ c s) = is_digit c

abbrev starts_with_space : String → Bool
starts_with_space String.[] = false
starts_with_space (String.◌∷◌ c s) = eqb 32 (code c)

abbrev pub no_break : String → Bool
no_break String.[] = true
no_break (String.◌∷◌ c s) = not (eqb 58 (code c) && starts_with_space s) && no_break s

-- `: ` does not begin inside the stamp.
stamp-strip_prefix :
    (c : Char) (s rest : String)
    → (eqb 58 (code c) && starts_with_space s) ≡ false
    → strip_prefix ": " (String.◌∷◌ c (s ⧺ (": " ⧺ rest))) ≡ none
unfolding strip_prefix
stamp-strip_prefix c String.[] rest h =
    rw (nil-append (": " ⧺ rest), cons-append _ " " rest) (ground arith)
stamp-strip_prefix c (String.◌∷◌ d s) rest h =
    rw (cons-append d s (": " ⧺ rest)) (ground (arith, h))

break-strip_prefix : (rest : String) → strip_prefix ": " (": " ⧺ rest) ≡ some rest
unfolding strip_prefix
break-strip_prefix rest = rw (cons-append _ " " rest, cons-append _ "" rest, nil-append rest) refl

marker_within-break :
    (rest : String) (m : Marker) → marker_at rest ≡ some m → marker_within (": " ⧺ rest) ≡ some m
unfolding marker_within
marker_within-break rest m h =
    ap marker_within (cons-append _ " " rest)
    ∙ ap (λ o. after_break o (marker_within (" " ⧺ rest)))
        (ap (strip_prefix ": ") (sym (cons-append _ " " rest)) ∙ break-strip_prefix rest)
    ∙ ap (λ o. or_later o (marker_within (" " ⧺ rest))) h

marker_within-stamp :
    (stamp rest : String) (m : Marker)
    → no_break stamp ≡ true
    → marker_at rest ≡ some m
    → marker_within (stamp ⧺ (": " ⧺ rest)) ≡ some m
unfolding marker_within
marker_within-stamp String.[] rest m plain h =
    ap marker_within (nil-append (": " ⧺ rest)) ∙ marker_within-break rest m h
marker_within-stamp (String.◌∷◌ c s) rest m plain h =
    ap marker_within (cons-append c s (": " ⧺ rest))
    ∙ ap (λ o. after_break o (marker_within (s ⧺ (": " ⧺ rest))))
        (stamp-strip_prefix c s rest (ground (arith, plain)))
    ∙ marker_within-stamp s rest m (ground (arith, plain)) h

-- A text that begins with a digit begins with no marker.
stamp-marker_at :
    (stamp rest : String) → starts_with_digit stamp ≡ true → marker_at (stamp ⧺ rest) ≡ none
unfolding marker_at has_prefix strip_prefix
stamp-marker_at String.[] rest digit = ground (arith, digit)
stamp-marker_at (String.◌∷◌ c s) rest digit = rw (cons-append c s rest) (ground (arith, digit))

first_differs :
    (p c : Char) (ps cs s : String)
    → eqb (code p) (code c) ≡ false
    → has_prefix (String.◌∷◌ c cs ⧺ s) (String.◌∷◌ p ps) ≡ false
unfolding has_prefix strip_prefix
first_differs p c ps cs s h =
    ap (λ t. has_prefix t (String.◌∷◌ p ps)) (cons-append c cs s) ∙ ground (arith, h)

running-marker_at : (name : String) → marker_at ("Running job: " ⧺ name) ≡ some running_job
unfolding marker_at
running-marker_at name =
    let other : has_prefix ("Running job: " ⧺ name) "Listening for Jobs" ≡ false =
      first_differs _ _ _ _ name refl in
    rw (other, has_prefix_append "Running job: " name) refl

latest-last :
    (ls : List String) (l : String) (m : Marker)
    → progress_of l ≡ some m
    → latest (ls ++ l ∷ []) ≡ some m
unfolding latest
latest-last [] l m h = h
latest-last (k ∷ ls) l m h = ap (λ o. or_later o (progress_of k)) (latest-last ls l m h)

progress_of-running :
    (stamp name : String)
    → starts_with_digit stamp ≡ true
    → no_break stamp ≡ true
    → progress_of (stamp ⧺ (": " ⧺ ("Running job: " ⧺ name))) ≡ some running_job
unfolding progress_of
progress_of-running stamp name digit plain =
    ap (λ o. or_later o (marker_within (stamp ⧺ (": " ⧺ ("Running job: " ⧺ name)))))
      (stamp-marker_at stamp (": " ⧺ ("Running job: " ⧺ name)) digit)
    ∙ marker_within-stamp stamp ("Running job: " ⧺ name) running_job plain (running-marker_at name)

-- If the last line that a runner printed says that it runs a job, behind a time stamp that begins
-- with a digit and has no ": ", the phase is job_started, or unknown if the tail was cut, whatever the
-- job's name and the earlier lines are.
pub classify_runner_phase-running :
    (ls : List String) (stamp name : String) (truncated : Bool)
    → starts_with_digit stamp ≡ true
    → no_break stamp ≡ true
    → classify_runner_phase (ls ++ (stamp ⧺ (": " ⧺ ("Running job: " ⧺ name))) ∷ []) truncated
      ≡ (if truncated then phase_unknown else job_started)
unfolding classify_runner_phase
classify_runner_phase-running ls stamp name truncated digit plain =
    ap (classified truncated (length (ls ++ (stamp ⧺ (": " ⧺ ("Running job: " ⧺ name))) ∷ [])))
      (latest-last ls _ running_job (progress_of-running stamp name digit plain))
    ∙ decided truncated
  where
    decided : (t : Bool) → phase_of t running_job ≡ (if t then phase_unknown else job_started)
    decided true = refl
    decided false = refl
