-- ===== src/Topology/Sweep/Laws.antt =====
-- internal/topology/sweep.go: which instances the sweep spares.
use garm_provider_docker.Base.{
  ℕ, String, Bool, true, false, ◌&&◌, not, ltb, ◌+◌, ◌-◌, ◌≤◌, List, [], ◌∷◌, ◌++◌, Option, none,
  some, Labels, Result, ok, err, All, ◌≡◌, ◌≢◌, refl, arith, ap, subst, sym, ◌∙◌, ◌>>=◌,
}
use garm_provider_docker.Spec.Labels.{matches_predicate}
use garm_provider_docker.Topology.Sweep.{
  SweptContainer, Noted, Runners, note, see_runners, see_runner, decide, sweep_instance, later, see,
  noting, is_active_runner_state, is_own_runner, parse_created_at, labels_of,
}

-- No time later than this one.
abbrev pub UpTo : Option ℕ → ℕ → Type 0
UpTo none b = Unit
UpTo (some t) b = t ≤ b

later-UpTo : (o : Option ℕ) (t b : ℕ) → UpTo (later o t) b → UpTo o b × (t ≤ b)
later-UpTo none t b h = (tt, h)
later-UpTo (some u) t b h = ground arith

same_runners : (a b : Runners) → ok a ≡ ok b → a ≡ b
same_runners a b e = cc e

true_not_false : true ≢ false
true_not_false e = ground (arith, e)

bind_ok :
    (m : Result Runners) (f : Runners → Result Runners) (b : Runners)
    → (m >>= f) ≡ ok b
    → (a : Runners) × (m ≡ ok a) × (f a ≡ ok b)
bind_ok (ok a) f b h = (a, refl, h)
bind_ok (err e) f b h = ground (arith, h)

swept_ok :
    (m : Result Runners) (f : Runners → Bool)
    → (m >>= λ seen. ok (f seen)) ≡ ok true
    → (seen : Runners) × (m ≡ ok seen) × (f seen ≡ true)
swept_ok (ok a) f h = (a, refl, ground (arith, h))
swept_ok (err e) f h = ground (arith, h)

-- What a decision to tear down rests on.
decide-true :
    (controller_id : String) (parse : String → Option ℕ) (now exited_grace inflight_grace : ℕ)
    (noted : Noted) (seen : Runners)
    → decide controller_id parse now exited_grace inflight_grace noted seen ≡ true
    → (seen.active ≡ false)
      × UpTo seen.exited (now - exited_grace)
      × (seen.exited ≡ none → UpTo noted.youngest (now - inflight_grace))
decide-true controller_id parse now exited_grace inflight_grace noted seen h =
    decided noted.has_resource seen.active seen.exited noted.youngest h
  where
    decided :
        (has active : Bool) (exited youngest : Option ℕ)
        → (has && not active && elim exited [
          | some t ↦ not (ltb now (t + exited_grace))
          | none ↦ elim youngest [ none ↦ false | some t ↦ not (ltb now (t + inflight_grace)) ]
        ])
          ≡ true
        → (active ≡ false)
          × UpTo exited (now - exited_grace)
          × (exited ≡ none → UpTo youngest (now - inflight_grace))
    decided false active exited youngest h = ground arith
    decided true true exited youngest h = ground arith
    decided true false (some t) youngest h = (refl, ground arith, λ e. ground (arith, e))
    decided true false none none h = ground arith
    decided true false none (some t) h = (refl, tt, λ e. ground arith)

module _ (controller_id : String) (parse : String → Option ℕ) where
  -- A runner of the controller is stopped, and finished no later than `b` if that is known.
  abbrev pub Finished : ℕ → Bool → Bool → Result (Option ℕ) → Type 0
  Finished b own active finished =
      own ≡ true → (active ≡ false) × ((t : ℕ) → finished ≡ ok (some t) → t ≤ b)

  abbrev pub FinishedRunner : ℕ → SweptContainer → Type 0
  FinishedRunner b c =
      Finished b (is_own_runner controller_id parse c.labels) (is_active_runner_state c.state)
        c.finished_at

  see-Finished :
      (own active : Bool) (finished : Result (Option ℕ)) (seen after : Runners) (b : ℕ)
      → see controller_id parse own active finished seen ≡ ok after
      → after.active ≡ false
      → UpTo after.exited b
      → (seen.active ≡ false) × UpTo seen.exited b × Finished b own active finished
  see-Finished false active finished seen after b h quiet bound =
      let e = same_runners seen after h in
      (
        ap (λ (r : Runners). r.active) e ∙ quiet,
        subst (λ (r : Runners). UpTo r.exited b) (sym e) bound,
        λ own. ground arith,
      )
  see-Finished true true finished seen after b h quiet bound =
      let e = same_runners (record seen { active = true }) after h in
      elim (true_not_false (ap (λ (r : Runners). r.active) e ∙ quiet)) [ ]
  see-Finished true false (err e) seen after b h quiet bound = ground (arith, h)
  see-Finished true false (ok none) seen after b h quiet bound =
      let e = same_runners seen after h in
      (
        ap (λ (r : Runners). r.active) e ∙ quiet,
        subst (λ (r : Runners). UpTo r.exited b) (sym e) bound,
        λ own. (refl, λ t at. ground (arith, at)),
      )
  see-Finished true false (ok (some t)) seen after b h quiet bound =
      let e = same_runners (record seen { exited = later seen.exited t }) after h in
      let (old, new) =
        later-UpTo seen.exited t b (subst (λ (r : Runners). UpTo r.exited b) (sym e) bound) in
      (
        ap (λ (r : Runners). r.active) e ∙ quiet,
        old,
        λ own. (refl, λ u at. ground (arith, new, at)),
      )

  see_runners-Finished :
      (cs : List SweptContainer) (seen after : Runners) (b : ℕ)
      → see_runners controller_id parse cs seen ≡ ok after
      → after.active ≡ false
      → UpTo after.exited b
      → (seen.active ≡ false) × UpTo seen.exited b × All (FinishedRunner b) cs
  unfolding see_runners
  see_runners-Finished [] seen after b h quiet bound =
      let e = same_runners seen after h in
      (
        ap (λ (r : Runners). r.active) e ∙ quiet,
        subst (λ (r : Runners). UpTo r.exited b) (sym e) bound,
        tt,
      )
  see_runners-Finished (c ∷ cs) seen after b h quiet bound =
      let (mid, first, rest) =
        bind_ok (see_runner controller_id parse c seen) (λ s. see_runners controller_id parse cs s)
          after h in
      let (q, u, fs) = see_runners-Finished cs mid after b rest quiet bound in
      let (q', u', f) =
        see-Finished (is_own_runner controller_id parse c.labels) (is_active_runner_state c.state)
          c.finished_at seen mid b first q u in
      (q', u', (f, fs))

  noted_case :
      (own : Bool) (time : Option ℕ) (noted : Noted) (b : ℕ)
      → UpTo (noting controller_id parse own time noted).youngest b
      → UpTo noted.youngest b × ((own ≡ true) → (t : ℕ) → time ≡ some t → t ≤ b)
  noted_case false time noted b h = (h, λ own. ground arith)
  noted_case true none noted b h = (h, λ own t at. ground (arith, at))
  noted_case true (some u) noted b h =
      let (old, new) = later-UpTo noted.youngest u b h in (old, λ own t at. ground (arith, at, new))

  -- No time is known for a runner.
  abbrev pub NoExit : SweptContainer → Type 0
  NoExit c = (t : ℕ) → c.finished_at ≢ ok (some t)

  see-NoExit :
      (own active : Bool) (finished : Result (Option ℕ)) (seen after : Runners)
      → ((t : ℕ) → finished ≢ ok (some t))
      → see controller_id parse own active finished seen ≡ ok after
      → after.exited ≡ seen.exited
  see-NoExit false active finished seen after never h =
      ap (λ (r : Runners). r.exited) (sym (same_runners seen after h))
  see-NoExit true true finished seen after never h =
      ap (λ (r : Runners). r.exited) (sym (same_runners (record seen { active = true }) after h))
  see-NoExit true false (err e) seen after never h = ground (arith, h)
  see-NoExit true false (ok none) seen after never h =
      ap (λ (r : Runners). r.exited) (sym (same_runners seen after h))
  see-NoExit true false (ok (some t)) seen after never h = elim (never t refl) [ ]

  see_runners-NoExit :
      (cs : List SweptContainer) (seen after : Runners)
      → All NoExit cs
      → see_runners controller_id parse cs seen ≡ ok after
      → after.exited ≡ seen.exited
  unfolding see_runners
  see_runners-NoExit [] seen after never h =
      ap (λ (r : Runners). r.exited) (sym (same_runners seen after h))
  see_runners-NoExit (c ∷ cs) seen after (n, never) h =
      let (mid, first, rest) =
        bind_ok (see_runner controller_id parse c seen) (λ s. see_runners controller_id parse cs s)
          after h in
      see_runners-NoExit cs mid after never rest
      ∙ see-NoExit (is_own_runner controller_id parse c.labels) (is_active_runner_state c.state)
          c.finished_at seen mid n first

  -- A resource of the controller was created no later than `b`, if its label says when.
  abbrev pub CreatedBy : ℕ → Labels → Type 0
  CreatedBy b l =
      (matches_predicate l controller_id ≡ true)
      → (t : ℕ) → parse_created_at controller_id parse l ≡ some t
      → t ≤ b

  note-CreatedBy :
      (ls : List Labels) (noted : Noted) (b : ℕ)
      → UpTo (note controller_id parse ls noted).youngest b
      → UpTo noted.youngest b × All (CreatedBy b) ls
  unfolding note
  note-CreatedBy [] noted b h = (h, tt)
  note-CreatedBy (l ∷ ls) noted b h =
      let (u, rest) = note-CreatedBy ls _ b h in
      let (v, own) =
        noted_case (matches_predicate l controller_id) (parse_created_at controller_id parse l)
          noted b u in
      (v, (own, rest))

-- The sweep tears an instance down only if each of its runners is stopped (not running, paused or
-- restarting), and none of them is known to have finished less than the grace period ago.
pub sweep_instance-Finished :
    (controller_id : String) (parse : String → Option ℕ) (now exited_grace inflight_grace : ℕ)
    (containers : List SweptContainer) (networks volumes : List Labels)
    → sweep_instance controller_id parse now exited_grace inflight_grace containers networks volumes
      ≡ ok true
    → All (FinishedRunner controller_id parse (now - exited_grace)) containers
unfolding sweep_instance
sweep_instance-Finished controller_id parse now exited_grace inflight_grace containers networks
      volumes h =
    let (seen, e, d) =
      swept_ok
        (see_runners controller_id parse containers (record { active = false; exited = none })) _
        h in
    let (quiet, bound, young) =
      decide-true controller_id parse now exited_grace inflight_grace _ seen d in
    let (q, u, fs) =
      see_runners-Finished controller_id parse containers _ seen (now - exited_grace) e quiet
        bound in
    fs

-- The sweep tears an instance of which no runner is known to have finished, as while it is being
-- created, down only if none of its resources was created less than the in-flight grace period ago.
pub sweep_instance-CreatedBy :
    (controller_id : String) (parse : String → Option ℕ) (now exited_grace inflight_grace : ℕ)
    (containers : List SweptContainer) (networks volumes : List Labels)
    → All (NoExit controller_id parse) containers
    → sweep_instance controller_id parse now exited_grace inflight_grace containers networks volumes
      ≡ ok true
    → All
        (CreatedBy controller_id parse (now - inflight_grace))
        (labels_of controller_id parse containers ++ networks ++ volumes)
unfolding sweep_instance
sweep_instance-CreatedBy controller_id parse now exited_grace inflight_grace containers networks
      volumes never h =
    let (seen, e, d) =
      swept_ok
        (see_runners controller_id parse containers (record { active = false; exited = none })) _
        h in
    let (quiet, bound, young) =
      decide-true controller_id parse now exited_grace inflight_grace _ seen d in
    let (u, old) =
      note-CreatedBy controller_id parse _ _ (now - inflight_grace)
        (young (see_runners-NoExit controller_id parse containers _ seen never e)) in
    old
