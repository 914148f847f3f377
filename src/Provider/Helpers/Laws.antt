-- ===== src/Provider/Helpers/Laws.antt =====
-- internal/provider/gc.go: which containers a pass over leaked helpers removes, and how many.
use garm_provider_docker.Base.{
  ℕ, suc, ◌+◌, ◌≤◌, ◌≢◌, Error, String, Bool, true, false, ◌&&◌, Option, some, List, [], ◌∷◌,
  Labels, label, leb, Result, ok, err, failed, not_found, conflict, forbidden, duplicate,
  instance_not_found, both, All, ◌≡◌, refl, sym, subst, ◌∙◌, arith,
}
use garm_provider_docker.Docker.Client.{Kind, container, Client, ClientLaws}
use garm_provider_docker.Docker.Filters.{LabelFilter}
use garm_provider_docker.Docker.Containers.{ContainerSummary, Engine, EngineLaws}
use garm_provider_docker.Spec.Labels.{label_created_at}
use garm_provider_docker.Provider.Helpers.{
  helper_reap_max, helper_created, helper_reapable, helper_filter, is_own_helper, wants_reap,
  reaped_one, reap_if, unless_full, reap_each, reap_listed, reap_leaked_helpers,
}

fewer : (n before after : ℕ) → after ≤ before → (after + n ≤ before + n) × (n ≤ suc n)
fewer n before after h = (omega arith, omega arith)

module _ (C : Client) (E : Engine C) (controller_id : String) (parse : String → Option ℕ)
    (now : ℕ) where
  -- How much a removal may add to a count of removals.
  abbrev pub AtMostOne : (C.World → ℕ) → Type 0
  AtMostOne count = (i : String) (w : C.World) → count (C.remove container i w).1 ≤ suc (count w)

  -- A removal that fails, for another reason than that nothing is there, adds nothing.
  abbrev pub NoneIfFailed : (C.World → ℕ) → Type 0
  NoneIfFailed count =
      (i : String) (w : C.World) (e : Error)
      → (C.remove container i w).0 ≡ err e
      → e ≢ not_found
      → count (C.remove container i w).1 ≤ count w

  module _ (count : C.World → ℕ) (one : AtMostOne count) (fails : NoneIfFailed count) where
    counted_one :
        (r : Result (Unit {0})) (n before after : ℕ)
        → after ≤ suc before
        → ((e : Error) → r ≡ err e → e ≢ not_found → after ≤ before)
        → (after + n ≤ before + reaped_one C E controller_id parse now r n)
          × (reaped_one C E controller_id parse now r n ≤ suc n)
    counted_one (ok u) n before after h f = (omega arith, omega arith)
    counted_one (err not_found) n before after h f = (omega arith, omega arith)
    counted_one (err failed) n before after h f = fewer n before after (f failed refl (λ e. cc e))
    counted_one (err conflict) n before after h f =
        fewer n before after (f conflict refl (λ e. cc e))
    counted_one (err forbidden) n before after h f =
        fewer n before after (f forbidden refl (λ e. cc e))
    counted_one (err duplicate) n before after h f =
        fewer n before after (f duplicate refl (λ e. cc e))
    counted_one (err instance_not_found) n before after h f =
        fewer n before after (f instance_not_found refl (λ e. cc e))
    counted_one (err (both a b)) n before after h f =
        fewer n before after (f (both a b) refl (λ e. cc e))

    counted_if :
        (b : Bool) (id : String) (n : ℕ) (w : C.World)
        → (count (reap_if C E controller_id parse now b id n w).1 + n
            ≤ count w + (reap_if C E controller_id parse now b id n w).0)
          × ((reap_if C E controller_id parse now b id n w).0 ≤ suc n)
    counted_if false id n w = (omega arith, omega arith)
    counted_if true id n w =
        counted_one (C.remove container id w).0 n (count w) _ (one id w) (fails id w)

    counted_unless :
        (b : Bool) (n : ℕ) (w : C.World) (next : ℕ × C.World)
        → n ≤ helper_reap_max
        → (b ≡ false → count next.1 + n ≤ count w + helper_reap_max)
        → count (unless_full C E controller_id parse now b n w next).1 + n
          ≤ count w + helper_reap_max
    counted_unless true n w next h k = omega arith
    counted_unless false n w next h k = k refl

    total :
        (n m before between after : ℕ)
        → (between + n ≤ before + m) × (m ≤ suc n)
        → (m ≤ helper_reap_max → after + m ≤ between + helper_reap_max)
        → leb helper_reap_max n ≡ false
        → after + n ≤ before + helper_reap_max
    total n m before between after (a, b) later e =
        let room : m ≤ helper_reap_max = ground (arith, e, b) in
        let rest : after + m ≤ between + helper_reap_max = later room in omega arith

    reap_each-le :
        (cs : List ContainerSummary) (n : ℕ) (w : C.World)
        → n ≤ helper_reap_max
        → count (reap_each C E controller_id parse now cs n w).1 + n ≤ count w + helper_reap_max
    unfolding reap_each
    reap_each-le [] n w h = omega arith
    reap_each-le (c ∷ cs) n w h = counted_unless (leb helper_reap_max n) n w _ h (λ e.
        total n _ (count w) _ _ (counted_if (wants_reap C E controller_id parse now c) c.id n w)
          (λ room. reap_each-le cs _ _ room) e)

    -- However removals are counted, where a call adds at most one, one that fails for another reason
    -- than that nothing is there adds none, and a list adds none, a pass adds at most helperReapMax:
    -- so many helpers at most are removed.
    pub reap_leaked_helpers-le :
        ((fs : List LabelFilter) (w : C.World) → count (E.summaries fs w).1 ≤ count w)
        → (w : C.World)
        → count (reap_leaked_helpers C E controller_id parse now w).1 ≤ count w + helper_reap_max
    unfolding reap_leaked_helpers
    reap_leaked_helpers-le lists w =
        let f = helper_filter controller_id in
        let after : count (E.summaries f w).1 ≤ count w = lists f w in
        let reaped : count
              (reap_listed C E controller_id parse now (E.summaries f w).0 (E.summaries f w).1).1
            ≤ count (E.summaries f w).1 + helper_reap_max =
          listed_le (E.summaries f w).0 _ in
        omega arith
      where
        listed_le :
            (r : Result (List ContainerSummary)) (w : C.World)
            → count (reap_listed C E controller_id parse now r w).1 ≤ count w + helper_reap_max
        listed_le (err e) w = omega arith
        listed_le (ok cs) w =
            let all : count (reap_each C E controller_id parse now cs 0 w).1 + 0
                ≤ count w + helper_reap_max =
              reap_each-le cs 0 w (omega arith) in
            omega arith

  module _ (L : ClientLaws C) (U : EngineLaws C L E) (J : Kind) (j : String) (l : Labels) where
    abbrev Kept : C.World → Type 0
    Kept w = L.view w J j ≡ some l

    -- An entry of the list that is the resource has its labels.
    abbrev Faithful : List ContainerSummary → Type 0
    Faithful cs = All (λ (c : ContainerSummary). container ≡ J → c.id ≡ j → c.labels ≡ l) cs

    reap_if-Kept :
        (b : Bool) (id : String) (n : ℕ) (w : C.World)
        → L.is_id container id ≡ true
        → (b ≡ true → ¬ ((container ≡ J) × (id ≡ j)))
        → Kept w
        → Kept (reap_if C E controller_id parse now b id n w).1
    reap_if-Kept false id n w known apart h = h
    reap_if-Kept true id n w known apart h =
        L.remove_keeps container id w J j l known h (apart refl)

    unless_full-Kept :
        (b : Bool) (n : ℕ) (w : C.World) (next : ℕ × C.World)
        → Kept w
        → Kept next.1
        → Kept (unless_full C E controller_id parse now b n w next).1
    unless_full-Kept true n w next h k = h
    unless_full-Kept false n w next h k = k

    reap_each-Kept :
        (cs : List ContainerSummary) (n : ℕ) (w : C.World)
        → All (λ (c : ContainerSummary). L.is_id container c.id ≡ true) cs
        → Faithful cs
        → ((state : String)
            → (is_own_helper controller_id l
                && helper_reapable now state (helper_created parse (label l label_created_at)))
              ≡ false)
        → Kept w
        → Kept (reap_each C E controller_id parse now cs n w).1
    unfolding reap_each
    reap_each-Kept [] n w ids f spared h = h
    reap_each-Kept (c ∷ cs) n w (known, ids) (same, f) spared h =
        let h' : Kept
            (reap_if C E controller_id parse now (wants_reap C E controller_id parse now c) c.id n
              w).1 =
          reap_if-Kept (wants_reap C E controller_id parse now c) c.id n w known
            (λ wants (k, i). ground (
              arith,
              wants,
              subst
                  (λ x.
                    (is_own_helper controller_id x
                      && helper_reapable now c.state
                          (helper_created parse (label x label_created_at)))
                    ≡ false)
                  (sym (same k i)) (spared c.state),
            ))
            h in
        unless_full-Kept (leb helper_reap_max n) n w _ h (reap_each-Kept cs _ _ ids f spared h')

    faithful :
        (w : C.World) (cs : List ContainerSummary)
        → L.view w J j ≡ some l
        → All (λ (c : ContainerSummary). L.view w container c.id ≡ some c.labels) cs
        → Faithful cs
    faithful w [] h seen = tt
    faithful w (c ∷ cs) h (at, seen) = (
      λ k i.
          let there : L.view w container c.id ≡ some l =
            subst (λ x. L.view w container x ≡ some l) (sym i)
              (subst (λ K. L.view w K j ≡ some l) (sym k) h) in
          let both_labels : some c.labels ≡ some l = sym at ∙ there in cc both_labels,
      faithful w cs h seen,
    )

    -- If a resource's labels are, whatever the container's state is, not both those of a helper of this
    -- controller and old enough to be reaped, a pass over leaked helpers keeps the resource.
    pub reap_leaked_helpers-keeps :
        (w : C.World)
        → ((state : String)
            → (is_own_helper controller_id l
                && helper_reapable now state (helper_created parse (label l label_created_at)))
              ≡ false)
        → L.view w J j ≡ some l
        → L.view (reap_leaked_helpers C E controller_id parse now w).1 J j ≡ some l
    unfolding reap_leaked_helpers
    reap_leaked_helpers-keeps w spared h =
        let f = helper_filter controller_id in
        let h' : Kept (E.summaries f w).1 = U.summaries_keeps f w J j l h in
        listed (E.summaries f w).0 _ h' (λ cs e. U.summaries_ids f w cs e)
          (λ cs e. U.summaries_sound f w cs e)
      where
        listed :
            (r : Result (List ContainerSummary)) (w : C.World)
            → Kept w
            → ((cs : List ContainerSummary)
                → r ≡ ok cs
                → All (λ (c : ContainerSummary). L.is_id container c.id ≡ true) cs)
            → ((cs : List ContainerSummary)
                → r ≡ ok cs
                → All (λ (c : ContainerSummary). L.view w container c.id ≡ some c.labels) cs)
            → Kept (reap_listed C E controller_id parse now r w).1
        listed (err e) w h ids seen = h
        listed (ok cs) w h ids seen =
            reap_each-Kept cs 0 w (ids cs refl) (faithful w cs h (seen cs refl)) spared h
