-- ===== src/Docker/Fake/Contract.antt =====
-- internal/docker/fake.go: its volumes keep what the provider's cache relies on of a daemon's. A state
-- of this daemon is one that the fake's calls reach. `matches` stands for MatchKVList of the SDK's
-- filters.
use garm_provider_docker.Base.{
  suc, String, Bool, true, false, Option, none, some, List, [], ◌∷◌, Labels, lookup, Error, Result,
  ok, err, All, ◌≡◌, ◌≢◌, ◌↔◌, inl, inr, refl, sym, subst, arith, eq_iff, ◌==◌, ◌⧺◌, if◌then◌else◌,
  Bool-cases,
}
use garm_provider_docker.Base.Tables.{lookup-assign, entries_Distinct}
use garm_provider_docker.Base.Texts.{itoa}
use garm_provider_docker.Docker.Filters.{LabelFilter, Satisfies}
use garm_provider_docker.Docker.Client.{Resource, Listed}
use garm_provider_docker.Docker.Fake.{FakeVolume, FakeClient, injected_or}
use garm_provider_docker.Docker.Fake.Volumes.{
  volume_create, volume_remove, volume_list, matching_volumes, existing_or, create_named,
}
use garm_provider_docker.Docker.Fake.Invariant.{
  make_volume, drop_volume, step, Reachable, after, WellFormed, Keyed,
}
use garm_provider_docker.Docker.Fake.Reached.{Reachable-WellFormed}
use garm_provider_docker.Topology.Cache.{Volumes, VolumesLaws}

abbrev labels_of : Option FakeVolume → Option Labels
labels_of none = none
labels_of (some v) = some v.labels

abbrev result_labels : Result FakeVolume → Result Labels
result_labels (err e) = err e
result_labels (ok v) = ok v.labels

abbrev pub volume_labels : FakeClient → String → Option Labels
volume_labels f n = labels_of (lookup n f.volumes)

module _ (matches : List LabelFilter → Labels → Bool) where
  unfoldable pub fake_volumes : Volumes
  unfolding step
  fake_volumes = record {
    World = (f : FakeClient) × Reachable f;
    list = λ fs w. (ok (volume_list matches fs w.0), w);
    create = λ n new w. (
      result_labels (volume_create n new w.0).0,
      ((volume_create n new w.0).1, after w.0 (make_volume n new) w.1),
    );
    remove =
        λ n w. ((volume_remove n w.0).0, ((volume_remove n w.0).1, after w.0 (drop_volume n) w.1));
  }

  matching-All :
      (fs : List LabelFilter) (all es : List (String × FakeVolume))
      → Keyed (λ (v : FakeVolume). v.name) all
      → All (λ (e : String × FakeVolume). lookup e.0 all ≡ some e.1) es
      → All
          (λ (r : Resource). labels_of (lookup r.id all) ≡ some r.labels)
          (matching_volumes matches fs es)
  matching-All fs all [] keyed h = tt
  matching-All fs all ((k, v) ∷ es) keyed (at, h) =
      both (matches fs v.labels) (rw (keyed k v at, at) refl) (matching-All fs all es keyed h)
    where
      both :
          (b : Bool)
          → labels_of (lookup v.name all) ≡ some v.labels
          → All
              (λ (r : Resource). labels_of (lookup r.id all) ≡ some r.labels)
              (matching_volumes matches fs es)
          → All
              (λ (r : Resource). labels_of (lookup r.id all) ≡ some r.labels)
              (if b
                then record { id = v.name; labels = v.labels } ∷ matching_volumes matches fs es
                else matching_volumes matches fs es)
      both true here later = (here, later)
      both false here later = later

  matching-Listed :
      (fs : List LabelFilter) (es : List (String × FakeVolume)) (j : String) (v : FakeVolume)
      → lookup j es ≡ some v
      → v.name ≡ j
      → matches fs v.labels ≡ true
      → Listed j v.labels (matching_volumes matches fs es)
  matching-Listed fs [] j v at named h = ground (arith, at)
  matching-Listed fs ((k, u) ∷ es) j v at named h = elim (Bool-cases (k == j)) [
    | inl here ↦
        let first : some u ≡ some v = ground (arith, at, here) in
        let same : u ≡ v = cc first in rw (same, h) (inl (named, refl))
    | inr there ↦
        later (matches fs u.labels) (matching-Listed fs es j v (ground (arith, at, there)) named h)
  ]
    where
      later :
          (b : Bool)
          → Listed j v.labels (matching_volumes matches fs es)
          → Listed j v.labels (
              if b
              then record { id = u.name; labels = u.labels } ∷ matching_volumes matches fs es
              else matching_volumes matches fs es)
      later true at = inr at
      later false at = at

  volume_list-Listed :
      (fs : List LabelFilter) (f : FakeClient) (j : String) (l : Labels)
      → WellFormed f
      → volume_labels f j ≡ some l
      → matches fs l ≡ true
      → Listed j l (volume_list matches fs f)
  unfolding volume_list
  volume_list-Listed fs f j l wf at m = seen (lookup j f.volumes) refl at
    where
      seen :
          (o : Option FakeVolume)
          → lookup j f.volumes ≡ o
          → labels_of o ≡ some l
          → Listed j l (matching_volumes matches fs f.volumes)
      seen none e h = ground (arith, h)
      seen (some v) e h =
          let same : v.labels ≡ l = cc h in
          subst (λ x. Listed j x (matching_volumes matches fs f.volumes)) same
            (matching-Listed fs f.volumes j v e (wf.volumes_ok.volumes_Keyed j v e)
              (subst (λ x. matches fs x ≡ true) (sym same) m))

  -- A volume that was there is as it was after a create under any name.
  existing_or-keeps :
      (n : String) (new : Labels) (f : FakeClient) (j : String) (l : Labels)
      → volume_labels f j ≡ some l
      → volume_labels (create_named n new f).1 j ≡ some l
  existing_or-keeps n new f j l at = made (lookup n f.volumes) refl
    where
      made :
          (o : Option FakeVolume)
          → lookup n f.volumes ≡ o
          → volume_labels (existing_or o n new f).1 j ≡ some l
      made (some v) e = at
      made none e = ground (
        arith,
        at,
        e,
        lookup-assign f.volumes n (record { name = n; labels = new }) j,
        eq_iff n j,
      )

  create-keeps :
      (n : String) (new : Labels) (f : FakeClient) (j : String) (l : Labels)
      → volume_labels f j ≡ some l
      → volume_labels (volume_create n new f).1 j ≡ some l
  unfolding volume_create
  create-keeps n new f j l at = made f.injected.volume_create_err (n == "")
    where
      made :
          (o : Option Error) (b : Bool)
          → volume_labels
              (injected_or o f (
                if b
                then create_named
                    ("fake-vol-" ⧺ itoa (suc f.next_id))
                    new
                    (record f { next_id = suc f.next_id })
                else create_named n new f)).1
              j
            ≡ some l
      made (some e) b = at
      made none true = existing_or-keeps _ new (record f { next_id = suc f.next_id }) j l at
      made none false = existing_or-keeps n new f j l at

  existing_or-returns :
      (n : String) (new got : Labels) (f : FakeClient)
      → result_labels (create_named n new f).0 ≡ ok got
      → volume_labels (create_named n new f).1 n ≡ some got
  existing_or-returns n new got f h = made (lookup n f.volumes) refl h
    where
      made :
          (o : Option FakeVolume)
          → lookup n f.volumes ≡ o
          → result_labels (existing_or o n new f).0 ≡ ok got
          → volume_labels (existing_or o n new f).1 n ≡ some got
      made (some v) e h = let same : v.labels ≡ got = cc h in rw (e, same) refl
      made none e h =
          let same : new ≡ got = cc h in
          ground (
            arith,
            lookup-assign f.volumes n (record { name = n; labels = new }) n,
            eq_iff n n,
            same,
          )

  create-returns :
      (n : String) (new got : Labels) (f : FakeClient)
      → n ≢ ""
      → result_labels (volume_create n new f).0 ≡ ok got
      → volume_labels (volume_create n new f).1 n ≡ some got
  unfolding volume_create
  create-returns n new got f given h =
      made f.injected.volume_create_err (n == "") (λ e. given ((eq_iff n "").0 e)) h
    where
      made :
          (o : Option Error) (b : Bool)
          → ¬ (b ≡ true)
          → result_labels
              (injected_or o f (
                if b
                then create_named
                    ("fake-vol-" ⧺ itoa (suc f.next_id))
                    new
                    (record f { next_id = suc f.next_id })
                else create_named n new f)).0
            ≡ ok got
          → volume_labels
              (injected_or o f (
                if b
                then create_named
                    ("fake-vol-" ⧺ itoa (suc f.next_id))
                    new
                    (record f { next_id = suc f.next_id })
                else create_named n new f)).1
              n
            ≡ some got
      made (some e) b given h = ground (arith, h)
      made none true given h = elim (given refl) [ ]
      made none false given h = existing_or-returns n new got f h

  -- The abstract view of the volumes is what the fake's map holds.
  unfoldable pub Records : VolumesLaws fake_volumes → Type 0
  unfolding fake_volumes
  Records S = (f : FakeClient) (r : Reachable f) (n : String) → S.view (f, r) n ≡ volume_labels f n

  -- If MatchKVList decides the documented meaning of label filters, the fake's volumes, in the states
  -- that its calls reach, keep the contract of a daemon's volumes, of which the abstract view is what
  -- the fake's map holds under each name.
  pub fake_volumes-VolumesLaws :
      ((fs : List LabelFilter) (l : Labels) → (matches fs l ≡ true) ↔ Satisfies l fs)
      → (S : VolumesLaws fake_volumes) × Records S
  unfolding fake_volumes volume_list Records
  fake_volumes-VolumesLaws decides =
      let kept : VolumesLaws fake_volumes = record {
        view = λ w n. volume_labels w.0 n;
        list_keeps = λ fs w j l at. at;
        list_sound = λ fs w rs e.
            let wf : WellFormed w.0 = Reachable-WellFormed w.0 w.1 in
            let same : matching_volumes matches fs w.0.volumes ≡ rs = cc e in
            subst (All (λ (r : Resource). volume_labels w.0 r.id ≡ some r.labels)) same (
              matching-All fs w.0.volumes w.0.volumes wf.volumes_ok.volumes_Keyed
                (entries_Distinct w.0.volumes wf.volumes_ok.volumes_Distinct));
        list_complete = λ fs w rs e j l at s.
            let wf : WellFormed w.0 = Reachable-WellFormed w.0 w.1 in
            let same : matching_volumes matches fs w.0.volumes ≡ rs = cc e in
            subst (Listed j l) same (volume_list-Listed fs w.0 j l wf at ((decides fs l).1 s));
        create_keeps = λ n new w j l at. create-keeps n new w.0 j l at;
        create_returns = λ n new got w given e. create-returns n new got w.0 given e;
      } in
      (kept, λ f r n. refl)
