-- ===== src/Provider/Throttle/Claims.antt =====
-- internal/provider/throttle.go: at most one process wins a round.
use garm_provider_docker.Base.{
  ℕ, ◌+◌, ◌-◌, ◌≤◌, leb, ◌≢◌, ap, eq_iff, has_label, Labels, failed, conflict, forbidden, duplicate,
  instance_not_found, both, String, Bool, true, false, ◌||◌, not, Option, none, some, label, ◌==◌,
  if◌then◌else◌, Result, ok, err, not_found, ◌≡◌, ◌⊎◌, inl, inr, refl, arith,
}
use garm_provider_docker.Spec.Labels.{
  label_created_at, label_managed, label_controller_id, label_role, label_instance_name,
}
use garm_provider_docker.Provider.Throttle.{
  Daemon, Stamp, Verdict, foreign, fresh, expired, unusable, judge, usable_age, verdict_of_age,
  is_own_stamp, create_stamp, replace_stamp, claim_stamp, act, claim_found, is_ok, gone,
}

-- A stamp is replaced, and its round run, only if it is this controller's own, has an id, and its
-- time is not in the future and at least the interval ago.
pub judge-expired :
    (parse : String → Option ℕ) (now : ℕ) (controller_id role : String) (interval : ℕ) (s : Stamp)
    → judge parse now controller_id role interval s ≡ expired
    → (is_own_stamp controller_id s.labels role ≡ true)
      × ((age : ℕ) × (usable_age parse now (label s.labels label_created_at) ≡ some age)
          × (interval ≤ age))
unfolding judge
judge-expired parse now controller_id role interval s h =
    own (is_own_stamp controller_id s.labels role) (s.id == "")
      (usable_age parse now (label s.labels label_created_at)) h
  where
    own :
        (a b : Bool) (o : Option ℕ)
        → (if not a || b then foreign else verdict_of_age o interval) ≡ expired
        → (a ≡ true) × ((age : ℕ) × (o ≡ some age) × (interval ≤ age))
    own false b o h = ground (arith, h)
    own true true o h = ground (arith, h)
    own true false none h = ground (arith, h)
    own true false (some age) h = (refl, (age, refl, ground (arith, h)))

-- This controller's stamp for the role, with no instance's name.
abbrev pub IsOwnStamp : String → String → Labels → Type 0
IsOwnStamp controller_id role l =
    (label l label_managed ≡ "true")
    × (label l label_controller_id ≡ controller_id)
    × (label l label_role ≡ role)
    × (has_label l label_instance_name ≡ false)

is_own_stamp-IsOwnStamp :
    (controller_id role : String) (l : Labels)
    → is_own_stamp controller_id l role ≡ true
    → IsOwnStamp controller_id role l
unfolding is_own_stamp
is_own_stamp-IsOwnStamp controller_id role l h = ground (
  arith,
  h,
  eq_iff (label l label_managed) "true",
  eq_iff (label l label_controller_id) controller_id,
  eq_iff (label l label_role) role,
)

usable_age-since :
    (parse : String → Option ℕ) (now : ℕ) (text : String) (age interval : ℕ)
    → usable_age parse now text ≡ some age
    → interval ≤ age
    → (t : ℕ) × (parse text ≡ some t) × (t + interval ≤ now)
unfolding usable_age
usable_age-since parse now text age interval h le = read (text == "") (parse text) h
  where
    same : (a b : ℕ) → some a ≡ some b → a ≡ b
    same a b e = cc e

    in_past :
        (b : Bool) (t : ℕ)
        → leb t now ≡ b
        → (if b then some (now - t) else none) ≡ some age
        → t + interval ≤ now
    in_past true t e h = let aged : now - t ≡ age = same _ _ h in ground (arith, e, aged, le)
    in_past false t e h = ground (arith, h)

    read :
        (b : Bool) (o : Option ℕ)
        → (if b
            then none
            else elim o [ none ↦ none | some t ↦ if leb t now then some (now - t) else none ])
          ≡ some age
        → (t : ℕ) × (o ≡ some t) × (t + interval ≤ now)
    read true o h = ground (arith, h)
    read false none h = ground (arith, h)
    read false (some t) h = (t, refl, in_past (leb t now) t refl h)

judge-has_id :
    (parse : String → Option ℕ) (now : ℕ) (controller_id role : String) (interval : ℕ) (s : Stamp)
    → judge parse now controller_id role interval s ≡ expired
    → s.id ≢ ""
unfolding judge
judge-has_id parse now controller_id role interval s h e =
    has_id (is_own_stamp controller_id s.labels role)
      (verdict_of_age (usable_age parse now (label s.labels label_created_at)) interval)
      (s.id == "") ((eq_iff s.id "").1 e) h
  where
    has_id :
        (a : Bool) (v : Verdict) (b : Bool)
        → b ≡ true
        → (if not a || b then foreign else v) ≡ expired
        → ⊥
    has_id true v true e h = ground (arith, h)
    has_id true v false e h = ground (arith, e)
    has_id false v b e h = ground (arith, h)

module _ (D : Daemon) (parse : String → Option ℕ) (now : ℕ) (controller_id role : String)
    (interval : ℕ) (name : String) where
  -- The stamp is this controller's own and began its round at a time that the interval has passed
  -- since.
  abbrev pub IsOver : Stamp → Type 0
  IsOver s =
      IsOwnStamp controller_id role s.labels
      × (s.id ≢ "")
      × ((t : ℕ) × (parse (label s.labels label_created_at) ≡ some t) × (t + interval ≤ now))

  -- What the inspection of the name found and left, up to a won round's last state: nothing, and the
  -- creation succeeded; or a stamp that is over, whose removal succeeded or found it gone, and then the
  -- creation succeeded.
  abbrev pub Won : Result Stamp → D.World → D.World → Type 0
  Won found w last =
      ((found ≡ err not_found) × (D.create name w ≡ (ok tt, last)))
      ⊎ ((s : Stamp) × (found ≡ ok s)
          × IsOver s
          × (((D.remove s.id w).0 ≡ ok tt) ⊎ ((D.remove s.id w).0 ≡ err not_found))
          × (D.create name (D.remove s.id w).1 ≡ (ok tt, last)))

  judge-IsOver : (s : Stamp) → judge parse now controller_id role interval s ≡ expired → IsOver s
  judge-IsOver s h =
      let (own, (age, usable, le)) = judge-expired parse now controller_id role interval s h in
      (
        is_own_stamp-IsOwnStamp controller_id role s.labels own,
        judge-has_id parse now controller_id role interval s h,
        usable_age-since parse now (label s.labels label_created_at) age interval usable le,
      )

  is_ok-ok : (r : Result (Unit {0})) → is_ok D r ≡ true → r ≡ ok tt
  is_ok-ok (ok u) h = refl
  is_ok-ok (err e) h = ground (arith, h)

  gone-cases : (r : Result (Unit {0})) → gone D r ≡ true → (r ≡ ok tt) ⊎ (r ≡ err not_found)
  gone-cases (ok u) h = inl refl
  gone-cases (err not_found) h = inr refl
  gone-cases (err failed) h = ground (arith, h)
  gone-cases (err conflict) h = ground (arith, h)
  gone-cases (err forbidden) h = ground (arith, h)
  gone-cases (err duplicate) h = ground (arith, h)
  gone-cases (err instance_not_found) h = ground (arith, h)
  gone-cases (err (both e f)) h = ground (arith, h)

  create_stamp-wins :
      (w : D.World)
      → (create_stamp D name w).0 ≡ true
      → D.create name w ≡ (ok tt, (create_stamp D name w).1)
  unfolding create_stamp
  create_stamp-wins w h = ap (λ r. (r, (D.create name w).1)) (is_ok-ok (D.create name w).0 h)

  replace_stamp-wins :
      (id : String) (w : D.World)
      → (replace_stamp D true name id w).0 ≡ true
      → (((D.remove id w).0 ≡ ok tt) ⊎ ((D.remove id w).0 ≡ err not_found))
        × (D.create name (D.remove id w).1 ≡ (ok tt, (replace_stamp D true name id w).1))
  unfolding replace_stamp
  replace_stamp-wins id w h =
      either (gone D (D.remove id w).0) (create_stamp D name (D.remove id w).1)
        (λ e. gone-cases (D.remove id w).0 e) (λ e. create_stamp-wins (D.remove id w).1 e) h
    where
      -- What replace_stamp returns of the second call.
      of_made : Bool → Bool × D.World → Bool × D.World
      of_made b made = if b then made else (false, (D.remove id w).1)

      either :
          (b : Bool) (made : Bool × D.World)
          → (b ≡ true → ((D.remove id w).0 ≡ ok tt) ⊎ ((D.remove id w).0 ≡ err not_found))
          → (made.0 ≡ true → D.create name (D.remove id w).1 ≡ (ok tt, made.1))
          → (of_made b made).0 ≡ true
          → (((D.remove id w).0 ≡ ok tt) ⊎ ((D.remove id w).0 ≡ err not_found))
            × (D.create name (D.remove id w).1 ≡ (ok tt, (of_made b made).1))
      either true made taken wins h = (taken refl, wins h)
      either false made taken wins h = ground (arith, h)

  replace_stamp-loses : (id : String) (w : D.World) → (replace_stamp D false name id w).0 ≡ false
  unfolding replace_stamp
  replace_stamp-loses id w = ground arith

  act-Won :
      (v : Verdict) (s : Stamp) (w : D.World)
      → (v ≡ expired → IsOver s)
      → (act D v name s.id w).0 ≡ true
      → Won (ok s) w (act D v name s.id w).1
  act-Won foreign s w over h = ground (arith, h)
  act-Won fresh s w over h = ground (arith, h)
  act-Won unusable s w over h = ground (arith, h, replace_stamp-loses s.id w)
  act-Won expired s w over h =
      let (taken, made) = replace_stamp-wins s.id w h in inr (s, refl, over refl, taken, made)

  found-Won :
      (found : Result Stamp) (w : D.World)
      → (claim_found D (judge parse now controller_id role interval) found name w).0 ≡ true
      → Won found w (claim_found D (judge parse now controller_id role interval) found name w).1
  found-Won (ok s) w h =
      act-Won (judge parse now controller_id role interval s) s w (λ e. judge-IsOver s e) h
  found-Won (err not_found) w h = inl (refl, create_stamp-wins w h)
  found-Won (err failed) w h = ground (arith, h)
  found-Won (err conflict) w h = ground (arith, h)
  found-Won (err forbidden) w h = ground (arith, h)
  found-Won (err duplicate) w h = ground (arith, h)
  found-Won (err instance_not_found) w h = ground (arith, h)
  found-Won (err (both e f)) w h = ground (arith, h)

-- A process wins a round only by a creation of the stamp that succeeded and was its last call. In front
-- of it the process inspected the name and found nothing; or it found this controller's own stamp for
-- the role, with an id and a readable time that at least the interval has passed since, and removed it
-- by its id, which succeeded or found it gone.
pub claim_stamp-Won :
    (D : Daemon) (parse : String → Option ℕ) (now : ℕ) (controller_id role : String) (interval : ℕ)
    (name : String) (w : D.World)
    → (claim_stamp D (judge parse now controller_id role interval) name w).0 ≡ true
    → Won D parse now controller_id role interval name
        (D.inspect name w).0
        (D.inspect name w).1
        (claim_stamp D (judge parse now controller_id role interval) name w).1
unfolding claim_stamp
claim_stamp-Won D parse now controller_id role interval name w h =
    found-Won D parse now controller_id role interval name (D.inspect name w).0 _ h
