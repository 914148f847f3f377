-- ===== src/Provider/Throttle.antt =====
-- internal/provider/throttle.go: the claim of a round of a rate-limited pass by a stamp container
-- (claimRound, claimStamp, createStamp). Times are natural numbers, so a time
-- before now has an age, and a later one has none. Log lines are left out.
pub mod Claims
use garm_provider_docker.Base.{
  ◌||◌, ℕ, ◌-◌, String, Bool, true, false, ◌&&◌, not, Option, none, some, Labels, label, has_label,
  ltb, leb, ◌==◌, if◌then◌else◌, Result, ok, err, Error, failed, not_found, conflict,
}
use garm_provider_docker.Spec.Labels.{
  label_managed, label_controller_id, label_role, label_instance_name, label_created_at,
}

-- A container that ContainerInspect finds by name.
pub record Stamp : Type 0 where
  pub id : String
  pub labels : Labels

-- The daemon calls that a claim makes. `create` is ContainerCreate of the stamp with its name and
-- labels; a name in use is a conflict.
pub record Daemon : Type 1 where
  pub World : Type 0
  pub image_inspect : World → Result (Unit {0}) × World
  pub inspect : String → World → Result Stamp × World
  pub remove : String → World → Result (Unit {0}) × World
  pub create : String → World → Result (Unit {0}) × World

unfoldable pub is_own_stamp : String → Labels → String → Bool
is_own_stamp controller_id labels role =
    label labels label_managed == "true"
    && label labels label_controller_id == controller_id
    && label labels label_role == role
    && not (has_label labels label_instance_name)

-- What helperAge says of a stamp at a time: no usable age (unknown, or in the future), or one.
unfoldable pub usable_age : (String → Option ℕ) → ℕ → String → Option ℕ
usable_age parse now created_at = if created_at == "" then none else elim (parse created_at) [
  | none ↦ none
  | some t ↦ if leb t now then some (now - t) else none
]

-- What becomes of a stamp that is there.
pub data Verdict : Type 0 where
  foreign fresh expired unusable : Verdict

abbrev pub verdict_of_age : Option ℕ → ℕ → Verdict
verdict_of_age none interval = unusable
verdict_of_age (some age) interval = if ltb age interval then fresh else expired

unfoldable pub judge : (String → Option ℕ) → ℕ → String → String → ℕ → Stamp → Verdict
judge parse now controller_id role interval s =
    if not (is_own_stamp controller_id s.labels role) || s.id == ""
    then foreign
    else verdict_of_age (usable_age parse now (label s.labels label_created_at)) interval

module _ (D : Daemon) where
  abbrev pub is_ok : Result (Unit {0}) → Bool
  is_ok (ok u) = true
  is_ok (err e) = false

  unfoldable pub create_stamp : String → D.World → Bool × D.World
  create_stamp name w = let (made, w1) = D.create name w in (is_ok made, w1)

  -- `err != nil && !errdefs.IsNotFound(err)` after a removal gives up.
  abbrev pub gone : Result (Unit {0}) → Bool
  gone (ok u) = true
  gone (err not_found) = true
  gone (err e) = false

  -- Replace a stamp; `runs` says whether the pass runs if this process made the new one.
  unfoldable pub replace_stamp : Bool → String → String → D.World → Bool × D.World
  replace_stamp runs name id w =
      let (taken, w1) = D.remove id w in
      let (made, w2) = create_stamp name w1 in
      if gone taken then (runs && made, w2) else (false, w1)

  abbrev pub act : Verdict → String → String → D.World → Bool × D.World
  act foreign name id w = (false, w)
  act fresh name id w = (false, w)
  act expired name id w = replace_stamp true name id w
  act unusable name id w = replace_stamp false name id w

  abbrev pub claim_found : (Stamp → Verdict) → Result Stamp → String → D.World → Bool × D.World
  claim_found verdict (err not_found) name w = create_stamp name w
  claim_found verdict (err e) name w = (false, w)
  claim_found verdict (ok s) name w = act (verdict s) name s.id w

  unfoldable pub claim_stamp : (Stamp → Verdict) → String → D.World → Bool × D.World
  claim_stamp verdict name w =
      let (found, w1) = D.inspect name w in claim_found verdict found name w1

  abbrev pub claim_image : Result (Unit {0}) → Bool × D.World → D.World → Bool × D.World
  claim_image (err not_found) claim w = (true, w)
  claim_image (err e) claim w = (false, w)
  claim_image (ok u) claim w = claim

  unfoldable pub claim_round : (Stamp → Verdict) → String → D.World → Bool × D.World
  claim_round verdict name w =
      let (image, w1) = D.image_inspect w in claim_image image (claim_stamp verdict name w1) w1
