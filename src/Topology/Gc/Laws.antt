-- ===== src/Topology/Gc/Laws.antt =====
-- internal/topology/gc.go: what the garbage collection may report.
use garm_provider_docker.Base.{
  String, Bool, true, false, List, [], ◌∷◌, Option, none, some, Labels, label, Result, ok, err, All,
  ◌≡◌, inl, inr, refl, arith, eq_iff,
}
use garm_provider_docker.Docker.Client.{Resource, Listed}
use garm_provider_docker.Spec.Labels.{label_controller_id}
use garm_provider_docker.Spec.Cache.Adoption.{validate_cache_volume_kind}
use garm_provider_docker.Topology.Gc.{
  StaleCache, list_stale_caches, add_stale, is_own_cache, passes,
}

passes-ok : (r : Result (Unit {0})) → passes r ≡ true → r ≡ ok tt
passes-ok (ok u) h = refl
passes-ok (err e) h = ground arith

-- A listed volume of this controller that carries its kind's full identity.
abbrev pub OwnCache : String → String → Labels → List Resource → Type 0
OwnCache controller_id name l vs =
    Listed name l vs
    × (label l label_controller_id ≡ controller_id)
    × (validate_cache_volume_kind l ≡ ok tt)

abbrev pub StaleFor : String → (Labels → Option String) → List Resource → StaleCache → Type 0
StaleFor controller_id decide vs s =
    (l : Labels) × OwnCache controller_id s.name l vs × (decide l ≡ some s.reason)

weaken_entries {ℓ κ ι} :
    {A : Type ℓ} (P : A → Type κ) (Q : A → Type ι) (xs : List A)
    → ((x : A) → P x → Q x)
    → All P xs
    → All Q xs
weaken_entries P Q [] f ps = tt
weaken_entries P Q (x ∷ xs) f (p, ps) = (f x p, weaken_entries P Q xs f ps)

-- Each cache that the garbage collection reports as stale is a listed volume of this controller,
-- with the full identity of its kind, that the policy flags for the reported reason.
pub list_stale_caches-StaleFor :
    (controller_id : String) (decide : Labels → Option String) (vs : List Resource)
    → All (StaleFor controller_id decide vs) (list_stale_caches controller_id decide vs)
unfolding list_stale_caches
list_stale_caches-StaleFor controller_id decide [] = tt
list_stale_caches-StaleFor controller_id decide (v ∷ vs) =
    added (is_own_cache controller_id v.labels) (decide v.labels)
      (λ h. (
        inl (refl, refl),
        ground (arith, h, eq_iff (label v.labels label_controller_id) controller_id),
        passes-ok (validate_cache_volume_kind v.labels) (ground (arith, h)),
      ))
      (λ reason e. e)
      (weaken_entries (StaleFor controller_id decide vs) (StaleFor controller_id decide (v ∷ vs)) _
        (λ s (l, (at, c, k), d). (l, (inr at, c, k), d))
        (list_stale_caches-StaleFor controller_id decide vs))
  where
    added :
        (own : Bool) (verdict : Option String)
        → (own ≡ true → OwnCache controller_id v.id v.labels (v ∷ vs))
        → ((reason : String) → verdict ≡ some reason → decide v.labels ≡ some reason)
        → All (StaleFor controller_id decide (v ∷ vs)) (list_stale_caches controller_id decide vs)
        → All
            (StaleFor controller_id decide (v ∷ vs))
            (add_stale own verdict v.id (list_stale_caches controller_id decide vs))
    added true (some reason) own flagged rest = ((v.labels, own refl, flagged reason refl), rest)
    added true none own flagged rest = rest
    added false verdict own flagged rest = rest
