-- ===== src/Docker/Client.antt =====
-- internal/docker/client.go: the daemon operations that the teardowns use, and what the daemon's
-- documentation promises of them. Contexts and options that the provider sets to constants are left
-- out; a volume's id is its name.
use garm_provider_docker.Base.{
  String, Bool, true, false, Option, none, some, List, [], ◌∷◌, Labels, label, Result, ok, err,
  not_found, All, ◌≡◌, ◌≢◌, ◌⊎◌, inl, inr, subst, Bool-cases,
}
use garm_provider_docker.Base.Texts.{has_prefix}
use garm_provider_docker.Docker.Filters.{LabelFilter, Satisfies}

pub data Kind : Type 0 where
  container network volume : Kind

-- An entry of a list call.
pub record Resource : Type 0 where
  pub id : String
  pub labels : Labels

-- The state of the daemon and of everyone else who uses it is a value that each call passes on.
-- `remove_with_volumes` is ContainerRemove with RemoveVolumes, and `remove` of a container the one
-- without.
pub record Client : Type 1 where
  pub World : Type 0
  pub list : Kind → List LabelFilter → World → Result (List Resource) × World
  pub remove : Kind → String → World → Result (Unit {0}) × World
  pub remove_with_volumes : String → World → Result (Unit {0}) × World
  pub stop : String → World → Result (Unit {0}) × World

-- An entry with this id and these labels is in the list.
abbrev pub Listed : String → Labels → List Resource → Type 0
Listed j l [] = ⊥
Listed j l (r ∷ rs) = ((r.id ≡ j) × (r.labels ≡ l)) ⊎ Listed j l rs

-- What the provider relies on. `view` shows the labels of a resource that exists. Only removal takes a
-- resource away: the one with the id that it is given, and, of a container with its volumes, volumes
-- that nobody named. `is_id` holds of the ids that lists return, which are random and so no names of
-- other resources; a volume's is its name. `anonymous` holds of the random names that the daemon gives
-- to volumes that a container declares without a name; it puts at most labels of its own on those.
-- Others may create resources at any call.
pub record ClientLaws (C : Client) : Type 0 where
  pub view : C.World → Kind → String → Option Labels
  pub is_id : Kind → String → Bool
  pub anonymous : String → Bool
  pub list_keeps :
      (K : Kind) (fs : List LabelFilter) (w : C.World) (J : Kind) (j : String) (l : Labels)
      → view w J j ≡ some l
      → view (C.list K fs w).1 J j ≡ some l
  pub list_sound :
      (K : Kind) (fs : List LabelFilter) (w : C.World) (rs : List Resource)
      → (C.list K fs w).0 ≡ ok rs
      → All (λ r. (view (C.list K fs w).1 K r.id ≡ some r.labels) × Satisfies r.labels fs) rs
  pub list_ids :
      (K : Kind) (fs : List LabelFilter) (w : C.World) (rs : List Resource)
      → (C.list K fs w).0 ≡ ok rs
      → All (λ (r : Resource). is_id K r.id ≡ true) rs
  pub anonymous_bare :
      (w : C.World) (j : String) (l : Labels)
      → view w volume j ≡ some l
      → anonymous j ≡ true
      → (k : String) → has_prefix k "com.docker." ≡ false
      → label l k ≡ ""
  pub list_complete :
      (K : Kind) (fs : List LabelFilter) (w : C.World) (rs : List Resource)
      → (C.list K fs w).0 ≡ ok rs
      → (j : String) (l : Labels) → view w K j ≡ some l
      → Satisfies l fs
      → Listed j l rs
  pub stop_keeps :
      (i : String) (w : C.World) (J : Kind) (j : String) (l : Labels)
      → view w J j ≡ some l
      → view (C.stop i w).1 J j ≡ some l
  pub remove_keeps :
      (K : Kind) (i : String) (w : C.World) (J : Kind) (j : String) (l : Labels)
      → is_id K i ≡ true
      → view w J j ≡ some l
      → ¬ ((K ≡ J) × (i ≡ j))
      → view (C.remove K i w).1 J j ≡ some l
  pub remove_gone :
      (K : Kind) (i : String) (w : C.World)
      → ((C.remove K i w).0 ≡ ok tt) ⊎ ((C.remove K i w).0 ≡ err not_found)
      → view (C.remove K i w).1 K i ≡ none
  pub remove_with_volumes_keeps :
      (i : String) (w : C.World) (J : Kind) (j : String) (l : Labels)
      → is_id container i ≡ true
      → (J ≡ volume → anonymous j ≡ false)
      → view w J j ≡ some l
      → ¬ ((container ≡ J) × (i ≡ j))
      → view (C.remove_with_volumes i w).1 J j ≡ some l
  pub remove_with_volumes_gone :
      (i : String) (w : C.World)
      → ((C.remove_with_volumes i w).0 ≡ ok tt) ⊎ ((C.remove_with_volumes i w).0 ≡ err not_found)
      → view (C.remove_with_volumes i w).1 container i ≡ none

-- Not a volume that nobody named.
abbrev pub IsNamed : {C : Client} → ClientLaws C → Kind → String → Type 0
IsNamed {C} L J j = J ≡ volume → L.anonymous j ≡ false

-- A volume with a label of the provider's was named.
pub labelled-IsNamed :
    (C : Client) (L : ClientLaws C) (w : C.World) (J : Kind) (j k : String) (l : Labels)
    → L.view w J j ≡ some l
    → has_prefix k "com.docker." ≡ false
    → label l k ≢ ""
    → IsNamed L J j
labelled-IsNamed C L w J j k l at plain named same = elim (Bool-cases (L.anonymous j)) [
  | inl random ↦
      elim (named
        (L.anonymous_bare w j l (subst (λ K. L.view w K j ≡ some l) same at) random k plain)) [ ]
  | inr given ↦ given
]

-- Nobody else creates resources while the provider runs.
pub record Undisturbed (C : Client) (L : ClientLaws C) : Type 0 where
  pub list_quiet :
      (K : Kind) (fs : List LabelFilter) (w : C.World) (J : Kind) (j : String)
      → L.view w J j ≡ none
      → L.view (C.list K fs w).1 J j ≡ none
  pub stop_quiet :
      (i : String) (w : C.World) (J : Kind) (j : String)
      → L.view w J j ≡ none
      → L.view (C.stop i w).1 J j ≡ none
  pub remove_quiet :
      (K : Kind) (i : String) (w : C.World) (J : Kind) (j : String)
      → L.view w J j ≡ none
      → L.view (C.remove K i w).1 J j ≡ none
  pub remove_with_volumes_quiet :
      (i : String) (w : C.World) (J : Kind) (j : String)
      → L.view w J j ≡ none
      → L.view (C.remove_with_volumes i w).1 J j ≡ none
