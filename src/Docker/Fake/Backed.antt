-- ===== src/Docker/Fake/Backed.antt =====
-- internal/docker/fake.go: each named volume that a container mounts is there, from the container's
-- creation on.
use garm_provider_docker.Base.{
  String, Bool, true, false, ◌&&◌, not, Option, none, some, List, [], ◌∷◌, lookup, is_some, All,
  ◌≡◌, refl, subst, arith, eq_iff, ◌==◌, Bool-cases, inl, inr, if◌then◌else◌,
}
use garm_provider_docker.Base.Tables.{assign, erase, lookup-assign, lookup-erase}
use garm_provider_docker.Docker.Configs.{MountType, type_bind, type_volume, type_tmpfs, Mount}
use garm_provider_docker.Docker.Fake.{FakeContainer, FakeVolume}
use garm_provider_docker.Docker.Fake.Containers.{create_missing, names_volume}
use garm_provider_docker.Docker.Fake.Volumes.{in_use, mounted, refers}

abbrev pub Present : List (String × FakeVolume) → Mount → Type 0
Present vs m = names_volume m.kind m.source ≡ true → is_some (lookup m.source vs) ≡ true

abbrev pub Backed : List (String × FakeVolume) → List (String × FakeContainer) → Type 0
Backed vs cs = (k : String) (c : FakeContainer) → lookup k cs ≡ some c → All (Present vs) c.mounts

-- The second map has each volume of the first.
abbrev pub Grows : List (String × FakeVolume) → List (String × FakeVolume) → Type 0
Grows vs us = (n : String) → is_some (lookup n vs) ≡ true → is_some (lookup n us) ≡ true

pub Present-Grows :
    (vs us : List (String × FakeVolume)) (ms : List Mount)
    → Grows vs us
    → All (Present vs) ms
    → All (Present us) ms
Present-Grows vs us [] grows h = tt
Present-Grows vs us (m ∷ ms) grows (p, h) =
    ((λ named. grows m.source (p named)), Present-Grows vs us ms grows h)

pub assign-Grows :
    (vs : List (String × FakeVolume)) (k : String) (v : FakeVolume) → Grows vs (assign k v vs)
assign-Grows vs k v n h = ground (arith, lookup-assign vs k v n, h)

pub create_missing-Grows :
    (ms : List Mount) (vs : List (String × FakeVolume)) → Grows vs (create_missing ms vs)
unfolding create_missing
create_missing-Grows [] vs n h = h
create_missing-Grows (m ∷ ms) vs n h =
    create_missing-Grows ms _ n
      (grown (names_volume m.kind m.source && not (is_some (lookup m.source vs))))
  where
    grown :
        (b : Bool)
        → is_some (
            lookup n
              (if b then assign m.source (record { name = m.source; labels = [] }) vs else vs))
          ≡ true
    grown true = assign-Grows vs m.source _ n h
    grown false = h

pub create_missing-Present :
    (ms : List Mount) (vs : List (String × FakeVolume)) → All (Present (create_missing ms vs)) ms
unfolding create_missing
create_missing-Present [] vs = tt
create_missing-Present (m ∷ ms) vs = (
  λ named. create_missing-Grows ms _ m.source (made (lookup m.source vs) refl named),
  create_missing-Present ms _,
)
  where
    made :
        (o : Option FakeVolume)
        → lookup m.source vs ≡ o
        → names_volume m.kind m.source ≡ true
        → is_some (
            lookup m.source (
              if names_volume m.kind m.source && not (is_some (lookup m.source vs))
              then assign m.source (record { name = m.source; labels = [] }) vs
              else vs))
          ≡ true
    made none at named =
        rw (named, at)
          (ground (
            arith,
            lookup-assign vs m.source (record { name = m.source; labels = [] }) m.source,
            eq_iff m.source m.source,
          ))
    made (some v) at named = rw (named, at) (ground (arith, at))

pub assign-Backed :
    (vs : List (String × FakeVolume)) (cs : List (String × FakeContainer)) (k : String)
    (c : FakeContainer)
    → Backed vs cs
    → All (Present vs) c.mounts
    → Backed vs (assign k c cs)
assign-Backed vs cs k c backed here j d at = elim (Bool-cases (k == j)) [
  | inl same ↦
      let new : some c ≡ some d = ground (arith, at, lookup-assign cs k c j, same) in
      let e : c ≡ d = cc new in subst (λ (x : FakeContainer). All (Present vs) x.mounts) e here
  | inr other ↦ backed j d (ground (arith, at, lookup-assign cs k c j, other))
]

pub erase-Backed :
    (vs : List (String × FakeVolume)) (cs : List (String × FakeContainer)) (k : String)
    → Backed vs cs
    → Backed vs (erase k cs)
erase-Backed vs cs k backed j d at = backed j d (ground (arith, at, lookup-erase cs k j))

pub Backed-Grows :
    (vs us : List (String × FakeVolume)) (cs : List (String × FakeContainer))
    → Grows vs us
    → Backed vs cs
    → Backed us cs
Backed-Grows vs us cs grows backed k c at = Present-Grows vs us c.mounts grows (backed k c at)

-- A volume that no container refers to is not mounted by any.
pub in_use-false :
    (name : String) (cs : List (String × FakeContainer)) (k : String) (c : FakeContainer)
    → in_use name cs ≡ false
    → lookup k cs ≡ some c
    → mounted name c.mounts ≡ false
unfolding in_use
in_use-false name [] k c free at = ground (arith, at)
in_use-false name ((j, d) ∷ cs) k c free at = elim (Bool-cases (j == k)) [
  | inl here ↦
      let first : some d ≡ some c = ground (arith, at, here) in
      let same : d ≡ c = cc first in
      subst (λ (x : FakeContainer). mounted name x.mounts ≡ false) same (ground (arith, free))
  | inr later ↦ in_use-false name cs k c (ground (arith, free)) (ground (arith, at, later))
]

pub unmounted-Present :
    (vs : List (String × FakeVolume)) (name : String) (ms : List Mount)
    → mounted name ms ≡ false
    → All (Present vs) ms
    → All (Present (erase name vs)) ms
unmounted-Present vs name [] free h = tt
unmounted-Present vs name (m ∷ ms) free (p, h) =
    (apart m.kind (ground (arith, free)) p, unmounted-Present vs name ms (ground (arith, free)) h)
  where
    apart :
        (kind : MountType)
        → refers kind m.source name ≡ false
        → (names_volume kind m.source ≡ true → is_some (lookup m.source vs) ≡ true)
        → names_volume kind m.source ≡ true
        → is_some (lookup m.source (erase name vs)) ≡ true
    apart type_volume other p named = ground (
      arith,
      p named,
      lookup-erase vs name m.source,
      eq_iff m.source name,
      eq_iff name m.source,
      other,
    )
    apart type_bind other p named = ground (arith, named)
    apart type_tmpfs other p named = ground (arith, named)
