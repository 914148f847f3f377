-- ===== src/Docker/Fake/Volumes.antt =====
-- internal/docker/fake.go: creating, inspecting, removing and listing volumes.
use garm_provider_docker.Base.{
  suc, String, Bool, false, ◌||◌, Option, none, some, List, [], ◌∷◌, ◌++◌, Labels, lookup, Result,
  ok, err, not_found, conflict, ◌==◌, ◌⧺◌, if◌then◌else◌,
}
use garm_provider_docker.Base.Tables.{assign, erase}
use garm_provider_docker.Base.Texts.{itoa}
use garm_provider_docker.Docker.Filters.{LabelFilter}
use garm_provider_docker.Docker.Client.{Resource}
use garm_provider_docker.Docker.Configs.{MountType, type_bind, type_volume, type_tmpfs, Mount}
use garm_provider_docker.Docker.Fake.{FakeContainer, FakeVolume, FakeClient, injected_or}

-- The volume of the name, or a new one.
abbrev pub existing_or :
    Option FakeVolume → String → Labels → FakeClient → Result FakeVolume × FakeClient
existing_or (some v) name labels f = (ok v, f)
existing_or none name labels f =
    let v : FakeVolume = record { name = name; labels = labels } in
    (ok v, record f { volumes = assign name v f.volumes })

abbrev pub create_named : String → Labels → FakeClient → Result FakeVolume × FakeClient
create_named name labels f = existing_or (lookup name f.volumes) name labels f

unfoldable pub volume_create : String → Labels → FakeClient → Result FakeVolume × FakeClient
volume_create name labels f = injected_or f.injected.volume_create_err f (
    if name == ""
    then create_named ("fake-vol-" ⧺ itoa (suc f.next_id)) labels
        (record f { next_id = suc f.next_id })
    else create_named name labels f)

unfoldable pub volume_inspect : String → FakeClient → Result FakeVolume
volume_inspect name f = elim (lookup name f.volumes) [ none ↦ err not_found | some v ↦ ok v ]

abbrev pub refers : MountType → String → String → Bool
refers type_volume source name = source == name
refers type_bind source name = false
refers type_tmpfs source name = false

abbrev pub mounted : String → List Mount → Bool
mounted name [] = false
mounted name (m ∷ ms) = refers m.kind m.source name || mounted name ms

-- A container, running or not, refers to the volume.
unfoldable pub in_use : String → List (String × FakeContainer) → Bool
in_use name [] = false
in_use name ((k, c) ∷ cs) = mounted name c.mounts || in_use name cs

abbrev pub remove_volume : Option FakeVolume → String → FakeClient → Result (Unit {0}) × FakeClient
remove_volume none name f = (err not_found, f)
remove_volume (some v) name f = if in_use name f.containers then (err conflict, f) else (
  ok tt,
  record f {
    volumes = erase name f.volumes;
    remove_order = f.remove_order ++ ("volume:" ⧺ name) ∷ [];
  },
)

unfoldable pub volume_remove : String → FakeClient → Result (Unit {0}) × FakeClient
volume_remove name f =
    injected_or f.injected.volume_remove_err f (remove_volume (lookup name f.volumes) name f)

module _ (matches : List LabelFilter → Labels → Bool) where
  abbrev pub matching_volumes : List LabelFilter → List (String × FakeVolume) → List Resource
  matching_volumes fs [] = []
  matching_volumes fs ((k, v) ∷ vs) =
      if matches fs v.labels
      then record { id = v.name; labels = v.labels } ∷ matching_volumes fs vs
      else matching_volumes fs vs

  unfoldable pub volume_list : List LabelFilter → FakeClient → List Resource
  volume_list fs f = matching_volumes fs f.volumes
