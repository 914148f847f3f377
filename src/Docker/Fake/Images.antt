-- ===== src/Docker/Fake/Images.antt =====
-- internal/docker/fake.go: pulling and inspecting images. `sha256_hex` stands for SHA-256 in
-- hexadecimal.
use garm_provider_docker.Base.{
  String, Option, none, some, [], ◌∷◌, ◌++◌, Labels, lookup, contains, Result, ok, err, Error,
  not_found, ◌⧺◌, if◌then◌else◌,
}
use garm_provider_docker.Docker.Fake.{FakeClient}

abbrev pub pull_or : Option Error → String → FakeClient → Result (Unit {0}) × FakeClient
pull_or (some e) ref f = (err e, f)
pull_or none ref f = (ok tt, record f { present_images = ref ∷ f.present_images })

unfoldable pub image_pull : String → FakeClient → Result (Unit {0}) × FakeClient
image_pull ref f =
    pull_or f.injected.pull_err ref (record f { pulled_images = f.pulled_images ++ ref ∷ [] })

-- An image's id, and its config's labels where it has some.
pub record ImageInspect : Type 0 where
  pub id : String
  pub labels : Option Labels

module _ (sha256_hex : String → String) where
  unfoldable pub fake_image_id : String → String
  fake_image_id ref = "sha256:" ⧺ sha256_hex ref

  unfoldable pub image_inspect_with_raw : String → FakeClient → Result ImageInspect
  image_inspect_with_raw ref f =
      if contains f.present_images ref
      then ok (record { id = fake_image_id ref; labels = lookup ref f.image_labels })
      else err not_found
