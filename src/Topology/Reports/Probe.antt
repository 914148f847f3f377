-- ===== src/Topology/Reports/Probe.antt =====
-- internal/topology/dindio_parse.go: the image probe of a sidecar's daemon (parseImageProbe,
-- applyRecord) and the entity of a runner's environment (repoFromEnv).
use garm_provider_docker.Base.{
  ℕ, suc, ◌+◌, ◌*◌, ◌%◌, ◌^◌, String, Bool, true, false, ◌&&◌, not, Option, none, some, List, [],
  ◌∷◌, Labels, label, with_label, contains, Result, ok, err, failed, ◌==◌, ◌⧺◌, ◌≡◌, refl,
  if◌then◌else◌,
}
use garm_provider_docker.Base.Texts.{cut, is_char, parse_uint, split_on, fields, decimal}
use garm_provider_docker.Topology.Reports.IoStat.{each_fields}

pub record ImageProbe : Type 0 where
  pub driver : String
  pub store : String
  pub images : ℕ
  pub image_bytes : ℕ
  pub content_bytes : ℕ
  pub has_content : Bool

-- The probe so far, and the image ids that it has counted.
pub record Probing : Type 0 where
  pub probe : ImageProbe
  pub seen : List String

abbrev number : Option ℕ → Result ℕ
number none = err failed
number (some n) = ok n

-- The second of two fields, and the third of three.
abbrev one_number : List String → Result ℕ
one_number (v ∷ []) = number (parse_uint v)
one_number [] = err failed
one_number (v ∷ w ∷ rest) = err failed

abbrev image_size : List String → Result (String × ℕ)
image_size (id ∷ size ∷ []) = elim (parse_uint size) [ none ↦ err failed | some n ↦ ok (id, n) ]
image_size [] = err failed
image_size (id ∷ []) = err failed
image_size (id ∷ size ∷ w ∷ rest) = err failed

abbrev set_driver : Probing → List String → Result Probing
set_driver p (v ∷ []) = ok (record { probe = record p.probe { driver = v }; seen = p.seen })
set_driver p [] = err failed
set_driver p (v ∷ w ∷ rest) = err failed

abbrev set_store : Probing → List String → Result Probing
set_store p (v ∷ []) = ok (record { probe = record p.probe { store = v }; seen = p.seen })
set_store p [] = err failed
set_store p (v ∷ w ∷ rest) = err failed

abbrev set_content : Probing → Result ℕ → Result Probing
set_content p (err e) = err e
set_content p (ok kib) = ok (record {
  probe = record p.probe { content_bytes = kib * 1024 % 2 ^ 64; has_content = true };
  seen = p.seen;
})

-- An image is counted once.
abbrev count_image : Probing → Result (String × ℕ) → Result Probing
count_image p (err e) = err e
count_image p (ok (id, size)) =
    if contains p.seen id
    then ok p
    else ok (record {
      probe = record p.probe {
        images = suc p.probe.images;
        image_bytes = (p.probe.image_bytes + size) % 2 ^ 64;
      };
      seen = id ∷ p.seen;
    })

unfoldable pub apply_record : Probing → List String → Result Probing
apply_record p [] = ok p
apply_record p (key ∷ rest) =
    if key == "driver"
    then set_driver p rest
    else if key == "store"
    then set_store p rest
    else if key == "content_kib"
    then set_content p (one_number rest)
    else if key == "image"
    then count_image p (image_size rest)
    else ok p

abbrev apply_next : Result Probing → (Probing → Result Probing) → Result Probing
apply_next (err e) next = err e
apply_next (ok p) next = next p

unfoldable pub apply_records : List (List String) → Probing → Result Probing
apply_records [] p = ok p
apply_records (r ∷ rs) p = apply_next (apply_record p r) (λ q. apply_records rs q)

abbrev with_driver : Result Probing → Result ImageProbe
with_driver (err e) = err e
with_driver (ok p) = if p.probe.driver == "" then err failed else ok p.probe

abbrev pub no_probe : Probing
no_probe = record {
  probe = record {
    driver = "";
    store = "";
    images = 0;
    image_bytes = 0;
    content_bytes = 0;
    has_content = false;
  };
  seen = [];
}

unfoldable pub parse_image_probe : String → Result ImageProbe
parse_image_probe out =
    with_driver (apply_records (each_fields (split_on (is_char b'\n') out)) no_probe)

abbrev add_variable : Labels → Option (String × String) → Labels
add_variable vals none = vals
add_variable vals (some (k, v)) = with_label vals k v

abbrev variables : Labels → List String → Labels
variables vals [] = vals
variables vals (kv ∷ kvs) = variables (add_variable vals (cut "=" kv)) kvs

unfoldable pub repo_from_env : List String → String
repo_from_env env =
    let vals = variables [] env in
    let org = label vals "RUNNER_ORG" in
    let repo = label vals "RUNNER_REPO" in
    let enterprise = label vals "RUNNER_ENTERPRISE" in
    if not (org == "") && not (repo == "")
    then org ⧺ "/" ⧺ repo
    else if not (org == "")
    then org
    else if not (enterprise == "")
    then "enterprises/" ⧺ enterprise
    else ""

probe_examples :
    (parse_image_probe "driver overlay2\nstore classic\nimage a 7\nimage a 7\nimage b 2\n"
      ≡ ok (record {
        driver = "overlay2";
        store = "classic";
        images = 2;
        image_bytes = 9;
        content_bytes = 0;
        has_content = false;
      }))
    × (parse_image_probe "store classic" ≡ err failed)
    × (parse_image_probe "driver overlay2\nimage a" ≡ err failed)
    × (repo_from_env ("A=1" ∷ "RUNNER_REPO=r" ∷ "RUNNER_ORG=o" ∷ []) ≡ "o/r")
unfolding parse_image_probe apply_records apply_record repo_from_env with_label split_on fields
    parse_uint cut decimal
probe_examples = (refl, refl, refl, refl)
