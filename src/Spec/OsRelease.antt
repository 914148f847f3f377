-- ===== src/Spec/OsRelease.antt =====
-- internal/spec/osrelease.go: the key that names a runner image's caches.
use Prim.Native.String.{slice}
use garm_provider_docker.Base.{
  ℕ, String, Char, code, len, Bool, true, false, ◌&&◌, ◌||◌, not, Option, none, some, Labels,
  lookup, has_label, is_some, ltb, leb, eqb, ◌⧺◌, if◌then◌else◌, Result, ok, err, failed, ◌≡◌, refl,
  arith, subst,
}
use garm_provider_docker.Base.Texts.{between, is_digit, all_chars, has_prefix, cut}
use garm_provider_docker.Base.Texts.Laws.{has_prefix_append}
use garm_provider_docker.Spec.Labels.{label_os_release}

abbrev pub image_os_key_prefix : String
image_os_key_prefix = "image-"

abbrev pub image_os_key_hash_len : ℕ
image_os_key_hash_len = 32

abbrev pub is_release_start : Char → Bool
is_release_start c = between b'a' b'z' (code c) || is_digit c

abbrev pub is_release_char : Char → Bool
is_release_char c =
    is_release_start c || eqb (code c) b'.' || eqb (code c) b'_' || eqb (code c) b'-'

-- ^[a-z0-9][a-z0-9._-]{0,63}$
unfoldable pub os_release_pattern : String → Bool
os_release_pattern String.[] = false
os_release_pattern (String.◌∷◌ c s) =
    is_release_start c && all_chars is_release_char s && leb (len s) 63

unfoldable pub is_lower_hex : String → Bool
unfolding all_chars
is_lower_hex s = all_chars (λ c. between b'0' b'9' (code c) || between b'a' b'f' (code c)) s

abbrev pub hex_id : String → String
hex_id image_id = elim (cut ":" image_id) [ none ↦ image_id | some (before, after) ↦ after ]

abbrev pub labelled_key : String → Result String
labelled_key v =
    if not (os_release_pattern v) || has_prefix v image_os_key_prefix then err failed else ok v

abbrev pub derived_key : String → Result String
derived_key id =
    if ltb (len id) image_os_key_hash_len || not (is_lower_hex id)
    then err failed
    else ok (image_os_key_prefix ⧺ slice id 0 image_os_key_hash_len)

abbrev pub os_key : Option String → String → Result String
os_key (some v) image_id = labelled_key v
os_key none image_id = derived_key (hex_id image_id)

unfoldable pub runner_os_key : Labels → String → Result String
runner_os_key image_labels image_id = os_key (lookup label_os_release image_labels) image_id

passed : (b : Bool) (s k : String) → (if b then err failed else ok s) ≡ ok k → (b ≡ false) × (s ≡ k)
passed true s k h = ground arith
passed false s k h = (refl, cc h)

-- A key has the prefix "image-" exactly when it was derived from the image's content and not read
-- from its label, so a labelled key and a derived key are never equal.
pub runner_os_key-has_prefix :
    (image_labels : Labels) (image_id key : String)
    → runner_os_key image_labels image_id ≡ ok key
    → has_prefix key image_os_key_prefix ≡ not (has_label image_labels label_os_release)
unfolding runner_os_key
runner_os_key-has_prefix image_labels image_id key h =
    of_label (lookup label_os_release image_labels) h
  where
    of_label :
        (o : Option String)
        → os_key o image_id ≡ ok key
        → has_prefix key image_os_key_prefix ≡ not (is_some o)
    of_label none h =
        let (g, e) =
          passed _ (image_os_key_prefix ⧺ slice (hex_id image_id) 0 image_os_key_hash_len) key h in
        subst (λ x. has_prefix x image_os_key_prefix ≡ true) e
          (has_prefix_append image_os_key_prefix _)
    of_label (some v) h =
        let (g, e) =
          passed (not (os_release_pattern v) || has_prefix v image_os_key_prefix) v key h in
        subst (λ x. has_prefix x image_os_key_prefix ≡ false) e (ground (arith, g))
