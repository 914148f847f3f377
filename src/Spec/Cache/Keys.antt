-- ===== src/Spec/Cache/Keys.antt =====
-- internal/spec/cache.go: the cache key of a repository URL.
use Prim.Native.String.{slice}
use garm_provider_docker.Base.{
  ℕ, String, len, Char, code, Bool, true, false, ◌||◌, none, some, ◌≡◌, refl, ◌==◌, if◌then◌else◌,
  leb, ◌⧺◌,
}
use garm_provider_docker.Base.Texts.{
  itoa, between, is_char, to_lower, trim_space, trim_right, trim_left, trim_suffix, cut,
}

abbrev pub repo_key_hash_len : ℕ
repo_key_hash_len = 32

abbrev pub repo_slug_max_len : ℕ
repo_slug_max_len = 40

-- `s[i+3:]` past the first "://", or all of it.
abbrev after_first : String → String → String
after_first sep s = elim (cut sep s) [ none ↦ s | some (before, after) ↦ after ]

unfoldable pub normalize_repo_url : String → String
unfolding to_lower trim_space trim_right trim_suffix cut
normalize_repo_url repo_url =
    let s = after_first "://" (to_lower (trim_space repo_url)) in
    trim_right (is_char b'/') (trim_suffix (trim_right (is_char b'/') s) ".git")

abbrev pub is_slug_char : Char → Bool
is_slug_char c = between b'a' b'z' (code c) || between b'0' b'9' (code c)

-- The loop of slugify, with the flag `prevDash`.
unfoldable pub collapse : Bool → String → String
collapse prev_dash String.[] = String.[]
collapse prev_dash (String.◌∷◌ c s) =
    let kept = String.◌∷◌ c (collapse false s) in
    let skipped = collapse true s in
    if is_slug_char c then kept else if prev_dash then skipped else "-" ⧺ skipped

abbrev pub trim_dashes : String → String
trim_dashes s = trim_right (is_char b'-') (trim_left (is_char b'-') s)

-- Every character of the collapsed text is ASCII, so a cut at a byte cuts no character.
unfoldable pub slugify : String → String
unfolding collapse trim_left trim_right
slugify s =
    let out = trim_dashes (collapse false s) in
    if leb (len out) repo_slug_max_len then out else trim_dashes (slice out 0 repo_slug_max_len)

unfoldable pub repo_slug : String → String
unfolding slugify cut
repo_slug norm = slugify (after_first "/" norm)

module _ (sha256_hex : String → String) where
  unfoldable pub repo_key : String → String
  unfolding normalize_repo_url repo_slug
  repo_key repo_url =
      let norm = normalize_repo_url repo_url in
      let hash = slice (sha256_hex norm) 0 repo_key_hash_len in
      let slug = repo_slug norm in if slug == "" then hash else slug ⧺ "-" ⧺ hash

  unfoldable pub repo_url_digest : String → String
  unfolding normalize_repo_url
  repo_url_digest repo_url = sha256_hex (normalize_repo_url repo_url)

abbrev pub cache_reconcile_suffix_len : ℕ
cache_reconcile_suffix_len = 8

module _ (sha256_hex : String → String) where
  -- The name to try when the preferred one is occupied; attempts count from 1.
  unfoldable pub alternate_cache_volume_name : String → ℕ → String
  alternate_cache_volume_name preferred attempt =
      preferred
      ⧺ "-x"
      ⧺ slice (sha256_hex (preferred ⧺ ":" ⧺ itoa attempt)) 0 cache_reconcile_suffix_len

normalize_example :
    normalize_repo_url " HTTPS://GitHub.com/Acme/My_Repo.git/ " ≡ "github.com/acme/my_repo"
unfolding normalize_repo_url
normalize_example = refl

repo_slug_example : repo_slug "github.com/acme/my__repo." ≡ "acme-my-repo"
unfolding repo_slug
repo_slug_example = refl
