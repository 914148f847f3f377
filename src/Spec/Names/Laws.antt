-- ===== src/Spec/Names/Laws.antt =====
-- Which derived names coincide, and when an allocation's names are accepted.
use text.Mathlib.TextLemmas.{append_cancel_left, append_cancel_right}
use garm_provider_docker.Base.{
  ℕ, String, len, Char, code, Bool, true, false, not, leb, ◌==◌, ◌⊎◌, require, ◌>>◌, subst, sym,
  eq_iff, List, [], ◌∷◌, ◌≡◌, ◌↔◌, ◌≢◌, refl, ap, arith, All, ◌⧺◌, ok, Error, ◌≤◌, join, returned,
}
use garm_provider_docker.Base.Texts.{to_lower, all_chars}
use garm_provider_docker.Spec.Names.{
  runner_container_name, dind_container_name, is_name_char, docker_name_max_length,
  job_network_name, workspace_volume_name, socket_volume_name, dind_state_volume_name,
  validate_derived_name, validate_allocation_names, allocation_names, name_errors,
  docker_name_pattern,
}

-- Two instances have one name of the claim network exactly when they have one name of the runner
-- container, which is the instance's name in lower case.
pub job_network_name_iff :
    (i j : String)
    → (job_network_name i ≡ job_network_name j)
      ↔ (runner_container_name i ≡ runner_container_name j)
unfolding job_network_name
job_network_name_iff i j =
    (λ h. append_cancel_right (to_lower i) (to_lower j) "-net" h, λ h. ap (λ n. n ⧺ "-net") h)

-- The volumes of two generations of an instance have different names, and so have the three volumes of
-- one generation.
pub volume_names_differ :
    (instance n m : String)
    → n ≢ m
    → (workspace_volume_name instance n ≢ workspace_volume_name instance m)
      × (socket_volume_name instance n ≢ socket_volume_name instance m)
      × (dind_state_volume_name instance n ≢ dind_state_volume_name instance m)
unfolding workspace_volume_name socket_volume_name dind_state_volume_name
volume_names_differ instance n m differ = (
  λ h. differ (same_nonce "workspace" h),
  λ h. differ (same_nonce "socket" h),
  λ h. differ (same_nonce "dind-state" h),
)
  where
    same_nonce :
        (suffix : String)
        → to_lower instance ⧺ "-" ⧺ n ⧺ "-" ⧺ suffix ≡ to_lower instance ⧺ "-" ⧺ m ⧺ "-" ⧺ suffix
        → n ≡ m
    same_nonce suffix h =
        let past_dash = append_cancel_left (to_lower instance) _ _ h in
        let tail = append_cancel_left "-" (n ⧺ "-" ⧺ suffix) (m ⧺ "-" ⧺ suffix) past_dash in
        append_cancel_right n m ("-" ⧺ suffix) tail

-- The grammar of Docker's names: a letter or digit, and then at least one letter, digit, `_`, `.` or
-- `-`, in ASCII.
abbrev pub IsAlphanumeric : Char → Type 0
IsAlphanumeric c =
    ((97 ≤ code c) × (code c ≤ 122))
    ⊎ ((65 ≤ code c) × (code c ≤ 90))
    ⊎ ((48 ≤ code c) × (code c ≤ 57))

abbrev pub IsNameChar : Char → Type 0
IsNameChar c = IsAlphanumeric c ⊎ (code c ≡ 95) ⊎ (code c ≡ 46) ⊎ (code c ≡ 45)

abbrev pub NameChars : String → Type 0
NameChars String.[] = Unit
NameChars (String.◌∷◌ c s) = IsNameChar c × NameChars s

abbrev pub InGrammar : String → Type 0
InGrammar String.[] = ⊥
InGrammar (String.◌∷◌ c s) = IsAlphanumeric c × (s ≢ "") × NameChars s

-- A name within the length limit and the grammar of Docker's names.
abbrev pub IsDerivable : String → Type 0
IsDerivable name = (len name ≤ 255) × InGrammar name

is_name_char-IsNameChar : (c : Char) → (is_name_char c ≡ true) ↔ IsNameChar c
is_name_char-IsNameChar c = ground arith

all_chars-NameChars : (s : String) → (all_chars is_name_char s ≡ true) ↔ NameChars s
unfolding all_chars
all_chars-NameChars String.[] = (λ _. tt, λ _. refl)
all_chars-NameChars (String.◌∷◌ c s) =
    ground (arith, is_name_char-IsNameChar c, all_chars-NameChars s)

docker_name_pattern_iff : (s : String) → (docker_name_pattern s ≡ true) ↔ InGrammar s
unfolding docker_name_pattern
docker_name_pattern_iff String.[] = ground arith
docker_name_pattern_iff (String.◌∷◌ c s) = ground (arith, all_chars-NameChars s, eq_iff s "")

no_pattern : docker_name_pattern "" ≡ false
unfolding docker_name_pattern
no_pattern = refl

validate_derived_name_iff :
    (name : String) → (validate_derived_name name ≡ ok tt) ↔ IsDerivable name
unfolding validate_derived_name
validate_derived_name_iff name =
    let grammar = docker_name_pattern_iff name in
    let checks = fits (len name) (docker_name_pattern name) (name == "") (λ e. empty name e) in
    (λ h. let (a, b) = checks.0 h in (a, grammar.0 b), λ h. checks.1 (h.0, grammar.1 h.1))
  where
    empty : (name : String) → (name == "") ≡ true → docker_name_pattern name ≡ false
    empty name e =
        subst (λ n. docker_name_pattern n ≡ false) (sym ((eq_iff name "").0 e)) no_pattern

    fits :
        (n : ℕ) (pattern none : Bool)
        → (none ≡ true → pattern ≡ false)
        → ((require (not none) >> (require (leb n docker_name_max_length) >> require pattern))
            ≡ ok tt)
          ↔ ((n ≤ 255) × (pattern ≡ true))
    fits n pattern none h = ground (arith, h)

name_errors_iff : (names : List String) → (name_errors names ≡ []) ↔ All IsDerivable names
unfolding name_errors
name_errors_iff [] = (λ _. tt, λ _. refl)
name_errors_iff (name ∷ names) =
    ground (arith, validate_derived_name_iff name, name_errors_iff names)

join_iff : (es : List Error) → (returned {A = Unit {0}} tt (join es) ≡ ok tt) ↔ (es ≡ [])
join_iff [] = (λ _. refl, λ _. refl)
join_iff (e ∷ es) = ground arith

-- An allocation's names are accepted exactly when each of the six - the runner's, the sidecar's, the
-- network's and the three volumes', written out from the instance's name in lower case and the nonce -
-- has at most 255 bytes and is in the grammar of Docker's names: a letter or digit, and then at least
-- one letter, digit, `_`, `.` or `-`.
pub validate_allocation_names_iff :
    (instance nonce : String)
    → (validate_allocation_names instance nonce ≡ ok tt)
      ↔ All IsDerivable (
          to_lower instance
          ∷ (to_lower instance ⧺ "-dind")
          ∷ (to_lower instance ⧺ "-net")
          ∷ (to_lower instance ⧺ "-" ⧺ nonce ⧺ "-" ⧺ "workspace")
          ∷ (to_lower instance ⧺ "-" ⧺ nonce ⧺ "-" ⧺ "socket")
          ∷ (to_lower instance ⧺ "-" ⧺ nonce ⧺ "-" ⧺ "dind-state")
          ∷ [])
unfolding validate_allocation_names allocation_names runner_container_name dind_container_name
    job_network_name workspace_volume_name socket_volume_name dind_state_volume_name
validate_allocation_names_iff instance nonce =
    let joined = join_iff (name_errors (allocation_names instance nonce)) in
    let checked = name_errors_iff (allocation_names instance nonce) in
    (λ h. checked.0 (joined.0 h), λ h. joined.1 (checked.1 h))
