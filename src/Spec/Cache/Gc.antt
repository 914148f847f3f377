-- ===== src/Spec/Cache/Gc.antt =====
-- internal/spec/gc.go: which cache volumes the garbage collection reports as stale. `none` is
-- `false, ""`. A number of days is not negative (config validates it)
-- and fits an int.
pub mod Laws
use Prim.Native.String.{slice}
use garm_provider_docker.Base.{
  ℕ, String, len, Bool, true, false, ◌&&◌, not, ◌+◌, ◌-◌, ◌*◌, ◌%◌, ◌^◌, Option, none, some, Labels,
  label, ◌==◌, if◌then◌else◌, leb, ltb, ◌⧺◌,
}
use garm_provider_docker.Base.Texts.{itoa}
use garm_provider_docker.Base.Times.{TimeFormat, day}
use garm_provider_docker.Spec.Labels.{
  label_cache, label_cache_kind, label_generation, label_pnpm_major, label_image_digest,
  label_os_release, label_last_used,
}
use garm_provider_docker.Spec.Cache.Identity.{kind_toolcache, kind_pnpm, kind_externals}

pub record CacheGcConfig : Type 0 where
  pub generation : String
  pub pnpm_major : String
  pub image_digest : String
  pub stale_days : ℕ
  pub grace : ℕ

abbrev pub pre_os_key_reason : String
pre_os_key_reason =
    "superseded: created before toolcache/pnpm volumes were keyed on the OS release, no longer mounted"

abbrev short_digest : String → String
short_digest d = if ltb 12 (len d) then slice d 0 12 else d

-- A salt label that is set and is not the current one.
abbrev pub differs : String → String → Bool
differs salt current = not (salt == "") && not (salt == current)

-- The switch on the kind; its fall-through is `none`.
unfoldable pub superseded : Labels → CacheGcConfig → Option String
superseded labels cfg =
    let kind = label labels label_cache_kind in
    let os_release = label labels label_os_release in
    let generation = label labels label_generation in
    let pnpm_major = label labels label_pnpm_major in
    let image_digest = label labels label_image_digest in
    if kind == kind_toolcache
    then (if differs generation cfg.generation
        then some
            ("superseded toolcache generation " ⧺ generation ⧺ " (current " ⧺ cfg.generation ⧺ ")")
        else if os_release == ""
        then some pre_os_key_reason
        else none)
    else if kind == kind_pnpm
    then (if differs pnpm_major cfg.pnpm_major
        then some ("superseded pnpm-major " ⧺ pnpm_major ⧺ " (current " ⧺ cfg.pnpm_major ⧺ ")")
        else if os_release == ""
        then some pre_os_key_reason
        else none)
    else if kind == kind_externals
    then (if not (cfg.image_digest == "") && differs image_digest cfg.image_digest
        then some (
            "superseded externals image-digest "
            ⧺ short_digest image_digest
            ⧺ " (current "
            ⧺ short_digest cfg.image_digest
            ⧺ ")")
        else none)
    else none

module _ (time : TimeFormat) where
  open time use {format, parse}

  unfoldable pub parse_last_used : Labels → Option ℕ
  parse_last_used labels =
      let raw = label labels label_last_used in if raw == "" then none else parse raw

  -- `now.Sub(created) >= d`
  abbrev pub aged : ℕ → ℕ → ℕ → Bool
  aged now created d = leb (created + d) now

  -- `time.Duration(cfg.StaleDays)*24*time.Hour`, as the 64 bits of an int64.
  abbrev pub days_bits : ℕ → ℕ
  days_bits days = days * day % 2 ^ 64

  -- `now.Sub(created) >= d` for these bits: from 2 ^ 63 on they stand for a negative duration.
  abbrev pub aged_bits : ℕ → ℕ → ℕ → Bool
  aged_bits now created bits =
      if ltb bits (2 ^ 63) then aged now created bits else leb created (now + (2 ^ 64 - bits))

  unfoldable pub aged_out : CacheGcConfig → ℕ → ℕ → Option String
  aged_out cfg now created =
      if ltb 0 cfg.stale_days && aged_bits now created (days_bits cfg.stale_days)
      then some
          ("aged out (created " ⧺ format created ⧺ ", stale after " ⧺ itoa cfg.stale_days ⧺ "d)")
      else none

  abbrev first_reason : Option String → Option String → Option String
  first_reason none later = later
  first_reason (some reason) later = some reason

  evaluate_at : Labels → CacheGcConfig → ℕ → ℕ → Option String
  evaluate_at labels cfg now created =
      first_reason (if aged now created cfg.grace then superseded labels cfg else none)
        (aged_out cfg now created)

  unfoldable pub evaluate_cache_eviction : Labels → CacheGcConfig → ℕ → Option String
  unfolding superseded parse_last_used aged_out evaluate_at
  evaluate_cache_eviction labels cfg now =
      if label labels label_cache == "true"
      then elim (parse_last_used labels) [
        | none ↦ none
        | some created ↦ evaluate_at labels cfg now created
      ]
      else none
