-- ===== src/Spec/Cache/Gc/Laws.antt =====
-- What the garbage collection reports of the volumes that the provider labels.
use garm_provider_docker.Base.{
  ℕ, String, Bool, true, false, ◌≤◌, ◌^◌, refl, ◌&&◌, ◌||◌, not, ◌+◌, ◌*◌, ◌/◌, none, some, Labels,
  ◌==◌, ◌≡◌, ◌≢◌, leb, ltb, if◌then◌else◌, bool_false, is_some, arith, eq_iff, ap, ◌∙◌,
}
use garm_provider_docker.Base.Times.{TimeFormat, day, second}
use garm_provider_docker.Spec.Cache.Identity.{
  CacheVolumeIdentity, ExternalsVolumeIdentity, toolcache_labels, pnpm_labels, diag_labels,
  externals_labels, kind_toolcache, kind_pnpm, kind_diag_logs, kind_externals,
}
use garm_provider_docker.Spec.Cache.Identity.Read.{
  Reads, Reads-toolcache_labels, Reads-pnpm_labels, Reads-diag_labels, Reads-externals_labels,
}
use garm_provider_docker.Spec.Cache.Gc.{
  days_bits, aged_bits, CacheGcConfig, evaluate_cache_eviction, superseded, aged_out, differs,
  evaluate_at,
}

is_some-two :
    (a b : Bool) (x y : String)
    → is_some (if a then some x else if b then some y else none) ≡ (a || b)
is_some-two a b x y = ground arith

is_some-one : (a : Bool) (x : String) → is_some (if a then some x else none) ≡ a
is_some-one a x = ground arith

module _ {labels : Labels} {r d i g p o c u : String} (cfg : CacheGcConfig) where
  superseded-toolcache :
      Reads labels kind_toolcache r d i g p o c u
      → is_some (superseded labels cfg) ≡ (differs g cfg.generation || o == "")
  unfolding superseded
  superseded-toolcache h =
      rw (h.kind_is, h.os_is, h.generation_is, superseded)
        (is_some-two (differs g cfg.generation) (o == "") _ _)

  superseded-pnpm :
      Reads labels kind_pnpm r d i g p o c u
      → is_some (superseded labels cfg) ≡ (differs p cfg.pnpm_major || o == "")
  unfolding superseded
  superseded-pnpm h =
      rw (h.kind_is, h.os_is, h.pnpm_is, superseded)
        (is_some-two (differs p cfg.pnpm_major) (o == "") _ _)

  superseded-externals :
      Reads labels kind_externals r d i g p o c u
      → is_some (superseded labels cfg)
        ≡ (not (cfg.image_digest == "") && differs i cfg.image_digest)
  unfolding superseded
  superseded-externals h =
      rw (h.kind_is, h.image_is, superseded)
        (is_some-one (not (cfg.image_digest == "") && differs i cfg.image_digest) _)

  superseded-diag :
      Reads labels kind_diag_logs r d i g p o c u → is_some (superseded labels cfg) ≡ false
  unfolding superseded
  superseded-diag h = rw (h.kind_is, superseded)

module _ (time : TimeFormat) (cfg : CacheGcConfig) (now created : ℕ) where
  -- The instant that the label of a volume made at `created` holds.
  abbrev pub made : ℕ
  made = created / second * second

  -- Ageing is on, and the volume is at least that old.
  abbrev pub too_old : Bool
  too_old = ltb 0 cfg.stale_days && leb (made + cfg.stale_days * day) now

  abbrev pub past_grace : Bool
  past_grace = leb (made + cfg.grace) now

  -- The number of days whose duration an int64 holds.
  abbrev pub max_days : ℕ
  max_days = 106751

  days_bits-small : cfg.stale_days ≤ max_days → days_bits time cfg.stale_days ≡ cfg.stale_days * day
  days_bits-small h = omega arith

  aged_bits-small :
      cfg.stale_days ≤ max_days
      → aged_bits time now made (days_bits time cfg.stale_days)
        ≡ leb (made + cfg.stale_days * day) now
  aged_bits-small h =
      let small : ltb (cfg.stale_days * day) (2 ^ 63) ≡ true = ground arith in
      rw (days_bits-small h, small) refl

  is_some-evaluate_at :
      (labels : Labels)
      → cfg.stale_days ≤ max_days
      → is_some (evaluate_at time labels cfg now made)
        ≡ ((past_grace && is_some (superseded labels cfg)) || too_old)
  unfolding evaluate_at aged_out
  is_some-evaluate_at labels h = ground (arith, aged_bits-small h)

  is_some-evaluate :
      {labels : Labels} {k r d i g p o c : String}
      → Reads labels k r d i g p o c (time.format created)
      → time.format created ≢ ""
      → cfg.stale_days ≤ max_days
      → is_some (evaluate_cache_eviction time labels cfg now)
        ≡ ((past_grace && is_some (superseded labels cfg)) || too_old)
  unfolding evaluate_cache_eviction
  is_some-evaluate {labels} h filled few =
      rw
        (
          h.cache,
          h.used_is,
          bool_false (time.format created == "")
              (λ e. filled ((eq_iff (time.format created) "").0 e)),
          time.parse_format created,
          evaluate_cache_eviction,
        )
        (is_some-evaluate_at labels few)

  abbrev with_age : Bool → Bool
  with_age b = (past_grace && b) || too_old

  no_reason : with_age false ≡ too_old
  no_reason = ground arith

  -- If an int64 holds the duration of the limit of days, and the text of the time of the label is not
  -- empty, a volume that the provider labelled is reported exactly when there is a limit and the volume
  -- is at least that old, or it is past the grace period and one of these holds: it is a toolcache or
  -- pnpm volume and its salt is set and is not the current one, or it has no OS key; it is an externals
  -- volume, and the current image and its own are set and differ.
  pub evaluate_cache_eviction_iff :
      (c : CacheVolumeIdentity) (e : ExternalsVolumeIdentity) (salt : String)
      → time.format created ≢ ""
      → cfg.stale_days ≤ max_days
      → (is_some
            (evaluate_cache_eviction time (toolcache_labels c salt (time.format created)) cfg now)
          ≡ with_age (not (salt == "") && not (salt == cfg.generation) || c.os_key == ""))
        × (is_some (evaluate_cache_eviction time (pnpm_labels c salt (time.format created)) cfg now)
            ≡ with_age (not (salt == "") && not (salt == cfg.pnpm_major) || c.os_key == ""))
        × (is_some (evaluate_cache_eviction time (diag_labels c (time.format created)) cfg now)
            ≡ too_old)
        × (is_some (evaluate_cache_eviction time (externals_labels e (time.format created)) cfg now)
            ≡ with_age (
                not (cfg.image_digest == "")
                && (not (e.image_digest == "") && not (e.image_digest == cfg.image_digest))))
  evaluate_cache_eviction_iff c e salt filled few =
      let used = time.format created in
      let tool = Reads-toolcache_labels c used salt in
      let pnpm = Reads-pnpm_labels c used salt in
      let diag = Reads-diag_labels c used in
      let externals = Reads-externals_labels e used in
      (
        is_some-evaluate tool filled few ∙ ap with_age (superseded-toolcache cfg tool),
        is_some-evaluate pnpm filled few ∙ ap with_age (superseded-pnpm cfg pnpm),
        is_some-evaluate diag filled few ∙ ap with_age (superseded-diag cfg diag) ∙ no_reason,
        is_some-evaluate externals filled few ∙ ap with_age (superseded-externals cfg externals),
      )
