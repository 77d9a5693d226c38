-- ===== src/Quality/Filters.antt =====
-- What passesQualityFilters of stremio-addon/lib/quality.js lets through.
use debrid_nest.Prelude.{◌*◌, ◌^◌, ◌≤◌, ◌≡◌, ◌↔◌, ◌⊎◌, true, arith, nat_eq, text_eq}
use debrid_nest.Torrent.{Torrent}
use debrid_nest.Quality.{QualityConfig, passes_quality_filters, effective_resolution}

-- The limits of a configuration, as a condition on a release.
pub record IsWithin (t : Torrent) (c : QualityConfig) : Type 0 where
  pub resolution :
      (c.max_resolution.mantissa ≡ 0)
      ⊎ (effective_resolution t.title * 10 ^ c.max_resolution.scale ≤ c.max_resolution.mantissa)
  pub size :
      (c.max_file_size_gb.mantissa ≡ 0)
      ⊎ (t.size * 10 ^ c.max_file_size_gb.scale ≤ c.max_file_size_gb.mantissa * 1024 ^ 3)

size_zero :
    (t : Torrent) (c : QualityConfig) → t.size ≡ 0 → t.size * 10 ^ c.max_file_size_gb.scale ≡ 0
size_zero t c h = rw h (omega arith)

passes_to : (t : Torrent) (c : QualityConfig) → passes_quality_filters t c ≡ true → IsWithin t c
unfolding passes_quality_filters
passes_to t c h = record { resolution = ground arith; size = ground (arith, size_zero t c) }

passes_from : (t : Torrent) (c : QualityConfig) → IsWithin t c → passes_quality_filters t c ≡ true
unfolding passes_quality_filters
passes_from t c h = ground (arith, h.resolution, h.size)

-- A release passes the filters exactly when its resolution (480 where the title names none) is at
-- most the configured one, and its size at most the configured one; a limit of 0 admits everything.
pub passes_quality_filters-iff_IsWithin :
    (t : Torrent) (c : QualityConfig) → (passes_quality_filters t c ≡ true) ↔ IsWithin t c
passes_quality_filters-iff_IsWithin t c = (passes_to t c, passes_from t c)
