-- ===== src/Poll/Metadata/Configured.antt =====
-- eos-updater/poll.c: the order of sources that read_config accepts.
use eos_updater.Poll.Sources.{strv_to_download_order}
use eos_updater.Poll.Sources.Order.{strv_to_download_order_iff, Distinct}
use eos_updater.Poll.Finders.{SourcesConfig}
use eos_updater.Poll.Metadata.{read_config}
use mathlib.Core.Path.{subst}
use eos_updater.Prelude.{List, [], none, some, Option, String, ◌≡◌, ◌≢◌, inl, inr, arith}
use eos_updater.Errors.{>>=-eq-ok, Result-cases}
use eos_updater.Errors.{Result, ok, ◌>>=◌}

-- With both keys in some configuration file no assertion fails, and an accepted order has at least
-- one source and none twice.
pub read_config-Distinct :
    (strip : String → String) (order uris : Result (List String))
    (r : Option (Result SourcesConfig))
    → read_config strip (record { order = some order; override_uris = some uris }) ≡ r
    → (r ≢ none)
      × ((c : SourcesConfig)
          → r ≡ some (ok c)
          → Distinct c.download_order × (c.download_order ≢ []))
unfolding read_config
read_config-Distinct strip order uris r h =
    elim (Result-cases (order >>= strv_to_download_order strip)) [
      | inl (l, e) ↦
          let (entries, f, g) = >>=-eq-ok order (strv_to_download_order strip) e in
          let (_, d, n) = (strv_to_download_order_iff strip entries l).0 g in
          (
            ground arith,
            λ c k.
                let m : l ≡ c.download_order = ground arith in
                subst (λ x. Distinct x × (x ≢ [])) m (d, n),
          )
      | inr (inl (x, e)) ↦ (ground arith, λ c k. absurd (ground arith))
      | inr (inr e) ↦ (ground arith, λ c k. absurd (ground arith))
    ]
