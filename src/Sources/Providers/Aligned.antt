-- ===== src/Sources/Providers/Aligned.antt =====
-- A name has a provider exactly if it has a timer and a channel.
use wavefront_collector_for.Prelude.{
  ℕ, String, List, [], ◌∷◌, some, Bool, true, false, ◌≡◌, refl, eq_refl, arith, is_some,
  if◌then◌else◌,
}
use wavefront_collector_for.Prelude.Maps.{lookup, lookup-insert, lookup-delete}
use wavefront_collector_for.Sources.Providers.{
  SourceProvider, SourceManager, interval_of, install, delete_provider, add_provider, Request,
  added, deleted, handle,
}

-- under this name: all three or none
abbrev pub AlignedAt : String → SourceManager → Type 0
AlignedAt k sm =
    (is_some (lookup k sm.metrics_source_timers) ≡ is_some (lookup k sm.metrics_source_providers))
    × (is_some (lookup k sm.metrics_source_quits) ≡ is_some (lookup k sm.metrics_source_providers))

AlignedAt-delete_provider :
    (k name : String) (sm : SourceManager) → AlignedAt k sm → AlignedAt k (delete_provider name sm)
unfolding delete_provider
AlignedAt-delete_provider k name sm h = ground (
  arith,
  h,
  lookup-delete name k sm.metrics_source_providers,
  lookup-delete name k sm.metrics_source_timers,
  lookup-delete name k sm.metrics_source_quits,
)

AlignedAt-install :
    (k : String) (provider : SourceProvider) (sm : SourceManager)
    → AlignedAt k sm
    → AlignedAt k (install provider sm)
AlignedAt-install k provider sm h = ground (
  arith,
  h,
  lookup-insert provider.name k provider sm.metrics_source_providers,
  lookup-insert provider.name k (interval_of provider sm) sm.metrics_source_timers,
  lookup-insert provider.name k sm.next_quit sm.metrics_source_quits,
)

AlignedAt-add_provider :
    (k : String) (provider : SourceProvider) (sm : SourceManager)
    → AlignedAt k sm
    → AlignedAt k (add_provider provider sm)
unfolding add_provider
AlignedAt-add_provider k provider sm h =
    AlignedAt-install k provider
      (if is_some (lookup provider.name sm.metrics_source_providers)
        then delete_provider provider.name sm
        else sm)
      (go (is_some (lookup provider.name sm.metrics_source_providers)))
  where
    go : (b : Bool) → AlignedAt k (if b then delete_provider provider.name sm else sm)
    go true = AlignedAt-delete_provider k provider.name sm h
    go false = h

-- Whatever providers are added and deleted, a name has a provider exactly if it has a timer, and
-- exactly if it has a channel.
pub AlignedAt-handle :
    (k : String) (requests : List Request) (sm : SourceManager)
    → AlignedAt k sm
    → AlignedAt k (handle requests sm)
unfolding handle
AlignedAt-handle k [] sm h = h
AlignedAt-handle k (added provider ∷ requests) sm h =
    AlignedAt-handle k requests (add_provider provider sm) (AlignedAt-add_provider k provider sm h)
AlignedAt-handle k (deleted name ∷ requests) sm h =
    AlignedAt-handle k requests (delete_provider name sm) (AlignedAt-delete_provider k name sm h)

-- Adding a provider runs it under its name at its own interval, or at the default one if it has none,
-- and ends the provider of that name that ran before: its channel is closed.
pub add_provider_lem :
    (provider old : SourceProvider) (quit : ℕ) (sm : SourceManager)
    → lookup provider.name sm.metrics_source_providers ≡ some old
    → lookup provider.name sm.metrics_source_quits ≡ some quit
    → let t = add_provider provider sm in
      (lookup provider.name t.metrics_source_providers ≡ some provider)
      × (lookup provider.name t.metrics_source_timers ≡ some (interval_of provider sm))
      × (t.closed ≡ quit ∷ sm.closed)
      × (t.cleaned_up ≡ old ∷ sm.cleaned_up)
unfolding add_provider delete_provider
add_provider_lem provider old quit sm found has_quit =
    let n = provider.name in
    rw (found, has_quit, lookup-insert, lookup-insert, eq_refl) (refl, refl, refl, refl)
