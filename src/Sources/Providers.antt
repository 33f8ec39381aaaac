-- ===== src/Sources/Providers.antt =====
-- plugins/sources/manager.go: the providers that are running, each under its name with a timer and a
-- channel that ends its goroutine. A timer is its interval, where
-- one that is not positive is 0, a channel is a number; the channels that were
-- closed and the providers whose sources were cleaned up are kept in lists.
pub mod Aligned
use wavefront_collector_for.Prelude.{
  ℕ, ◌+◌, String, List, [], ◌∷◌, Option, none, some, ltb, length, is_some, if◌then◌else◌,
}
use wavefront_collector_for.Prelude.Maps.{Map, lookup, insert, delete}

pub record SourceProvider : Type 0 where
  pub name : String
  pub collection_interval : ℕ
  pub timeout : ℕ

pub record SourceManager : Type 0 where
  pub default_collection_interval : ℕ
  pub metrics_source_providers : Map SourceProvider
  pub metrics_source_timers : Map ℕ
  pub metrics_source_quits : Map ℕ
  -- the channel that is made next
  pub next_quit : ℕ
  pub closed : List ℕ
  pub cleaned_up : List SourceProvider
  -- the gauge source.manager.providers
  pub provider_count : ℕ

abbrev with_closed : Option ℕ → List ℕ → List ℕ
with_closed none closed = closed
with_closed (some quit) closed = quit ∷ closed

abbrev pub remove_provider : String → Option SourceProvider → SourceManager → SourceManager
remove_provider name none sm = sm
remove_provider name (some provider) sm = record sm {
  metrics_source_providers = delete name sm.metrics_source_providers;
  metrics_source_timers = delete name sm.metrics_source_timers;
  metrics_source_quits = delete name sm.metrics_source_quits;
  closed = with_closed (lookup name sm.metrics_source_quits) sm.closed;
  cleaned_up = provider ∷ sm.cleaned_up;
}

-- DeleteProvider
unfoldable pub delete_provider : String → SourceManager → SourceManager
delete_provider name sm = remove_provider name (lookup name sm.metrics_source_providers) sm

abbrev pub interval_of : SourceProvider → SourceManager → ℕ
interval_of provider sm =
    if ltb 0 provider.collection_interval
    then provider.collection_interval
    else sm.default_collection_interval

abbrev pub install : SourceProvider → SourceManager → SourceManager
install provider sm =
    let providers = insert provider.name provider sm.metrics_source_providers in
    record sm {
      metrics_source_providers = providers;
      metrics_source_timers =
          insert provider.name (interval_of provider sm) sm.metrics_source_timers;
      metrics_source_quits = insert provider.name sm.next_quit sm.metrics_source_quits;
      next_quit = sm.next_quit + 1;
      provider_count = length providers;
    }

-- AddProvider
unfoldable pub add_provider : SourceProvider → SourceManager → SourceManager
unfolding delete_provider
add_provider provider sm = install provider (
    if is_some (lookup provider.name sm.metrics_source_providers)
    then delete_provider provider.name sm
    else sm)

-- StopProviders, over the names in the order of the `range`
unfoldable pub stop_providers : List String → SourceManager → SourceManager
unfolding delete_provider
stop_providers [] sm = sm
stop_providers (name ∷ names) sm = stop_providers names (delete_provider name sm)

pub data Request : Type 0 where
  added : SourceProvider → Request
  deleted : String → Request

unfoldable pub handle : List Request → SourceManager → SourceManager
handle [] sm = sm
handle (added provider ∷ requests) sm = handle requests (add_provider provider sm)
handle (deleted name ∷ requests) sm = handle requests (delete_provider name sm)
