-- ===== src/Discovery/Endpoints/Registered.antt =====
-- What the counter of registered targets says after an endpoint was added and deleted.
use wavefront_collector_for.Prelude.{
  ℕ, ◌+◌, ◌-◌, ◌%◌, ◌^◌, ◌<◌, String, none, some, ◌≡◌, eq_refl, arith,
}
use wavefront_collector_for.Prelude.Maps.{lookup, insert, lookup-insert}
use wavefront_collector_for.Discovery.Endpoints.{Endpoint, Factory, EndpointHandler, add, delete}

module _ {C : Type 0} where
  -- An endpoint whose provider could be built leaves the counter of its type as it was once it is
  -- deleted.
  pub counts-delete-add :
      (ep : Endpoint C) (d : EndpointHandler C) (delegate : Factory C) (provider : String) (n : ℕ)
      → lookup ep.plugin_type d.providers ≡ some delegate
      → delegate.build ep.config ≡ some provider
      → lookup ep.plugin_type d.counts ≡ some n
      → n < 2 ^ 64
      → lookup ep.plugin_type (delete ep (add ep d)).counts ≡ some n
  unfolding add delete
  counts-delete-add ep d delegate provider n found built count bound =
      let t = ep.plugin_type in
      ground (
        arith,
        found,
        built,
        count,
        bound,
        eq_refl t,
        lookup-insert t t ((n + 1) % 2 ^ 64) d.counts,
        lookup-insert t t n (insert t ((n + 1) % 2 ^ 64) d.counts),
      )

  -- An endpoint whose provider could not be built is not counted, but deleting it takes one from the
  -- counter all the same: a counter that stood at 0 then reads -1.
  pub counts-delete-add_failed :
      (ep : Endpoint C) (d : EndpointHandler C) (delegate : Factory C) (n : ℕ)
      → lookup ep.plugin_type d.providers ≡ some delegate
      → delegate.build ep.config ≡ none
      → lookup ep.plugin_type d.counts ≡ some n
      → lookup ep.plugin_type (delete ep (add ep d)).counts ≡ some ((n + (2 ^ 64 - 1)) % 2 ^ 64)
  unfolding add delete
  counts-delete-add_failed ep d delegate n found failed count =
      let t = ep.plugin_type in
      ground (
        arith,
        found,
        failed,
        count,
        eq_refl t,
        lookup-insert t t ((n + (2 ^ 64 - 1)) % 2 ^ 64) d.counts,
      )
