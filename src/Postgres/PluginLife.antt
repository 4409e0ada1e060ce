-- ===== src/Postgres/PluginLife.antt =====
-- The life of a PostgreSQL plugin, with a table and without one.
use openframe_adapters.Prelude.{◌≡◌, inl, inr, some, Text, [], ◌∷◌, arith, if◌then◌else◌}
use openframe_adapters.Effect.{ok, raised, ran-cases}
use openframe_adapters.Effect.Errors.{is_exception, ready, failed, initialized, stopped}
use openframe_adapters.Lifecycle.{fresh, initialize_with, shutdown_with, get_held}
use openframe_adapters.Dict.{lookup}
use openframe_adapters.Postgres.Driver.{Driver}
use openframe_adapters.Postgres.Connection.{World, pool_key, pool_key_eq, get_postgres_pool}
use openframe_adapters.Postgres.Repository.{new_repository, or_default}
use openframe_adapters.Postgres.Plugin.{
  Plugin, Session, catches, connect, connect_table, connect_pool, initialize, shutdown,
  get_repository,
}
use openframe_adapters.Postgres.PoolCache.{get_postgres_pool_ok}

module _ {C K S V R X T : Type 0} (d : Driver C K S V R X) (self : Plugin V R X T) where
  connect_status : (s : Session C S V R X T) → (connect d self s).1.0.status ≡ s.0.status
  unfolding connect connect_table connect_pool
  connect_status s = ground arith

  -- `initialize` of the PostgreSQL plugin ends READY if it returns and FAILED if it raises; only
  -- what `except Exception` passes by leaves INITIALIZED.
  pub initialize_by_outcome :
      (s : Session C S V R X T)
      → (initialize d self s).1.0.status ≡ elim (initialize d self s).0 [
        | ok _ ↦ ready
        | raised e ↦ if is_exception (catches d) e then failed else initialized
      ]
  unfolding initialize initialize_with
  initialize_by_outcome s =
      ground (arith, connect_status (record s.0 { status = initialized }, s.1))

  -- With a table, after an `initialize` of the PostgreSQL plugin that returns, `get_repository`
  -- returns a repository of the plugin's settings, table and class, whose column is the class's
  -- where the plugin names none.
  pub initialize_gives_repository :
      (s : Session C S V R X T) {s' : Session C S V R X T} {c : _} {cs : Text}
      → self.table ≡ c ∷ cs
      → initialize d self s ≡ (ok tt, s')
      → get_repository s'.0
        ≡ ok (record {
          settings = self.settings;
          table = self.table;
          id_column = or_default self.id_column self.repository_class.class_id_column;
          class_of = self.repository_class;
        })
  unfolding initialize initialize_with connect connect_table get_repository get_held new_repository
  initialize_gives_repository s named done = ground arith

  -- Without a table, after an `initialize` of a new PostgreSQL plugin that returns, the pool is in
  -- the cache, and `shutdown` returns, sets STOPPED and changes nothing else: the pool is neither
  -- closed nor forgotten.
  pub shutdown_keeps_pool :
      (w : World C S) {s' : Session C S V R X T}
      → self.table ≡ []
      → initialize d self (fresh, w) ≡ (ok tt, s')
      → ((c : C) × (lookup (pool_key self.settings) s'.1.pool_cache ≡ some c))
        × (shutdown d s' ≡ (ok tt, (record s'.0 { status = stopped }, s'.1)))
  unfolding initialize initialize_with connect connect_pool shutdown shutdown_with
  shutdown_keeps_pool w {s'} unnamed done = elim (ran-cases (get_postgres_pool d self.settings w)) [
    | inl (c, e) ↦ ((c, ground (arith, get_postgres_pool_ok d self.settings w e)), ground arith)
    | inr (x, e) ↦ absurd (ground arith)
  ]
