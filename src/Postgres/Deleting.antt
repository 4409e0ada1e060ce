-- ===== src/Postgres/Deleting.antt =====
-- `delete` and the status tag of the server.
use openframe_adapters.Prelude.{
  ℕ, ◌≡◌, refl, ◌++◌, ◌∷◌, [], Text, codes, some, arith, ◌==◌, eq_text,
}
use openframe_adapters.Effect.{ok}
use openframe_adapters.Dict.{lookup, text_iff}
use openframe_adapters.Postgres.Driver.{Driver, identifier}
use openframe_adapters.Postgres.Connection.{World, pool_key, pool_key_eq}
use openframe_adapters.Postgres.Statements.{decimal, delete_query}
use openframe_adapters.Postgres.Repository.{Repo, delete}
use openframe_adapters.Postgres.Decimal.{decimal_injective}
use openframe_adapters.Postgres.PoolCache.{get_postgres_pool_hit}

one_digit : decimal 1 ≡ codes "1"
unfolding decimal
one_digit = refl

tag_one : (n : ℕ) → eq_text (codes "DELETE " ++ decimal n) (codes "DELETE 1") ≡ (n == 1)
tag_one n = ground (arith, text_iff (decimal n) (decimal 1), one_digit, decimal_injective n 1)

module _ {C K S V R X T : Type 0} (d : Driver C K S V R X) (self : Repo V R X T) where
  -- With a pool in the cache, where the server replies that it deleted n rows, `delete` of the
  -- PostgreSQL repository returns whether n is one, also where the column names several rows.
  pub delete_counts :
      (entity_id : Text) {c : C} (w : World C S) (n : ℕ) {s : S}
      → lookup (pool_key self.settings) w.pool_cache ≡ some c
      → d.execute c (delete_query self.table self.id_column) (identifier entity_id ∷ []) w.database
        ≡ (ok (codes "DELETE " ++ decimal n), s)
      → delete d self entity_id w ≡ (ok (n == 1), record w { database = s })
  unfolding delete
  delete_counts entity_id w n cached replied =
      ground (arith, get_postgres_pool_hit d self.settings w cached, tag_one n)
