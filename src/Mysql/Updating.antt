-- ===== src/Mysql/Updating.antt =====
-- A port that is none, in the methods of the repository.
use openframe_adapters.Prelude.{◌≡◌, none, Text, arith, ℕ}
use openframe_adapters.Effect.{raised}
use openframe_adapters.Effect.Errors.{outside}
use openframe_adapters.Dict.{lookup}
use openframe_adapters.Mysql.Driver.{Driver}
use openframe_adapters.Mysql.Connection.{World, pool_key, pool_key_eq, pool_args, get_mysql_pool}
use openframe_adapters.Mysql.Repository.{Repo, get, list, create, update, delete}

module _ {C K U V R S X T : Type 0} (d : Driver C K U V R S X) (self : Repo V R X T)
    (w : World C S) where
  no_port :
      {x : X}
      → lookup (pool_key self.settings) w.0 ≡ none
      → (d.urlparse self.settings.database_url).port ≡ raised x
      → get_mysql_pool d self.settings w ≡ (raised (outside x), w)
  unfolding get_mysql_pool pool_args
  no_port cold broken = ground arith

  -- With no pool in the cache and a URL whose port `urlparse` refuses, its exception leaves `get`,
  -- `list`, `create`, `update` and `delete` of the MySQL repository untranslated, and nothing else
  -- happens.
  pub malformed_port_escapes :
      (i : Text) (limit offset : ℕ) (entity : T) {x : X}
      → lookup (pool_key self.settings) w.0 ≡ none
      → (d.urlparse self.settings.database_url).port ≡ raised x
      → (get d self i w ≡ (raised (outside x), w))
        × (list d self limit offset w ≡ (raised (outside x), w))
        × (create d self entity w ≡ (raised (outside x), w))
        × (update d self entity w ≡ (raised (outside x), w))
        × (delete d self i w ≡ (raised (outside x), w))
  unfolding get list create update delete
  malformed_port_escapes i limit offset entity cold broken =
      let e = no_port cold broken in
      (
        ground (arith, e),
        ground (arith, e),
        ground (arith, e),
        ground (arith, e),
        ground (arith, e),
      )
