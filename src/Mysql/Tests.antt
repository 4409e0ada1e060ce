-- ===== src/Mysql/Tests.antt =====
-- The theorems about the MySQL adapter at concrete inputs, on the database in memory.
use openframe_adapters.Prelude.{ℕ, ◌≡◌, refl, [], ◌∷◌, codes}
use openframe_adapters.Effect.{raised}
use openframe_adapters.Effect.Errors.{outside}
use openframe_adapters.Dict.{lookup}
use openframe_adapters.Mysql.Driver.{MysqlSettings}
use openframe_adapters.Mysql.Connection.{World, pool_key}
use openframe_adapters.Mysql.Repository.{Repo, get, list, create, update, delete}
use openframe_adapters.Mysql.Writes.{Written}
use openframe_adapters.Mysql.Durable.{writes_are_committed}
use openframe_adapters.Mysql.Updating.{malformed_port_escapes}
use openframe_adapters.Mysql.Fake.{Database, fake, items, fake-Transactional}

abbrev shop : MysqlSettings
shop = record {
  database_url = codes "mysql://localhost/shop";
  pool_size = 10;
  pool_recycle = 300000;
  pool_connect_timeout = 10000;
  adapter_name = "mysql";
}

abbrev repo : Repo ℕ ℕ (Unit {0}) ℕ
repo = record { settings = shop; table = codes "items"; id_column = codes "id"; class_of = items }

abbrev odd : Repo ℕ ℕ (Unit {0}) ℕ
odd = record repo { settings = record shop { database_url = codes "bad" } }

abbrev still : Database
still = record { ran = 0; committed = 0; changes = 0 }

abbrev cold : World ℕ Database
cold = ([], still)

abbrev warm : World ℕ Database
warm = ((pool_key shop, 7) ∷ [], still)

writes_are_committed_example :
    Written fake (λ s. s.committed) (create fake repo 4 cold).0 still (create fake repo 4 cold).1.1
    × Written fake
        (λ s. s.committed)
        (update fake repo 4 cold).0
        still
        (update fake repo 4 cold).1.1
    × Written fake
        (λ s. s.committed)
        (delete fake repo (codes "4") cold).0
        still
        (delete fake repo (codes "4") cold).1.1
writes_are_committed_example = writes_are_committed fake fake-Transactional repo 4 (codes "4") cold

malformed_port_escapes_example :
    (get fake odd (codes "4") cold ≡ (raised (outside tt), cold))
    × (list fake odd 1 0 cold ≡ (raised (outside tt), cold))
    × (create fake odd 4 cold ≡ (raised (outside tt), cold))
    × (update fake odd 4 cold ≡ (raised (outside tt), cold))
    × (delete fake odd (codes "4") cold ≡ (raised (outside tt), cold))
unfolding fake lookup
malformed_port_escapes_example = malformed_port_escapes fake odd cold (codes "4") 1 0 4 refl refl
