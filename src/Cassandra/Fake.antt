-- ===== src/Cassandra/Fake.antt =====
-- A table of three rows: it is what the witnesses run on, and models no code.
use openframe_adapters.Prelude.{ℕ, true, inl, inr, none, some, Option, List, [], ◌∷◌, codes, take}
use openframe_adapters.Effect.{ok}
use openframe_adapters.Sql.{Argument, number}
use openframe_adapters.Cassandra.Driver.{Driver}
use openframe_adapters.Cassandra.Connection.{World, session_key}
use openframe_adapters.Cassandra.Repository.{Repo}

-- A query with a number is for that many rows, of which a page has two, and another one for their
-- count.
abbrev pub answered : Option (List (Argument ℕ)) → List ℕ
answered (some (number n ∷ rest)) = take 2 (take n (1 ∷ 2 ∷ 3 ∷ []))
answered _ = 3 ∷ []

unfoldable pub fake : Driver ℕ ℕ ℕ (Unit {0}) (Unit {0})
fake = record {
  isinstance = λ x c. true;
  first_int = λ r. ok r;
  connect = λ args s. (ok 7, s);
  shutdown = λ session s. (ok tt, s);
  execute = λ session query params s. (ok (answered params), s);
}

abbrev pub repo : Repo ℕ ℕ (Unit {0}) ℕ
repo = record {
  settings = record {
    contact_points = codes "10.0.0.1" ∷ [];
    port = 9042;
    keyspace = none;
    username = some (codes "shop");
    password = some (codes "old");
    local_dc = none;
    protocol_version = none;
    core_connections_per_host = 2;
    adapter_name = "cassandra";
  };
  table = codes "items";
  id_column = codes "id";
  class_of = record {
    class_table = [];
    class_id_column = codes "id";
    row_to_entity = λ row. ok (elim row [ inl r ↦ r | inr fields ↦ 0 ]);
    entity_to_row = λ e. ok ((codes "id", e) ∷ []);
  };
}

abbrev pub warm : World ℕ (Unit {0})
warm = ((session_key repo.settings, 7) ∷ [], tt)
