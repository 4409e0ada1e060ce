-- ===== src/Falkor/Fake.antt =====
-- A graph of nothing: it is what the witnesses run on, and models no code.
use openframe_adapters.Prelude.{ℕ, ◌+◌, true, false, none, [], ◌∷◌, codes}
use openframe_adapters.Effect.{ok}
use openframe_adapters.Falkor.Driver.{Driver}
use openframe_adapters.Falkor.Connection.{World, client_key}
use openframe_adapters.Falkor.Repository.{Repo}

-- The state counts the constraints that were asked for.
unfoldable pub fake : Driver ℕ ℕ ℕ ℕ (Unit {0})
fake = record {
  isinstance = λ x c. true;
  lower_message = λ x. [];
  str = λ v. [];
  int_of = λ cell. ok 0;
  index_error = tt;
  new_client = λ settings s. (ok 7, s);
  ping = λ client s. (ok tt, s);
  aclose = λ client s. (ok tt, s);
  select_graph = λ client name s. (ok 5, s);
  create_constraint = λ graph label property s. (ok tt, s + 1);
  query = λ graph text params s. (ok (record { result_set = []; nodes_deleted = 0 }), s);
}

abbrev pub repo : Repo ℕ (Unit {0}) ℕ
repo = record {
  settings = record {
    host = codes "localhost";
    port = 6379;
    password = none;
    ssl = false;
    socket_timeout = 5000;
    socket_connect_timeout = 5000;
    graph_name = codes "openframe";
    node_label = codes "Entity";
    adapter_name = "falkordb";
  };
  class_of = record { entity_to_properties = λ e. ok []; node_to_entity = λ cell. ok 0 };
}

abbrev pub cold : World ℕ ℕ
cold = (record { client_cache = []; constraint_ensured = false }, 0)

-- What `_ensure_ready` leaves of it.
abbrev pub prepared : World ℕ ℕ
prepared =
    (record { client_cache = (client_key repo.settings, 7) ∷ []; constraint_ensured = true }, 1)
