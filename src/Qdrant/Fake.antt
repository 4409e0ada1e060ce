-- ===== src/Qdrant/Fake.antt =====
-- A collection of three points: it is what the witnesses run on, and models no code.
use openframe_adapters.Prelude.{ℕ, true, false, none, some, List, [], ◌∷◌, codes, take}
use openframe_adapters.Effect.{ok}
use openframe_adapters.Qdrant.Driver.{Driver, Point}
use openframe_adapters.Qdrant.Connection.{World, client_key}
use openframe_adapters.Qdrant.Repository.{Store}

abbrev pub point : ℕ → Point ℕ
point n = record { id = n; vector = 0; payload = none }

abbrev pub three : List (Point ℕ)
three = point 1 ∷ point 2 ∷ point 3 ∷ []

-- Identifiers, vectors and payloads are numbers; the point 4 is not there.
unfoldable pub fake : Driver ℕ ℕ (Unit {0}) (Unit {0})
fake = record {
  isinstance = λ x c. true;
  status_code = λ x. none;
  new_client = λ url key grpc https s. (ok 7, s);
  get_collections = λ client s. (ok tt, s);
  close = λ client s. (ok tt, s);
  upsert = λ client collection points s. (ok tt, s);
  retrieve = λ client collection ids s. (ok [], s);
  scroll = λ client collection n s. (ok (take n three), s);
  count = λ client collection s. (ok 3, s);
  delete = λ client collection ids s. (ok tt, s);
  query_points = λ client collection vector k s. (ok [], s);
}

abbrev pub store : Store ℕ (Unit {0}) ℕ
store = record {
  settings = record {
    url = codes "http://localhost:6333";
    api_key = none;
    prefer_grpc = false;
    https = none;
    adapter_name = "qdrant";
  };
  collection = codes "items";
  class_of = record {
    class_collection = [];
    entity_to_point = λ e. ok (point e);
    point_to_entity = λ p. ok p.id;
    id_of = λ e. some e;
  };
}

abbrev pub warm : World ℕ (Unit {0})
warm = ((client_key store.settings, 7) ∷ [], tt)
