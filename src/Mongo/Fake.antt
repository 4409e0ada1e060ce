-- ===== src/Mongo/Fake.antt =====
-- A server that finds nothing: it is what the witnesses run on, and models no code.
use openframe_adapters.Prelude.{ℕ, true, false, none, [], ◌∷◌, codes, Text}
use openframe_adapters.Effect.{ok}
use openframe_adapters.Dict.{Dict}
use openframe_adapters.Mongo.Driver.{Driver}
use openframe_adapters.Mongo.Connection.{World, client_key}
use openframe_adapters.Mongo.Documents.{Entity, mapping, base_entity_to_doc}
use openframe_adapters.Mongo.Repository.{Repo}

-- Values are texts, and no text is an ObjectId.
unfoldable pub fake : Driver ℕ Text (Unit {0}) (Unit {0})
fake = record {
  isinstance = λ x c. true;
  str = λ v. v;
  text_value = λ t. t;
  truthy = λ v. elim v [ [] ↦ false | c ∷ cs ↦ true ];
  is_none = λ v. false;
  object_id = λ t. none;
  new_client = λ url args s. (ok 7, s);
  close = λ client s. (ok tt, s);
  ping = λ client s. (ok tt, s);
  find_one = λ col i ms s. (ok none, s);
  find_page = λ col offset limit ms s. (ok [], s);
  count_documents = λ col ms s. (ok 0, s);
  insert_one = λ col fields s. (ok [], s);
  find_one_and_update = λ col i fields ms s. (ok none, s);
  delete_one = λ col i s. (ok 0, s);
}

abbrev pub repo : Repo Text (Unit {0}) (Entity Text)
repo = record {
  settings = record {
    url = codes "mongodb://localhost";
    database = codes "shop";
    min_pool_size = 5;
    max_pool_size = 20;
    server_selection_timeout_ms = 5000;
    tls = false;
    tls_allow_invalid_certs = false;
    operation_timeout = 30000;
    adapter_name = "mongo";
  };
  coll_name = codes "items";
  class_of = record {
    class_collection = [];
    doc_to_entity = λ fields. ok (mapping fields);
    entity_to_doc = λ e. ok (base_entity_to_doc e);
  };
}

-- The attributes of the one object.
abbrev pub shirt : Dict Text Text
shirt = (codes "id", codes "7") ∷ (codes "size", codes "L") ∷ []

abbrev pub warm : World ℕ Text (Unit {0})
warm = (record { client_cache = (client_key repo.settings, 7) ∷ []; objects = (0, shirt) ∷ [] }, tt)
