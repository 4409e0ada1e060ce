-- ===== src/Chroma/Fake.antt =====
-- A collection that refuses an embedding: it is what the witnesses run on, and models no code.
use openframe_adapters.Prelude.{ℕ, Bool, true, false, none, some, [], codes}
use openframe_adapters.Effect.{ok, raised}
use openframe_adapters.Chroma.Driver.{
  Driver, ChromaClass, GetResult, value_error, builtin_exception,
}
use openframe_adapters.Chroma.Connection.{World}
use openframe_adapters.Chroma.Repository.{Repo}

-- The only exception: a `ValueError`.
abbrev is_value_error : Unit {0} → ChromaClass → Bool
is_value_error x value_error = true
is_value_error x builtin_exception = true
is_value_error x _ = false

abbrev empty : GetResult ℕ
empty = record { ids = none; embeddings = none; metadatas = none; documents = none }

unfoldable pub fake : Driver ℕ ℕ ℕ (Unit {0}) (Unit {0})
fake = record {
  isinstance = is_value_error;
  key_error = tt;
  index_error = tt;
  new_client = λ host port ssl tenant database s. (ok 7, s);
  get_or_create_collection = λ client name s. (ok 5, s);
  get = λ collection ids s. (ok empty, s);
  get_page = λ collection limit offset s. (ok empty, s);
  get_ids = λ collection ids s. (ok (some ids), s);
  count = λ collection s. (ok 0, s);
  add = λ collection i row s. (raised tt, s);
  update = λ collection i row s. (raised tt, s);
  delete = λ collection ids s. (ok tt, s);
  query = λ collection vector k s.
      (ok (record { ids = none; embeddings = none; metadatas = none; documents = none }), s);
}

abbrev pub repo : Repo ℕ (Unit {0}) ℕ
repo = record {
  settings = record {
    host = codes "localhost";
    port = 8000;
    ssl = false;
    tenant = codes "default_tenant";
    database = codes "default_database";
    collection = [];
    adapter_name = "chromadb";
  };
  collection_name = codes "items";
  class_of = record {
    class_collection = [];
    row_to_entity = λ row. ok row.id;
    entity_to_row =
        λ e. ok (record { id = some e; vector = some (some e); metadata = none; document = none });
  };
}

abbrev pub warm : World ℕ ℕ (Unit {0})
warm = (record { client_cache = []; collection_cache = some 5 }, tt)
