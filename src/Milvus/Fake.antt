-- ===== src/Milvus/Fake.antt =====
-- A server in memory: it is what the witnesses run on, and models no code.
use openframe_adapters.Prelude.{ℕ, refl, true, none, some, Option, List, [], ◌∷◌, codes, Text}
use openframe_adapters.Effect.{ok}
use openframe_adapters.Dict.{
  Dict, Eq, text_eq, lookup, insert, pop, lookup-insert_self, lookup-pop_self,
}
use openframe_adapters.Dict.Keys.{option_eq, nat_eq}
use openframe_adapters.Milvus.Driver.{Driver}
use openframe_adapters.Milvus.Connection.{World, client_key}
use openframe_adapters.Milvus.Repository.{Repo}
use openframe_adapters.Milvus.Storing.{KeepsRows, rows}

-- The state is what is kept under each identifier, in any collection.
abbrev pub Kept : Type 0
Kept = Dict (Option ℕ) (Dict Text ℕ)

instance abbrev pub id_eq : Eq (Option ℕ)
id_eq = option_eq nat_eq

abbrev pub held : Kept → Text → Option ℕ → Option (Dict Text ℕ)
held s collection i = lookup i s

abbrev pub rows_at : List (Option ℕ) → Kept → List (Dict Text ℕ)
rows_at [] s = []
rows_at (i ∷ rest) s = rows (lookup i s)

abbrev pub keep_first : List (Dict Text ℕ) → Kept → Kept
keep_first [] s = s
keep_first (row ∷ rest) s = insert (lookup (codes "id") row) row s

abbrev pub remove_first : List (Option ℕ) → Kept → Kept
remove_first [] s = s
remove_first (i ∷ rest) s = pop i s

unfoldable pub fake : Driver ℕ ℕ Kept (Unit {0})
fake = record {
  isinstance = λ x c. true;
  class_name = λ x. [];
  lower_message = λ x. [];
  new_client = λ uri token db s. (ok 7, s);
  list_collections = λ client s. (ok tt, s);
  close = λ client. none;
  get = λ client collection ids s. (ok (rows_at ids s), s);
  query_page = λ client collection limit offset s. (ok [], s);
  query_all = λ client collection s. (ok [], s);
  upsert = λ client collection given s. (ok tt, keep_first given s);
  delete = λ client collection ids s. (ok tt, remove_first ids s);
  search = λ client collection vectors k s. (ok [], s);
}

pub fake-KeepsRows : KeepsRows fake (codes "id") held
unfolding fake
fake-KeepsRows = record {
  get_reads = λ c n i s. refl;
  upsert_returns = λ c n row s. refl;
  upsert_keeps = λ c n row s. lookup-insert_self (lookup (codes "id") row) row s;
  delete_returns = λ c n i s. refl;
  delete_removes = λ c n i s. lookup-pop_self i s;
}

abbrev pub repo : Repo ℕ (Unit {0}) ℕ
repo = record {
  settings = record {
    uri = codes "http://localhost:19530";
    token = [];
    db_name = codes "default";
    metric_type = codes "COSINE";
    vector_dim = 128;
    adapter_name = "milvus";
  };
  collection_name = codes "items";
  id_field = codes "id";
  vector_field = codes "vector";
  class_of = record {
    class_collection_name = [];
    class_id_field = codes "id";
    class_vector_field = codes "vector";
    row_to_entity = λ row. ok (elim (lookup (codes "id") row) [ none ↦ 0 | some i ↦ i ]);
    entity_to_row = λ e. ok ((codes "id", e) ∷ []);
  };
}

abbrev pub warm : World ℕ Kept
warm = ((client_key repo.settings, 7) ∷ [], [])
