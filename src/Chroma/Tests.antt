-- ===== src/Chroma/Tests.antt =====
-- The theorems about the ChromaDB adapter at concrete inputs, on the collection in memory.
use openframe_adapters.Prelude.{ℕ, ◌≡◌, refl, none, some, List, [], ◌∷◌, codes, map}
use openframe_adapters.Effect.{ok, raised}
use openframe_adapters.Effect.Errors.{failure_of, query_error, outside}
use openframe_adapters.Chroma.Rows.{get_result_to_rows, query_result_to_rows}
use openframe_adapters.Chroma.Repository.{create, update}
use openframe_adapters.Chroma.Transposing.{
  Stored, columns, for_one_vector, row_of_entry, rows_of_columns,
}
use openframe_adapters.Chroma.Refusing.{value_error_escapes}
use openframe_adapters.Chroma.Fake.{fake, repo, warm}

abbrev two : List (Stored ℕ)
two =
    record { id = 1; vector = 10; metadata = some ((codes "size", 3) ∷ []); document = none }
    ∷ record { id = 2; vector = 20; metadata = none; document = some 5 }
    ∷ []

rows_of_columns_example :
    (get_result_to_rows tt (columns two) ≡ ok (map row_of_entry two))
    × (query_result_to_rows tt (for_one_vector (columns two)) ≡ ok (map row_of_entry two))
rows_of_columns_example = rows_of_columns tt two

value_error_escapes_example :
    (create fake repo 4 warm
      ≡ (raised (failure_of "chromadb" query_error "create" (some tt)), warm))
    × (update fake repo 4 warm ≡ (raised (outside tt), warm))
unfolding fake
value_error_escapes_example =
    value_error_escapes fake repo warm {collection = 5} refl 4 {i = 4} {vector = some 4} refl refl
      refl {found = 4} {more = []} refl {exc = tt} (refl, refl) refl refl refl refl refl
