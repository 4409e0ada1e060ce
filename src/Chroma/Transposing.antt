-- ===== src/Chroma/Transposing.antt =====
-- The rows of the ChromaDB repository are those that the columns of a result were made of.
use openframe_adapters.Prelude.{
  ℕ, zero, suc, ◌≡◌, refl, Option, none, some, List, [], ◌∷◌, Text, map, drop, get_elem?, arith,
}
use openframe_adapters.Effect.{ok}
use openframe_adapters.Dict.{Dict}
use openframe_adapters.Chroma.Driver.{GetResult, QueryResult}
use openframe_adapters.Chroma.Rows.{
  Row, at_index, row_at, rows_from, get_result_to_rows, first_result, query_result_to_rows,
  metadata_or_empty,
}

-- What a collection holds for an identifier.
pub record Stored (J : Type 0) : Type 0 where
  pub id : J
  pub vector : J
  pub metadata : Option (Dict Text J)
  pub document : Option J

abbrev nested : {A : Type 0} → Option A → Option (List A)
nested none = none
nested (some column) = some (column ∷ [])

module _ {J : Type 0} where
  -- The columns of a result that includes all of them, the row of an entry, and the columns of a query
  -- by one vector.
  abbrev pub columns : List (Stored J) → GetResult J
  columns entries = record {
    ids = some (map (λ e. e.id) entries);
    embeddings = some (map (λ e. e.vector) entries);
    metadatas = some (map (λ e. e.metadata) entries);
    documents = some (map (λ e. e.document) entries);
  }

  abbrev pub row_of_entry : Stored J → Row J
  row_of_entry e = record {
    id = e.id;
    vector = some e.vector;
    metadata = metadata_or_empty (some e.metadata);
    document = e.document;
  }

  abbrev pub for_one_vector : GetResult J → QueryResult J
  for_one_vector result = record {
    ids = nested result.ids;
    embeddings = nested result.embeddings;
    metadatas = nested result.metadatas;
    documents = nested result.documents;
  }

drop-head :
    {A : Type 0} (i : ℕ) (xs : List A) {y : A} {ys : List A}
    → drop i xs ≡ y ∷ ys
    → (get_elem? xs i ≡ some y) × (drop (suc i) xs ≡ ys)
drop-head zero [] h = absurd (ground (arith, h))
drop-head zero (x ∷ xs) h = (ground (arith, h), ground (arith, h))
drop-head (suc i) [] h = absurd (ground (arith, h))
drop-head (suc i) (x ∷ xs) h = drop-head i xs h

module _ {J X : Type 0} (index_error : X) where
  rows_from-columns :
      (result : GetResult J) (i : ℕ) (entries : List (Stored J)) {vectors : List J}
      {metas : List (Option (Dict Text J))} {docs : List (Option J)}
      → result.embeddings ≡ some vectors
      → result.metadatas ≡ some metas
      → result.documents ≡ some docs
      → drop i vectors ≡ map (λ e. e.vector) entries
      → drop i metas ≡ map (λ e. e.metadata) entries
      → drop i docs ≡ map (λ e. e.document) entries
      → rows_from index_error result i (map (λ e. e.id) entries) ≡ ok (map row_of_entry entries)
  unfolding rows_from row_at at_index
  rows_from-columns result i [] v m c hv hm hc = refl
  rows_from-columns result i (e ∷ entries) v m c hv hm hc =
      let (v0, v1) = drop-head i _ hv in
      let (m0, m1) = drop-head i _ hm in
      let (c0, c1) = drop-head i _ hc in
      ground (arith, v, m, c, v0, m0, c0, rows_from-columns result (suc i) entries v m c v1 m1 c1)

  -- From the columns of any entries, as `get` of a ChromaDB collection returns them, and from
  -- those nested as `query` by one vector returns them, the repository makes the rows of these
  -- entries, in order and without an index out of range.
  pub rows_of_columns :
      (entries : List (Stored J))
      → (get_result_to_rows index_error (columns entries) ≡ ok (map row_of_entry entries))
        × (query_result_to_rows index_error (for_one_vector (columns entries))
            ≡ ok (map row_of_entry entries))
  unfolding get_result_to_rows query_result_to_rows first_result at_index
  rows_of_columns entries = (whole, whole)
    where
      whole :
          rows_from index_error (columns entries) 0 (map (λ e. e.id) entries)
          ≡ ok (map row_of_entry entries)
      whole = rows_from-columns (columns entries) 0 entries refl refl refl refl refl refl
