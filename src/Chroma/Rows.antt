-- ===== src/Chroma/Rows.antt =====
-- `_get_result_to_rows` and `_query_result_to_rows` of repository.py of the ChromaDB adapter: columns to
-- rows.
use openframe_adapters.Prelude.{ℕ, suc, Option, none, some, List, [], ◌∷◌, Text, get_elem?}
use openframe_adapters.Effect.{Outcome, ok, raised}
use openframe_adapters.Dict.{Dict}
use openframe_adapters.Chroma.Driver.{GetResult, QueryResult}

-- A row as a dict of the keys `id`, `vector`, `metadata` and `document`.
pub record Row (J : Type 0) : Type 0 where
  pub id : J
  pub vector : Option J
  pub metadata : Dict Text J
  pub document : Option J

-- `column[i] if column is not None else None`, given the IndexError
unfoldable pub at_index : {X A : Type 0} → X → Option (List A) → ℕ → Outcome X (Option A)
at_index index_error none i = ok none
at_index index_error (some column) i = elim (get_elem? column i) [
  | none ↦ raised index_error
  | some a ↦ ok (some a)
]

-- `dict(metadata) if metadata is not None else {}`, also where there is no such column
abbrev pub metadata_or_empty : {J : Type 0} → Option (Option (Dict Text J)) → Dict Text J
metadata_or_empty none = []
metadata_or_empty (some none) = []
metadata_or_empty (some (some m)) = m

abbrev pub document_or_none : {J : Type 0} → Option (Option J) → Option J
document_or_none none = none
document_or_none (some document) = document

module _ {J X : Type 0} (index_error : X) where
  -- The body of the loop: the row of an identifier and its index.
  unfoldable pub row_at : GetResult J → ℕ → J → Outcome X (Row J)
  unfolding at_index
  row_at result i entity_id = elim (at_index index_error result.embeddings i) [
    | raised x ↦ raised x
    | ok vector ↦ elim (at_index index_error result.metadatas i) [
      | raised x ↦ raised x
      | ok metadata ↦ elim (at_index index_error result.documents i) [
        | raised x ↦ raised x
        | ok document ↦ ok (record {
          id = entity_id;
          vector = vector;
          metadata = metadata_or_empty metadata;
          document = document_or_none document;
        })
      ]
    ]
  ]

  -- `for i, entity_id in enumerate(ids)`, from an index on
  unfoldable pub rows_from : GetResult J → ℕ → List J → Outcome X (List (Row J))
  unfolding row_at
  rows_from result i [] = ok []
  rows_from result i (entity_id ∷ ids) = elim (row_at result i entity_id) [
    | raised x ↦ raised x
    | ok row ↦ elim (rows_from result (suc i) ids) [
      | raised x ↦ raised x
      | ok rows ↦ ok (row ∷ rows)
    ]
  ]

  abbrev pub or_empty : Option (List J) → List J
  or_empty none = []
  or_empty (some ids) = ids

  unfoldable pub get_result_to_rows : GetResult J → Outcome X (List (Row J))
  unfolding rows_from
  get_result_to_rows result = rows_from result 0 (or_empty result.ids)

  -- `(result.get("ids") or [[]])[0]`
  abbrev pub first_ids : Option (List (List J)) → List J
  first_ids none = []
  first_ids (some []) = []
  first_ids (some (ids ∷ _)) = ids

  -- The columns of the first vector.
  unfoldable pub first_result : QueryResult J → Outcome X (GetResult J)
  unfolding at_index
  first_result result = elim (at_index index_error result.embeddings 0) [
    | raised x ↦ raised x
    | ok embeddings ↦ elim (at_index index_error result.metadatas 0) [
      | raised x ↦ raised x
      | ok metadatas ↦ elim (at_index index_error result.documents 0) [
        | raised x ↦ raised x
        | ok documents ↦ ok (record {
          ids = some (first_ids result.ids);
          embeddings = embeddings;
          metadatas = metadatas;
          documents = documents;
        })
      ]
    ]
  ]

  unfoldable pub query_result_to_rows : QueryResult J → Outcome X (List (Row J))
  unfolding first_result rows_from
  query_result_to_rows result = elim (first_result result) [
    | raised x ↦ raised x
    | ok columns ↦ rows_from columns 0 (first_ids result.ids)
  ]
