-- ===== src/Mongo/Tests.antt =====
-- The theorems about the MongoDB adapter at concrete inputs, on the server that finds nothing.
use openframe_adapters.Prelude.{◌≡◌, refl, none, some, [], ◌∷◌, codes}
use openframe_adapters.Effect.{raised}
use openframe_adapters.Effect.Errors.{failure_of, query_error}
use openframe_adapters.Dict.{text_eq, lookup, pop}
use openframe_adapters.Dict.Keys.{nat_eq}
use openframe_adapters.Mongo.Connection.{client_key}
use openframe_adapters.Mongo.Documents.{object, base_entity_to_doc, serialise_doc}
use openframe_adapters.Mongo.Repository.{update}
use openframe_adapters.Mongo.Aliasing.{second_update_refused}
use openframe_adapters.Mongo.Serialising.{lookup-serialise_doc}
use openframe_adapters.Mongo.Fake.{fake, repo, shirt, warm}

second_update_refused_example :
    (lookup ⦃e = nat_eq⦄ 0 (update fake repo (object 0) warm).1.0.objects
      ≡ some ((codes "size", codes "L") ∷ []))
    × (update fake repo (object 0) (update fake repo (object 0) warm).1 ≡ (
      raised (failure_of "mongo" query_error "update" none),
      (update fake repo (object 0) warm).1,
    ))
unfolding fake lookup pop client_key base_entity_to_doc
second_update_refused_example =
    second_update_refused fake repo warm (object 0) {client = 7} {fields = shirt} refl refl refl
      refl refl refl

lookup-serialise_doc_example :
    lookup (codes "id") (serialise_doc fake ((codes "_id", codes "7") ∷ [])) ≡ some (codes "7")
unfolding fake lookup
lookup-serialise_doc_example =
    lookup-serialise_doc fake ((codes "_id", codes "7") ∷ []) (codes "id")
