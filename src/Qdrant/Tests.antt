-- ===== src/Qdrant/Tests.antt =====
-- The theorems about the Qdrant adapter at concrete inputs, on the collection in memory.
use openframe_adapters.Prelude.{ℕ, ◌≡◌, refl, false, none, some, [], ◌∷◌, codes, Text}
use openframe_adapters.Effect.{ok}
use openframe_adapters.Dict.{Dict, text_eq, lookup}
use openframe_adapters.Qdrant.Connection.{client_key}
use openframe_adapters.Qdrant.Repository.{list, update, delete, entities_of, entity_of}
use openframe_adapters.Qdrant.Points.{
  base_entity_to_point, base_point_to_entity, payload_of, entity_of_point,
}
use openframe_adapters.Qdrant.Listing.{list_slice, missing_untouched}
use openframe_adapters.Qdrant.Fake.{fake, store, warm, three}

list_slice_example : list fake store 5 1 warm ≡ (ok (2 ∷ 3 ∷ [], 3), warm)
unfolding fake lookup client_key entities_of entity_of
list_slice_example = list_slice fake store warm {client = 7} three refl 5 1 (refl, refl)

missing_untouched_example :
    (update fake store 4 warm ≡ (ok none, warm)) × (delete fake store 4 warm ≡ (ok false, warm))
unfolding fake lookup client_key
missing_untouched_example = missing_untouched fake store warm {client = 7} refl 4 4 refl refl

abbrev shirt : Dict Text ℕ
shirt = (codes "size", 40) ∷ (codes "id", 7) ∷ (codes "vector", 9) ∷ []

entity_of_point_example :
    lookup (codes "size") (
      base_point_to_entity
        (record { id = 7; vector = 9; payload = some ((codes "size", 40) ∷ []) }))
    ≡ lookup (codes "size") shirt
unfolding lookup base_entity_to_point payload_of
entity_of_point_example =
    entity_of_point tt shirt
      (record { id = 7; vector = 9; payload = some ((codes "size", 40) ∷ []) })
      (refl, (refl, (refl, tt))) refl (codes "size")
