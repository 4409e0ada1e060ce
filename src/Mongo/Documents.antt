-- ===== src/Mongo/Documents.antt =====
-- The documents of repository.py of the MongoDB adapter: `_normalise_id`, `_serialise_doc`, and the dict
-- that `_entity_to_doc` returns, which is a copy or the attributes of an object themselves.
use openframe_adapters.Prelude.{ℕ, Option, none, some, [], Text, codes}
use openframe_adapters.Effect.{Action, ◌>>◌, pure, gets}
use openframe_adapters.Effect.Errors.{Failure}
use openframe_adapters.Effect.Objects.{update}
use openframe_adapters.Dict.{Dict, text_eq, lookup, insert}
use openframe_adapters.Dict.Keys.{nat_eq}
use openframe_adapters.Mongo.Driver.{Driver}
use openframe_adapters.Mongo.Connection.{World}

-- The dict of a document: one of its own, or the attributes of the object at an address.
pub data Document (J : Type 0) : Type 0 where
  copied : Dict Text J → Document J
  attributes_of : ℕ → Document J

-- An entity of the default hooks: a dict, or an object.
pub data Entity (J : Type 0) : Type 0 where
  mapping : Dict Text J → Entity J
  object : ℕ → Entity J

-- `_entity_to_doc`: `dict(entity)` is a copy, `vars(entity)` is not.
unfoldable pub base_entity_to_doc : {J : Type 0} → Entity J → Document J
base_entity_to_doc (mapping fields) = copied fields
base_entity_to_doc (object address) = attributes_of address

abbrev or_empty : {J : Type 0} → Option (Dict Text J) → Dict Text J
or_empty none = []
or_empty (some fields) = fields

module _ {C J S X : Type 0} where
  -- The items of a document.
  unfoldable pub items_of : Document J → Action (World C J S) (Failure X) (Dict Text J)
  items_of (copied fields) = pure fields
  items_of (attributes_of address) = gets (λ w. or_empty (lookup ⦃e = nat_eq⦄ address w.0.objects))

  -- The document after an assignment to it.
  unfoldable pub assign : Document J → Dict Text J → Action (World C J S) (Failure X) (Document J)
  assign (copied _) fields = pure (copied fields)
  assign (attributes_of address) fields = do
    update (λ p. record p { objects = insert ⦃e = nat_eq⦄ address fields p.objects })
    pure (attributes_of address)

module _ {C J S X : Type 0} (d : Driver C J S X) where
  -- `_normalise_id`
  unfoldable pub normalise_id : Text → J
  normalise_id entity_id = elim (d.object_id entity_id) [
    | none ↦ d.text_value entity_id
    | some oid ↦ oid
  ]

  abbrev pub with_id : J → Dict Text J → Dict Text J
  with_id v fields = elim (lookup (codes "id") fields) [
    | none ↦ insert (codes "id") v fields
    | some w ↦ fields
  ]

  -- `_serialise_doc`
  unfoldable pub serialise_doc : Dict Text J → Dict Text J
  serialise_doc fields = elim (lookup (codes "_id") fields) [
    | none ↦ fields
    | some v ↦
        (let text = d.text_value (d.str v) in with_id text (insert (codes "_id") text fields))
  ]
