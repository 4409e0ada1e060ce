-- ===== src/Milvus/Storing.antt =====
-- What `get` of the Milvus repository returns after `create`, `update` and `delete`, on a server that
-- keeps rows under their identifiers.
use openframe_adapters.Prelude.{
  Bool, true, false, ◌≡◌, Option, none, some, List, [], ◌∷◌, Text, arith, inl, inr, Option-cases,
}
use openframe_adapters.Effect.{Action, ◌>>=◌, pure, ◌>>◌, ok}
use openframe_adapters.Effect.Errors.{Failure}
use openframe_adapters.Dict.{Dict, text_eq, lookup}
use openframe_adapters.Milvus.Driver.{Driver}
use openframe_adapters.Milvus.Connection.{
  World, ClientKey, World, client_key, client_key_eq, get_milvus_client,
}
use openframe_adapters.Milvus.Repository.{row_of, update, create, delete, Repo, get, entity_of}

abbrev pub rows : {A : Type 0} → Option A → List A
rows none = []
rows (some r) = r ∷ []

abbrev pub is_kept : {A : Type 0} → Option A → Bool
is_kept none = false
is_kept (some r) = true

-- The server keeps, in each collection, a row or none under each identifier: `get` reads it, `upsert`
-- of a row keeps it under its identifier, and after `delete` there is none.
pub record KeepsRows {C J S X : Type 0} (d : Driver C J S X) (id_field : Text)
    (kept : S → Text → Option J → Option (Dict Text J)) : Type 0 where
  pub get_reads :
      (c : C) (n : Text) (i : Option J) (s : S) → d.get c n (i ∷ []) s ≡ (ok (rows (kept s n i)), s)
  pub upsert_returns :
      (c : C) (n : Text) (row : Dict Text J) (s : S) → (d.upsert c n (row ∷ []) s).0 ≡ ok tt
  pub upsert_keeps :
      (c : C) (n : Text) (row : Dict Text J) (s : S)
      → kept (d.upsert c n (row ∷ []) s).1 n (lookup id_field row) ≡ some row
  pub delete_returns :
      (c : C) (n : Text) (i : Option J) (s : S) → (d.delete c n (i ∷ []) s).0 ≡ ok tt
  pub delete_removes :
      (c : C) (n : Text) (i : Option J) (s : S) → kept (d.delete c n (i ∷ []) s).1 n i ≡ none

module _ {C J S X T : Type 0} (d : Driver C J S X) (self : Repo J X T) where
  -- An operation, and `get` after it.
  abbrev pub update_then_get : T → Option J → Action (World C S) (Failure X) (Option T × Option T)
  update_then_get entity i = do
    found ← update d self entity
    stored ← get d self i
    pure (found, stored)

  abbrev pub delete_then_get : J → Action (World C S) (Failure X) (Bool × Option T)
  delete_then_get i = do
    deleted ← delete d self i
    stored ← get d self (some i)
    pure (deleted, stored)

-- What an update returns and what is read after it, by the row that was kept before.
abbrev pub updated : {R T : Type 0} → T → T → Option R → Option T × Option T
updated entity again none = (none, none)
updated entity again (some row) = (some entity, some again)

module _ {C J S X T : Type 0} (d : Driver C J S X) (self : Repo J X T)
    (kept : S → Text → Option J → Option (Dict Text J)) (server : KeepsRows d self.id_field kept)
    (read : Dict Text J → T)
    (reads : (r : Dict Text J) → self.class_of.row_to_entity r ≡ ok (read r)) {client : C}
    (cache : Dict ClientKey C)
    (cached : lookup (client_key self.settings) cache ≡ some client) where
  -- What `get` returns, by the row that is kept.
  abbrev pub found_row : Option (Dict Text J) → Option T
  found_row none = none
  found_row (some r) = some (read r)

  get_kept :
      (i : Option J) (s : S)
      → get d self i (cache, s) ≡ (ok (found_row (kept s self.collection_name i)), (cache, s))
  unfolding get get_milvus_client entity_of
  get_kept i s = elim (Option-cases (kept s self.collection_name i)) [
    | inl p ↦ ground (arith, cached, server.get_reads client self.collection_name i s, p)
    | inr (r, p) ↦
        ground (arith, cached, server.get_reads client self.collection_name i s, p, reads r)
  ]

  module _ (write : T → Dict Text J)
      (writes : (e : T) → self.class_of.entity_to_row e ≡ ok (write e)) where
    abbrev pub id_of : T → Option J
    id_of entity = lookup self.id_field (write entity)

    -- On a Milvus server that keeps rows under their identifiers, with a client in the cache and
    -- hooks that return: `create` of an entity and then `get` of its identifier return what
    -- `_row_to_entity` makes of its row, and leave the server as the upsert does.
    pub created_is_read :
        (entity : T) (s : S)
        → (create d self entity >> get d self (id_of entity)) (cache, s) ≡ (
          ok (some (read (write entity))),
          (cache, (d.upsert client self.collection_name (write entity ∷ []) s).1),
        )
    unfolding create get_milvus_client row_of
    created_is_read entity s =
        let after = (d.upsert client self.collection_name (write entity ∷ []) s).1 in
        ground (
          arith,
          cached,
          writes entity,
          server.upsert_returns client self.collection_name (write entity) s,
          server.upsert_keeps client self.collection_name (write entity) s,
          get_kept (id_of entity) after,
        )

    -- On a Milvus server that keeps rows under their identifiers, with a client in the cache and
    -- hooks that return: `update` of an entity whose identifier has no row returns `None`, and
    -- `get` then finds none; of one that has a row it returns the entity, and `get` then returns
    -- what `_row_to_entity` makes of its row.
    pub updated_is_read :
        (entity : T) (s : S)
        → (update_then_get d self entity (id_of entity) (cache, s)).0
          ≡ ok (updated entity (read (write entity)) (kept s self.collection_name (id_of entity)))
    unfolding update get_milvus_client row_of
    updated_is_read entity s =
        let after = (d.upsert client self.collection_name (write entity ∷ []) s).1 in
        elim (Option-cases (kept s self.collection_name (id_of entity))) [
          | inl p ↦ ground (arith, cached, writes entity, get_kept (id_of entity) s, p)
          | inr (row, p) ↦ ground (
            arith,
            cached,
            writes entity,
            p,
            server.upsert_returns client self.collection_name (write entity) s,
            server.upsert_keeps client self.collection_name (write entity) s,
            get_kept (id_of entity) s,
            get_kept (id_of entity) after,
          )
        ]

    -- With a client in the cache, `delete` of an identifier says whether the collection kept a row
    -- for it, and `get` then returns `None`.
    pub deleted_is_gone :
        (i : J) (s : S)
        → (delete_then_get d self i (cache, s)).0
          ≡ ok (is_kept (kept s self.collection_name (some i)), none)
    unfolding delete get_milvus_client
    deleted_is_gone i s =
        let after = (d.delete client self.collection_name (some i ∷ []) s).1 in
        elim (Option-cases (kept s self.collection_name (some i))) [
          | inl p ↦ ground (arith, cached, get_kept (some i) s, p)
          | inr (row, p) ↦ ground (
            arith,
            cached,
            p,
            server.delete_returns client self.collection_name (some i) s,
            server.delete_removes client self.collection_name (some i) s,
            get_kept (some i) s,
            get_kept (some i) after,
          )
        ]
