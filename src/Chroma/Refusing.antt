-- ===== src/Chroma/Refusing.antt =====
-- What the ChromaDB repository makes of a `ValueError` of chromadb, for a collection at hand.
use openframe_adapters.Prelude.{◌≡◌, true, false, Option, some, List, [], ◌∷◌, arith}
use openframe_adapters.Effect.{raised, ok}
use openframe_adapters.Effect.Errors.{failure_of, query_error, outside}
use openframe_adapters.Chroma.Driver.{
  Driver, Written, asyncio_timeout, httpx_timeout, httpx_transport, chroma_error, value_error,
}
use openframe_adapters.Chroma.Connection.{World}
use openframe_adapters.Chroma.Repository.{
  Repo, EntityRow, create, update, get_collection, row_of, item, statement_error, create_error,
  or_none,
}

module _ {C N J S X T : Type 0} (d : Driver C N J S X) (self : Repo J X T) (w : World C N S) where
  -- With a ChromaDB collection at hand, a complete row of an identifier that is there, and a
  -- ValueError (of no other class that the sources name) that both `add` and `update` of the
  -- collection raise: `create` raises a query error, and `update` lets the ValueError out.
  pub value_error_escapes :
      {collection : N}
      → w.0.collection_cache ≡ some collection
      → (entity : T) {row : EntityRow J} {i : J} {vector : Option J}
      → self.class_of.entity_to_row entity ≡ ok row
      → row.id ≡ some i
      → row.vector ≡ some vector
      → {found : J} {more : List J}
      → d.get_ids collection (i ∷ []) w.1 ≡ (ok (some (found ∷ more)), w.1)
      → {exc : X}
      → (let written : Written J = record {
        embedding = vector;
        metadata = or_none row.metadata;
        document = row.document;
      } in
          (d.add collection i written w.1 ≡ (raised exc, w.1))
          × (d.update collection i written w.1 ≡ (raised exc, w.1)))
      → d.isinstance exc value_error ≡ true
      → d.isinstance exc asyncio_timeout ≡ false
      → d.isinstance exc httpx_timeout ≡ false
      → d.isinstance exc httpx_transport ≡ false
      → d.isinstance exc chroma_error ≡ false
      → (create d self entity w
          ≡ (raised (failure_of self.settings.adapter_name query_error "create" (some exc)), w))
        × (update d self entity w ≡ (raised (outside exc), w))
  unfolding create update get_collection row_of item statement_error create_error
  value_error_escapes cached entity shown named embedded there refused v a b c e =
      ground (arith, cached, shown, named, embedded, there, refused.0, refused.1, v, a, b, c, e)
