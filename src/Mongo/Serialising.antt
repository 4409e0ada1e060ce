-- ===== src/Mongo/Serialising.antt =====
-- `_serialise_doc` of the MongoDB repository: what the document that it makes has for each key.
use openframe_adapters.Prelude.{
  none, eq_text, if◌then◌else◌, Option, ◌≡◌, some, Text, codes, arith, inl, inr, Option-cases,
}
use openframe_adapters.Dict.{Dict, text_eq, lookup, insert, lookup-insert}
use openframe_adapters.Mongo.Driver.{Driver}
use openframe_adapters.Mongo.Documents.{serialise_doc}

-- `setdefault`, by what a key has.
abbrev pub or_else : {A : Type 0} → Option A → A → Option A
or_else none a = some a
or_else (some b) a = some b

module _ {C J S X : Type 0} (d : Driver C J S X) where
  -- What `_serialise_doc` has for a key: of a document without an `_id` what that has, and of one
  -- whose `_id` is `v` the text of `v` for `_id`, and for `id` if the document has none.
  abbrev pub serialised : Dict Text J → Option J → Text → Option J
  serialised fields none k = lookup k fields
  serialised fields (some v) k =
      if eq_text (codes "_id") k
      then some (d.text_value (d.str v))
      else if eq_text (codes "id") k
      then or_else (lookup (codes "id") fields) (d.text_value (d.str v))
      else lookup k fields

  -- The document that `_serialise_doc` makes has, for every key: of a document without an `_id`,
  -- what that has; of one with an `_id`, the text of the `_id` for `_id`, the document's own `id`
  -- or else the same text for `id`, and for every other key what the document has.
  pub lookup-serialise_doc :
      (fields : Dict Text J) (k : Text)
      → lookup k (serialise_doc d fields) ≡ serialised fields (lookup (codes "_id") fields) k
  unfolding serialise_doc
  lookup-serialise_doc fields k = elim (Option-cases (lookup (codes "_id") fields)) [
    | inl p ↦ ground (arith, p)
    | inr (v, p) ↦
        let t = d.text_value (d.str v) in
        let set = insert (codes "_id") t fields in
        elim (Option-cases (lookup (codes "id") fields)) [
          | inl q ↦ ground (
            arith,
            p,
            q,
            lookup-insert (codes "_id") k t fields,
            lookup-insert (codes "_id") (codes "id") t fields,
            lookup-insert (codes "id") k t set,
          )
          | inr (u, q) ↦ ground (
            arith,
            p,
            q,
            lookup-insert (codes "_id") k t fields,
            lookup-insert (codes "_id") (codes "id") t fields,
          )
        ]
  ]
