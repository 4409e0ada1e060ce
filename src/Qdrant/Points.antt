-- ===== src/Qdrant/Points.antt =====
-- The default `_entity_to_point` and `_point_to_entity` of repository.py of the Qdrant adapter, on the
-- entity's dict (or the `vars` of an object): a point and back is the same dict.
use openframe_adapters.Prelude.{
  ◌≡◌, ap, ◌∙◌, Option-cases, inl, inr, refl, Option, none, some, [], ◌∷◌, Text, codes, eq_text,
  ◌||◌, arith, if◌then◌else◌,
}
use openframe_adapters.Effect.{Outcome, ok, raised}
use openframe_adapters.Dict.{Dict, text_eq, text_iff, lookup, insert, lookup-insert}
use openframe_adapters.Qdrant.Driver.{Point}

-- `d.update(other)`
unfoldable pub update_from : {J : Type 0} → Dict Text J → Dict Text J → Dict Text J
update_from d [] = d
update_from d ((k, v) ∷ other) = update_from (insert k v d) other

-- `{k: v for k, v in data.items() if k not in ("id", "vector")}`
unfoldable pub payload_of : {J : Type 0} → Dict Text J → Dict Text J
payload_of [] = []
payload_of ((k, v) ∷ fields) =
    let rest = payload_of fields in
    if eq_text k (codes "id") || eq_text k (codes "vector") then rest else (k, v) ∷ rest

-- `_entity_to_point`, given the KeyError of a missing key
unfoldable pub base_entity_to_point : {J X : Type 0} → X → Dict Text J → Outcome X (Point J)
unfolding payload_of
base_entity_to_point key_error fields = elim (lookup (codes "id") fields) [
  | none ↦ raised key_error
  | some i ↦ elim (lookup (codes "vector") fields) [
    | none ↦ raised key_error
    | some v ↦ ok (record { id = i; vector = v; payload = some (payload_of fields) })
  ]
]

-- `point.payload or {}`
abbrev pub payload_or_empty : {J : Type 0} → Option (Dict Text J) → Dict Text J
payload_or_empty none = []
payload_or_empty (some payload) = payload

-- `_point_to_entity`
unfoldable pub base_point_to_entity : {J : Type 0} → Point J → Dict Text J
unfolding update_from
base_point_to_entity point =
    update_from ((codes "id", point.id) ∷ (codes "vector", point.vector) ∷ [])
      (payload_or_empty point.payload)

module _ {J : Type 0} where
  -- Every key is there once, as in a dict.
  abbrev pub HasDistinctKeys : Dict Text J → Type 0
  HasDistinctKeys [] = Unit
  HasDistinctKeys ((k, v) ∷ d) = (lookup k d ≡ none) × HasDistinctKeys d

  -- What the other dict has wins.
  abbrev pub overlaid : Option J → Option J → Option J
  overlaid none below = below
  overlaid (some v) below = some v

  lookup-update_from :
      (j : Text) (d other : Dict Text J)
      → HasDistinctKeys other
      → lookup j (update_from d other) ≡ overlaid (lookup j other) (lookup j d)
  unfolding lookup update_from
  lookup-update_from j d [] h = refl
  lookup-update_from j d ((k, v) ∷ other) h = ground (
    arith,
    text_iff k j,
    lookup-update_from j (insert k v d) other h.1,
    lookup-insert k j v d,
    h.0,
  )

  lookup-payload_of :
      (j : Text) (d : Dict Text J)
      → lookup j (payload_of d)
        ≡ (if eq_text j (codes "id") || eq_text j (codes "vector") then none else lookup j d)
  unfolding lookup payload_of
  lookup-payload_of j [] = ground arith
  lookup-payload_of j ((k, v) ∷ d) = ground (arith, text_iff k j, lookup-payload_of j d)

  payload_of-HasDistinctKeys :
      (d : Dict Text J) → HasDistinctKeys d → HasDistinctKeys (payload_of d)
  unfolding payload_of
  payload_of-HasDistinctKeys [] h = h
  payload_of-HasDistinctKeys ((k, v) ∷ d) h =
      ground (arith, lookup-payload_of k d, payload_of-HasDistinctKeys d h.1, h.0)

  -- Two entries beside the others, read back.
  overlaid-lookup :
      (a b k : Text) (d : Dict Text J) {i v : J}
      → lookup a d ≡ some i
      → lookup b d ≡ some v
      → overlaid
          (if eq_text k a || eq_text k b then none else lookup k d)
          (lookup k ((a, i) ∷ (b, v) ∷ []))
        ≡ lookup k d
  unfolding lookup
  overlaid-lookup a b k d p q =
      ground (arith, p, q, text_iff a k, text_iff k a, text_iff b k, text_iff k b)

  -- Where the dict of an entity has every key once and `_entity_to_point` makes a Qdrant point of
  -- it, `_point_to_entity` gives back a dict with the same value, or none, at every key.
  pub entity_of_point :
      {X : Type 0} (key_error : X) (fields : Dict Text J) (point : Point J)
      → HasDistinctKeys fields
      → base_entity_to_point key_error fields ≡ ok point
      → (k : Text) → lookup k (base_point_to_entity point) ≡ lookup k fields
  unfolding base_entity_to_point base_point_to_entity
  entity_of_point key_error fields point h e k = elim (Option-cases (lookup (codes "id") fields)) [
    | inl p ↦ absurd (ground (arith, p, e))
    | inr (i, p) ↦ elim (Option-cases (lookup (codes "vector") fields)) [
      | inl q ↦ absurd (ground (arith, p, q, e))
      | inr (v, q) ↦ same i v p q (ground (arith, p, q, e))
    ]
  ]
    where
      same :
          (i v : J)
          → lookup (codes "id") fields ≡ some i
          → lookup (codes "vector") fields ≡ some v
          → point ≡ record { id = i; vector = v; payload = some (payload_of fields) }
          → lookup k (base_point_to_entity point) ≡ lookup k fields
      same i v p q r = rw r (
          lookup-update_from k _ (payload_of fields) (payload_of-HasDistinctKeys fields h)
          ∙ ap (λ o. overlaid o (lookup k ((codes "id", i) ∷ (codes "vector", v) ∷ [])))
              (lookup-payload_of k fields)
          ∙ overlaid-lookup (codes "id") (codes "vector") k fields p q)
