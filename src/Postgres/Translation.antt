-- ===== src/Postgres/Translation.antt =====
-- What leaves the methods of the repository when a statement fails, and the connection of `list`.
use openframe_adapters.Prelude.{
  List, [], ◌∷◌, ℕ, ℕ, ◌≡◌, refl, false, ◌||◌, Option, some, Text, Bool, String, arith, inl, inr,
}
use openframe_adapters.Effect.{Outcome, ok, raised, Outcome-cases}
use openframe_adapters.Effect.Errors.{
  Failure, adapter_error, runtime_error, type_error, unbound_local_error, attribute_error, outside,
}
use openframe_adapters.Dict.{lookup}
use openframe_adapters.Postgres.Driver.{
  Driver, RepositoryClass, asyncio_timeout, postgres_error, interface_error,
}
use openframe_adapters.Postgres.Connection.{World, pool_key, pool_key_eq}
use openframe_adapters.Postgres.Repository.{
  Repo, get, create, update, delete, statement_error, rows_and_count, both_queries, entities_of,
  list, entity_of, row_of,
}
use openframe_adapters.Postgres.PoolCache.{get_postgres_pool_hit}

-- The classes that the `except` clauses of a statement name.
abbrev pub is_listed : {C K S V R X : Type 0} → Driver C K S V R X → X → Bool
is_listed d x =
    d.isinstance x asyncio_timeout
    || d.isinstance x postgres_error
    || d.isinstance x interface_error

-- The hooks raise no exception of these classes.
pub record HooksPass {C K S V R X T : Type 0} (d : Driver C K S V R X)
    (cls : RepositoryClass V R X T) : Type 0 where
  pub from_passes : (r : Option R) (x : X) → cls.row_to_entity r ≡ raised x → is_listed d x ≡ false
  pub to_passes : (t : T) (x : X) → cls.entity_to_row t ≡ raised x → is_listed d x ≡ false

-- What an exception may be that leaves the method `op`.
abbrev pub Translated : {C K S V R X : Type 0} → Driver C K S V R X → String → Failure X → Type 0
Translated d op (adapter_error a) = a.operation ≡ op
Translated d op (outside x) = is_listed d x ≡ false
Translated d op runtime_error = ⊥
Translated d op type_error = ⊥
Translated d op unbound_local_error = ⊥
Translated d op attribute_error = ⊥

module _ {C K S V R X T : Type 0} (d : Driver C K S V R X) (self : Repo V R X T)
    (pass : HooksPass d self.class_of) (op : String) {e : Failure X} (w : World C S) where
  entity_of-Translated : (r : Option R) → (entity_of d self r w).0 ≡ raised e → Translated d op e
  unfolding entity_of
  entity_of-Translated r h = elim (Outcome-cases (self.class_of.row_to_entity r)) [
    | inl (t, p) ↦ absurd (ground arith)
    | inr (x, p) ↦ ground (arith, pass.from_passes r x p)
  ]

  row_of-Translated : (t : T) → (row_of d self t w).0 ≡ raised e → Translated d op e
  unfolding row_of
  row_of-Translated t h = elim (Outcome-cases (self.class_of.entity_to_row t)) [
    | inl (r, p) ↦ absurd (ground arith)
    | inr (x, p) ↦ ground (arith, pass.to_passes t x p)
  ]

module _ {C K S V R X T : Type 0} (d : Driver C K S V R X) (self : Repo V R X T)
    (pass : HooksPass d self.class_of) (op : String) {e : Failure X} where
  entities_of-Translated :
      (rs : List R) (w : World C S) → (entities_of d self rs w).0 ≡ raised e → Translated d op e
  unfolding entities_of
  entities_of-Translated [] w h = absurd (cc)
  entities_of-Translated (r ∷ rs) w h = ground (
    arith,
    entity_of-Translated d self pass op {e = e} w (some r),
    entities_of-Translated rs (entity_of d self (some r) w).1,
  )

module _ {C K S V R X T : Type 0} (d : Driver C K S V R X) (self : Repo V R X T)
    (pass : HooksPass d self.class_of) {c : C} (w : World C S)
    (cached : lookup (pool_key self.settings) w.pool_cache ≡ some c) {e : Failure X}
    {w' : World C S} where
  get-Translated :
      (entity_id : Text) → get d self entity_id w ≡ (raised e, w') → Translated d "get" e
  unfolding get statement_error
  get-Translated entity_id r = grind (
    arith,
    get_postgres_pool_hit d self.settings w cached,
    entity_of-Translated d self pass "get",
  )

  list-Translated :
      (limit offset : ℕ) → list d self limit offset w ≡ (raised e, w') → Translated d "list" e
  unfolding list rows_and_count both_queries statement_error
  list-Translated limit offset r = grind (
    arith,
    get_postgres_pool_hit d self.settings w cached,
    entities_of-Translated d self pass "list",
  )

  create-Translated :
      (entity : T) → create d self entity w ≡ (raised e, w') → Translated d "create" e
  unfolding create statement_error
  create-Translated entity r = grind (
    arith,
    get_postgres_pool_hit d self.settings w cached,
    entity_of-Translated d self pass "create",
    row_of-Translated d self pass "create",
  )

  update-Translated :
      (entity : T) → update d self entity w ≡ (raised e, w') → Translated d "update" e
  unfolding update statement_error
  update-Translated entity r = grind (
    arith,
    get_postgres_pool_hit d self.settings w cached,
    entity_of-Translated d self pass "update",
    row_of-Translated d self pass "update",
  )

  delete-Translated :
      (entity_id : Text) → delete d self entity_id w ≡ (raised e, w') → Translated d "delete" e
  unfolding delete statement_error
  delete-Translated entity_id r = ground (arith, get_postgres_pool_hit d self.settings w cached)

module _ {C K S V R X T : Type 0} (d : Driver C K S V R X) (self : Repo V R X T) where
  -- Where a connection is acquired, the world that the queries of `list` leave is that of a call
  -- of `release` for this connection after them, whatever they or the call return or raise.
  pub rows_and_count-releases :
      (limit offset : ℕ) (pool : C) (w : World C S) {conn : K} {s : S}
      → d.acquire pool w.database ≡ (ok conn, s)
      → let t = (both_queries d self limit offset conn (record w { database = s })).1.database in
        (rows_and_count d self limit offset pool w).1.database ≡ (d.release pool conn t).1
  unfolding rows_and_count
  rows_and_count-releases limit offset pool w acquired = ground arith

-- What the outcome of the method `op` may be.
abbrev pub Passes :
    {C K S V R X A : Type 0} → Driver C K S V R X → String → Outcome (Failure X) A → Type 0
Passes d op (ok a) = Unit {0}
Passes d op (raised e) = Translated d op e

Translated-Passes :
    {C K S V R X A W : Type 0} (d : Driver C K S V R X) (op : String)
    (r : Outcome (Failure X) A × W)
    → ((e : Failure X) (w : W) → r ≡ (raised e, w) → Translated d op e)
    → Passes d op r.0
Translated-Passes d op (ok a, w) h = tt
Translated-Passes d op (raised e, w) h = h e w refl

module _ {C K S V R X T : Type 0} (d : Driver C K S V R X) (self : Repo V R X T)
    (pass : HooksPass d self.class_of) {c : C} (w : World C S)
    (cached : lookup (pool_key self.settings) w.pool_cache ≡ some c) where
  -- With a pool in the cache, and hooks that raise none of the classes that the `except` clauses
  -- of the statements list: each of `get`, `list`, `create`, `update` and `delete` of the
  -- PostgreSQL repository returns, or raises an error of openframe-core for that operation or an
  -- outside exception of none of the listed classes.
  pub statements-Translated :
      (entity_id : Text) (limit offset : ℕ) (entity : T)
      → Passes d "get" (get d self entity_id w).0
        × Passes d "list" (list d self limit offset w).0
        × Passes d "create" (create d self entity w).0
        × Passes d "update" (update d self entity w).0
        × Passes d "delete" (delete d self entity_id w).0
  statements-Translated entity_id limit offset entity = (
    Translated-Passes d "get" _ (λ e w'. get-Translated d self pass w cached entity_id),
    Translated-Passes d "list" _ (λ e w'. list-Translated d self pass w cached limit offset),
    Translated-Passes d "create" _ (λ e w'. create-Translated d self pass w cached entity),
    Translated-Passes d "update" _ (λ e w'. update-Translated d self pass w cached entity),
    Translated-Passes d "delete" _ (λ e w'. delete-Translated d self pass w cached entity_id),
  )
