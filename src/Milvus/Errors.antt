-- ===== src/Milvus/Errors.antt =====
-- `_wrap_milvus` of repository.py of the Milvus adapter, and the `except` clauses of every operation.
use openframe_adapters.Prelude.{
  Bool, false, some, List, [], ◌∷◌, Text, codes, eq_text, ◌||◌, if◌then◌else◌, String,
}
use openframe_adapters.Effect.Errors.{
  Failure, failure_of, outside, connection_error, timeout_error, query_error,
}
use openframe_adapters.Milvus.Driver.{Driver, MilvusSettings, asyncio_timeout, milvus_exception}
use openframe_adapters.Milvus.Connection.{looks_like_connection_failure}

-- `name in names`
unfoldable pub is_one_of : Text → List Text → Bool
is_one_of name [] = false
is_one_of name (n ∷ names) = eq_text name n || is_one_of name names

-- `_QUERY_CLASS_EXCEPTION_NAMES`
abbrev pub query_class_exception_names : List Text
query_class_exception_names =
    codes "ParamError"
    ∷ codes "SchemaNotReadyException"
    ∷ codes "CollectionNotExistException"
    ∷ codes "DataNotMatchException"
    ∷ codes "DataTypeNotMatchException"
    ∷ codes "FieldTypeException"
    ∷ codes "FieldsTypeException"
    ∷ codes "PrimaryKeyException"
    ∷ codes "AutoIDException"
    ∷ codes "DescribeCollectionException"
    ∷ codes "AmbiguousIndexName"
    ∷ []

-- `_CONNECTION_CLASS_EXCEPTION_NAMES`
abbrev pub connection_class_exception_names : List Text
connection_class_exception_names =
    codes "ConnectError"
    ∷ codes "ConnectionNotExistException"
    ∷ codes "MilvusUnavailableException"
    ∷ []

module _ {C J S X : Type 0} (d : Driver C J S X) (settings : MilvusSettings) where
  unfoldable pub wrap_milvus : X → String → Failure X
  unfolding is_one_of
  wrap_milvus exc op =
      if is_one_of (d.class_name exc) query_class_exception_names
      then failure_of settings.adapter_name query_error op (some exc)
      else if is_one_of (d.class_name exc) connection_class_exception_names
      then failure_of settings.adapter_name connection_error op (some exc)
      else if looks_like_connection_failure d exc
      then failure_of settings.adapter_name connection_error op (some exc)
      else failure_of settings.adapter_name query_error op (some exc)

  -- The `except` clauses of the operations, in order.
  unfoldable pub statement_error : String → X → Failure X
  unfolding wrap_milvus
  statement_error op exc =
      if d.isinstance exc asyncio_timeout
      then failure_of settings.adapter_name timeout_error op (some exc)
      else if d.isinstance exc milvus_exception
      then wrap_milvus exc op
      else outside exc
