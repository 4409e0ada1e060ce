-- ===== src/Effect/Errors.antt =====
-- The exceptions that leave the adapters. The classes are named by openframe-core, which the
-- sources import; of an error the class, the adapter, the operation and the cause are kept, and
-- the wording of its message is not.
use openframe_adapters.Prelude.{Option, Bool, true, false, String}

-- The classes of openframe.core.exceptions that the adapters raise.
pub data ErrorClass : Type 0 where
  connection_error query_error timeout_error configuration_error : ErrorClass

pub record AdapterError (X : Type 0) : Type 0 where
  pub error_class : ErrorClass
  pub adapter : String
  pub operation : String
  pub cause : Option X

-- An exception in flight: one of openframe-core, a builtin that an adapter raises itself, or one
-- of type `X` that comes from a driver, from asyncio or from a hook.
pub data Failure (X : Type 0) : Type 0 where
  adapter_error : AdapterError X → Failure X
  runtime_error : Failure X
  type_error : Failure X
  unbound_local_error : Failure X
  attribute_error : Failure X
  outside : X → Failure X

-- `except Exception`, given which outside exceptions it catches (it passes on cancellation).
abbrev pub is_exception : {X : Type 0} → (X → Bool) → Failure X → Bool
is_exception catches (adapter_error e) = true
is_exception catches runtime_error = true
is_exception catches type_error = true
is_exception catches unbound_local_error = true
is_exception catches attribute_error = true
is_exception catches (outside x) = catches x

-- An error of openframe-core, given the name of the adapter.
abbrev pub failure_of : {X : Type 0} → String → ErrorClass → String → Option X → Failure X
failure_of name c op cause =
    adapter_error (record { error_class = c; adapter = name; operation = op; cause = cause })

-- openframe.core.ports.PluginStatus, as far as the adapters name it.
pub data PluginStatus : Type 0 where
  registered initialized ready failed stopping stopped : PluginStatus

-- A health message: a literal of the source, the words `Plugin status: ` with a status, or the
-- `str()` of an exception.
pub data Message (X : Type 0) : Type 0 where
  literal : String → Message X
  plugin_status : PluginStatus → Message X
  str_of : Failure X → Message X

pub record PluginHealth (X : Type 0) : Type 0 where
  pub status : PluginStatus
  pub message : Message X

abbrev pub is_ready : PluginStatus → Bool
is_ready ready = true
is_ready _ = false
