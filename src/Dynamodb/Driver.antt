-- ===== src/Dynamodb/Driver.antt =====
-- What the DynamoDB adapter takes from outside: aioboto3, botocore and asyncio, as one record of calls
-- on the state `S` of the outside world; `B` are tables with their resource, `R` items, `L` keys to go
-- on from and `X` exceptions. An awaited call stands for the call inside its `asyncio.timeout` block.
-- Also the settings of
-- packages/openframe-adapters-db-dynamodb/openframe/adapters/db/dynamodb/config.py.
use openframe_adapters.Prelude.{ℕ, Bool, Option, List, Text, String}
use openframe_adapters.Effect.{Action}

-- The exception classes that the sources name; `configuration_exception` stands for the three of
-- `_CONFIGURATION_EXCEPTIONS`.
pub data DynamoClass : Type 0 where
  asyncio_timeout configuration_exception endpoint_connection_error builtin_connection_error :
      DynamoClass
  os_error client_error botocore_error builtin_exception : DynamoClass

pub record DynamodbSettings : Type 0 where
  pub aws_region : Text
  pub table_name : Text
  pub endpoint_url : Option Text
  pub aws_access_key_id : Option Text
  pub aws_secret_access_key : Option Text
  pub aws_session_token : Option Text
  pub adapter_name : String

-- The keyword arguments of `scan`, and the keys of its response that are read.
pub record ScanArgs (L : Type 0) : Type 0 where
  pub select_count : Bool
  pub exclusive_start_key : Option L

pub record Response (R L : Type 0) : Type 0 where
  pub items : Option (List R)
  pub count : Option ℕ
  pub last_evaluated_key : Option L

pub record Driver (B R L S X : Type 0) : Type 0 where
  pub isinstance : X → DynamoClass → Bool
  -- `exc.response.get("Error", {}).get("Code", "")`
  pub code_of : X → Text
  -- `session.resource("dynamodb", …)`, its `__aenter__` with the connection timeout, and its `__aexit__`
  pub enter_resource : List (Text × Text) → Action S X B
  pub exit_resource : B → Action S X (Unit {0})
  -- The methods of the table `settings.dynamodb_table_name` of the resource; `get_item` and
  -- `delete_item` return `response.get("Item")` and `response.get("Attributes")`.
  pub get_item : B → Text × Text → Action S X (Option R)
  pub scan : B → ScanArgs L → Action S X (Response R L)
  pub put_item : B → R → Action S X (Unit {0})
  -- with `ConditionExpression="attribute_exists(#id)"` and the name that `#id` stands for
  pub put_existing_item : B → R → Text → Action S X (Unit {0})
  pub delete_item : B → Text × Text → Action S X (Option R)
  pub describe_table : B → Text → Action S X (Unit {0})
