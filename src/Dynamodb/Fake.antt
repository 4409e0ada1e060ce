-- ===== src/Dynamodb/Fake.antt =====
-- A table of three items on three pages: it is what the witnesses run on, and models no code.
use openframe_adapters.Prelude.{ℕ, Bool, true, false, none, some, Option, [], ◌∷◌, codes}
use openframe_adapters.Effect.{ok, raised}
use openframe_adapters.Dynamodb.Driver.{Driver, DynamodbSettings, Response}
use openframe_adapters.Dynamodb.Connection.{World, cache_key}
use openframe_adapters.Dynamodb.Repository.{Repo}

-- Items are numbers; the scan goes on from the key `true`, where an empty page is, and then from `false`.
unfoldable pub served : Bool → Option Bool → Response ℕ Bool
served false none = record {
  items = some (1 ∷ 2 ∷ []);
  count = some 2;
  last_evaluated_key = some true;
}
served false (some true) = record {
  items = some [];
  count = some 0;
  last_evaluated_key = some false;
}
served false (some false) = record {
  items = some (3 ∷ []);
  count = some 1;
  last_evaluated_key = none;
}
served true none = record { items = none; count = some 2; last_evaluated_key = some true }
served true (some true) = record { items = none; count = some 0; last_evaluated_key = some false }
served true (some false) = record { items = none; count = some 1; last_evaluated_key = none }

unfoldable pub fake : Driver ℕ ℕ Bool (Unit {0}) (Unit {0})
fake = record {
  isinstance = λ x c. true;
  code_of = λ x. [];
  enter_resource = λ kwargs s. (ok 7, s);
  exit_resource = λ table s. (ok tt, s);
  get_item = λ table key s. (ok none, s);
  scan = λ table args s. (ok (served args.select_count args.exclusive_start_key), s);
  put_item = λ table item s. (ok tt, s);
  put_existing_item = λ table item id_column s. (raised tt, s);
  delete_item = λ table key s. (ok none, s);
  describe_table = λ table name s. (ok tt, s);
}

abbrev pub shop : DynamodbSettings
shop = record {
  aws_region = codes "eu-west-1";
  table_name = codes "items";
  endpoint_url = none;
  aws_access_key_id = none;
  aws_secret_access_key = none;
  aws_session_token = none;
  adapter_name = "dynamodb";
}

abbrev pub items : Repo ℕ (Unit {0}) ℕ
items = record {
  settings = shop;
  id_column = codes "id";
  class_of = record {
    class_id_column = codes "id";
    row_to_entity = λ r. ok r;
    entity_to_row = λ e. ok e;
  };
}

abbrev pub warm : World ℕ (Unit {0})
warm = ((cache_key shop, 7) ∷ [], tt)
