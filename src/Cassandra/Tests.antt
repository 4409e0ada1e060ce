-- ===== src/Cassandra/Tests.antt =====
-- The theorems about the Cassandra adapter at concrete inputs, on the table in memory.
use openframe_adapters.Prelude.{◌≡◌, refl, some, [], ◌∷◌, codes}
use openframe_adapters.Effect.{ok}
use openframe_adapters.Dict.{lookup}
use openframe_adapters.Cassandra.Connection.{session_key, get_cassandra_session}
use openframe_adapters.Cassandra.Repository.{list, entities_of, entity_of}
use openframe_adapters.Cassandra.Listing.{list_rows, password_not_in_key}
use openframe_adapters.Cassandra.Fake.{fake, repo, warm}

list_rows_example : list fake repo 5 1 warm ≡ (ok (2 ∷ [], 3), warm)
unfolding fake lookup session_key entities_of entity_of
list_rows_example =
    list_rows fake repo warm {fetch_size = 2} {session = 7} {rows = 1 ∷ 2 ∷ 3 ∷ []} {counted = 3}
      refl 5 1 (record { selects = refl; counts = refl; reads = refl })

password_not_in_key_example :
    get_cassandra_session fake (record repo.settings { password = some (codes "new") }) warm
    ≡ (ok 7, warm)
unfolding lookup session_key
password_not_in_key_example =
    password_not_in_key fake repo.settings (some (codes "new")) warm {session = 7} refl
