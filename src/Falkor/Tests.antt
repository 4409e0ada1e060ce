-- ===== src/Falkor/Tests.antt =====
-- The theorems about the FalkorDB adapter at concrete inputs.
use openframe_adapters.Prelude.{ℕ, ◌≡◌, ◌↔◌, refl, true, ◌++◌, [], ◌∷◌, codes}
use openframe_adapters.Effect.{ok}
use openframe_adapters.Dict.{lookup, insert}
use openframe_adapters.Lifecycle.{fresh, get_held, initialize_with}
use openframe_adapters.Lifecycle.Checks.{checked, probed}
use openframe_adapters.Lifecycle.Single.{connect, initialize}
use openframe_adapters.Lifecycle.SingleLife.{initialize_gives_out}
use openframe_adapters.Falkor.Plugin.{Plugin, backend}
use openframe_adapters.Falkor.Connection.{client_key, get_falkordb_client}
use openframe_adapters.Falkor.Labels.{
  accepts_node_label, WithLineFeed, is_identifier, accepts_node_label_iff,
}
use openframe_adapters.Falkor.Repository.{ensure_ready, get_graph, health}
use openframe_adapters.Falkor.Ensuring.{ensure_ready_again}
use openframe_adapters.Falkor.Fake.{fake, repo, cold, prepared}

-- The line feed at the end goes through.
accepts_node_label_iff_example :
    (accepts_node_label (codes "Entity" ++ 10 ∷ []) ≡ true)
    ↔ WithLineFeed is_identifier (codes "Entity" ++ 10 ∷ [])
accepts_node_label_iff_example = accepts_node_label_iff (codes "Entity" ++ 10 ∷ [])

ensure_ready_again_example : ensure_ready fake repo prepared ≡ (ok tt, prepared)
unfolding fake lookup insert client_key ensure_ready get_graph get_falkordb_client
ensure_ready_again_example = ensure_ready_again fake repo cold {w' = prepared} refl

abbrev plugin : Plugin ℕ (Unit {0}) ℕ
plugin = record { settings = repo.settings; repository_class = repo.class_of }

initialize_gives_out_example :
    get_held {X = Unit {0}} (initialize (backend fake plugin) (fresh, cold)).1.0 ≡ ok repo
unfolding fake lookup insert client_key initialize initialize_with connect checked health probed
    ensure_ready get_graph get_falkordb_client
initialize_gives_out_example = initialize_gives_out (backend fake plugin) (fresh, cold)
