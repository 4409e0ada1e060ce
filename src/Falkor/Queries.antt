-- ===== src/Falkor/Queries.antt =====
-- The Cypher of repository.py of the FalkorDB adapter, which differs in the label alone.
use openframe_adapters.Prelude.{Text, ◌++◌, codes}

unfoldable pub get_query : Text → Text
get_query label = codes "MATCH (n:" ++ (label ++ codes ") WHERE n.id = $id RETURN n LIMIT 1")

unfoldable pub rows_query : Text → Text
rows_query label =
    codes "MATCH (n:" ++ (label ++ codes ") RETURN n ORDER BY n.id SKIP $offset LIMIT $limit")

unfoldable pub count_query : Text → Text
count_query label = codes "MATCH (n:" ++ (label ++ codes ") RETURN count(n)")

unfoldable pub create_query : Text → Text
create_query label = codes "CREATE (n:" ++ (label ++ codes ") SET n = $props RETURN n")

unfoldable pub update_query : Text → Text
update_query label =
    codes "MATCH (n:" ++ (label ++ codes ") WHERE n.id = $id SET n += $props RETURN n")

unfoldable pub delete_query : Text → Text
delete_query label = codes "MATCH (n:" ++ (label ++ codes ") WHERE n.id = $id DETACH DELETE n")
