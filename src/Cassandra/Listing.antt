-- ===== src/Cassandra/Listing.antt =====
-- `list` of the Cassandra repository against a table that holds rows, and what the key of the session
-- cache leaves out.
use openframe_adapters.Prelude.{
  ℕ, zero, suc, ◌+◌, ◌≡◌, refl, ap, ◌∙◌, Option, none, some, List, [], ◌∷◌, Text, take, drop,
  drop-take, length, arith,
}
use openframe_adapters.Effect.{ok, ◌>>=◌, pure}
use openframe_adapters.Dict.{lookup}
use openframe_adapters.Sql.{number}
use openframe_adapters.Cassandra.Driver.{Driver, CassandraSettings}
use openframe_adapters.Cassandra.Connection.{
  World, session_key, session_key_eq, get_cassandra_session,
}
use openframe_adapters.Cassandra.Repository.{
  Repo, rows_query, count_query, execute, extract_count, entities_of, list,
}

take-take : {A : Type 0} (n : ℕ) (xs : List A) → take n (take n xs) ≡ take n xs
take-take zero xs = refl
take-take (suc n) [] = refl
take-take (suc n) (x ∷ xs) = ap (◌∷◌ x) (take-take n xs)

take_comm : {A : Type 0} (m n : ℕ) (xs : List A) → take m (take n xs) ≡ take n (take m xs)
take_comm zero zero xs = refl
take_comm zero (suc n) xs = refl
take_comm (suc m) zero xs = refl
take_comm (suc m) (suc n) [] = refl
take_comm (suc m) (suc n) (x ∷ xs) = ap (◌∷◌ x) (take_comm m n xs)

page :
    {A : Type 0} (limit offset size : ℕ) (xs : List A)
    → drop offset (take (offset + limit) (take size (take (limit + offset) xs)))
      ≡ take limit (drop offset (take size xs))
page limit offset size xs =
    ap (λ ys. drop offset (take (offset + limit) ys)) (take_comm size (limit + offset) xs)
    ∙ ap (λ n. drop offset (take (offset + limit) (take n (take size xs)))) (omega arith)
    ∙ ap (drop offset) (take-take (offset + limit) (take size xs))
    ∙ drop-take offset limit (take size xs)

module _ {C V R S X T : Type 0} (d : Driver C V R S X) (self : Repo V R X T) (w : World C S) where
  -- For the `LIMIT` `n` the callback is given the first `n` rows, and of them no more than a page
  -- has; the count query gives one row, which holds the number of all rows.
  pub record HoldsRows (n fetch_size : ℕ) (session : C) (rows : List R) (counted : R) : Type 0 where
    pub selects :
        d.execute session (rows_query self.table) (some (number n ∷ [])) w.1
        ≡ (ok (take fetch_size (take n rows)), w.1)
    pub counts : d.execute session (count_query self.table) none w.1 ≡ (ok (counted ∷ []), w.1)
    pub reads : d.first_int counted ≡ ok (length rows)

  -- With a Cassandra session in the cache, where the query with the `LIMIT` `limit + offset`
  -- (which CQL refuses at 0) gives the first rows of the table up to this limit but no more than
  -- one page of them, as the callback of the driver is given the first page alone, and the count
  -- query a row with the number of all rows: `list` does what taking `limit` rows from the offset
  -- `offset` of the first page of the table, converting them and counting all rows does, so that a
  -- row behind the first page is never listed.
  pub list_rows :
      {fetch_size : ℕ} {session : C} {rows : List R} {counted : R}
      → lookup (session_key self.settings) w.0 ≡ some session
      → (limit offset : ℕ) → HoldsRows (limit + offset) fetch_size session rows counted
      → list d self limit offset w
        ≡ (do
          entities ← entities_of d self (take limit (drop offset (take fetch_size rows)))
          pure (entities, length rows))
            w
  unfolding list execute get_cassandra_session extract_count
  list_rows {fetch_size} {rows = rows} cached limit offset holds =
      ground
        (arith, cached, holds.selects, holds.counts, holds.reads, page limit offset fetch_size rows)

-- With a Cassandra session in the cache for some settings, `get_cassandra_session` for settings
-- that differ in the password alone, whatever it is, returns that session and connects with
-- nothing.
pub password_not_in_key :
    {C V R S X : Type 0} (d : Driver C V R S X) (settings : CassandraSettings) (other : Option Text)
    (w : World C S) {session : C}
    → lookup (session_key settings) w.0 ≡ some session
    → get_cassandra_session d (record settings { password = other }) w ≡ (ok session, w)
unfolding get_cassandra_session session_key
password_not_in_key d settings other w cached = ground (arith, cached)
