-- ===== src/Mysql/Cursors.antt =====
-- The `async with` blocks around the statements of repository.py of the MySQL adapter.
use openframe_adapters.Effect.{Action, ◌>>=◌, ◌>>◌, pure, finally}
use openframe_adapters.Effect.Errors.{Failure}
use openframe_adapters.Effect.Objects.{call}
use openframe_adapters.Mysql.Driver.{Driver}
use openframe_adapters.Mysql.Connection.{World}

module _ {C K U V R S X : Type 0} (d : Driver C K U V R S X) where
  -- `async with pool.acquire() as conn`, `async with conn.cursor() as cur`
  unfoldable pub with_connection :
      {A : Type 0} → C → (K → Action (World C S) (Failure X) A) → Action (World C S) (Failure X) A
  with_connection pool body = do
    conn ← call (d.acquire pool)
    finally (body conn) (call (d.release pool conn))

  unfoldable pub with_cursor :
      {A : Type 0} → K → (U → Action (World C S) (Failure X) A) → Action (World C S) (Failure X) A
  with_cursor conn body = do
    cur ← call (d.cursor conn)
    finally (body cur) (call (d.close_cursor cur))

  -- Both around the statements of a read, and the same with `conn.commit()` after those of a write.
  unfoldable pub reading :
      {A : Type 0} → C → (U → Action (World C S) (Failure X) A) → Action (World C S) (Failure X) A
  unfolding with_connection with_cursor
  reading pool body = with_connection pool (λ conn. with_cursor conn body)

  unfoldable pub writing :
      {A : Type 0} → C → (U → Action (World C S) (Failure X) A) → Action (World C S) (Failure X) A
  unfolding with_connection with_cursor
  writing pool body =
      with_connection pool (λ conn. do a ← with_cursor conn body; call (d.commit conn); pure a)
