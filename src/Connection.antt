-- ===== src/Connection.antt =====
-- gateway/connection.go: a wrapper of a websocket, with a mutex for its reads and one for its writes.
-- The websocket library (gorilla) is a parameter.
pub mod Steps
pub mod Exclusion
use sandwich_producer.Base.{ℕ, ℤ, List, Option, String, GoError, length}

-- What the wrapper uses of a *websocket.Conn: the errors and the messages that its calls return.
pub record Websocket : Type 0 where
  pub close_message : ℤ
  pub binary_message : ℤ
  pub close_normal_closure : ℤ
  pub format_close_message : ℤ → String → List ℕ
  pub write_message : ℤ → List ℕ → Option GoError
  pub next_message : ℤ × List ℕ × Option GoError

-- The mutexes of a Connection, locked or not.
pub record Mutexes : Type 0 where
  pub rmux : ℕ
  pub wmux : ℕ

-- NewConnection
unfoldable pub new_connection : Mutexes
new_connection = record { rmux = 0; wmux = 0 }

module _ (ws : Websocket) where
  unfoldable pub close_with_code : ℤ → Option GoError
  close_with_code code =
      ws.write_message ws.close_message (ws.format_close_message code "Normal Closure")

  -- Close
  unfoldable pub close_connection : Option GoError
  unfolding close_with_code
  close_connection = close_with_code ws.close_normal_closure

  -- Write: the number of bytes is that of the message, an error or not.
  unfoldable pub write_connection : List ℕ → ℕ × Option GoError
  write_connection d = (length d, ws.write_message ws.binary_message d)

  -- Read: a message of either type is returned as it is.
  unfoldable pub read_connection : List ℕ × Option GoError
  read_connection = let (t, d, err) = ws.next_message in (d, err)
