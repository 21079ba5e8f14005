-- ===== src/Connection/Steps.antt =====
-- gateway/connection.go: goroutines that call Write, Read, Close and CloseWithCode of one connection,
-- interleaved at the mutexes and at the calls of the websocket.
use sandwich_producer.Base.{ℕ, zero, suc, ℤ, ◌≡◌, List, [], ◌∷◌, System, Steps}
use sandwich_producer.Connection.{Mutexes, new_connection}

-- Where a goroutine stands: outside the connection, with a mutex and about to call the websocket or to
-- unlock, or in a call of the websocket.
pub data Pc : Type 0 where
  outside : Pc
  locked_write : List ℕ → Pc
  writing : List ℕ → Pc
  written : Pc
  locked_read : Pc
  reading : Pc
  read : Pc
  closing : ℤ → Pc

pub data ConnectionMove (c : Mutexes) : Pc → Mutexes → Pc → Type 0 where
  locks_wmux :
      {d : List ℕ} → c.wmux ≡ 0 → ConnectionMove c outside (record c { wmux = 1 }) (locked_write d)
  starts_write : {d : List ℕ} → ConnectionMove c (locked_write d) c (writing d)
  ends_write : {d : List ℕ} → ConnectionMove c (writing d) c written
  unlocks_wmux : ConnectionMove c written (record c { wmux = 0 }) outside
  locks_rmux : c.rmux ≡ 0 → ConnectionMove c outside (record c { rmux = 1 }) locked_read
  starts_read : ConnectionMove c locked_read c reading
  ends_read : ConnectionMove c reading c read
  unlocks_rmux : ConnectionMove c read (record c { rmux = 0 }) outside
  starts_close : {code : ℤ} → ConnectionMove c outside c (closing code)
  ends_close : {code : ℤ} → ConnectionMove c (closing code) c outside

abbrev pub all_outside : ℕ → List Pc
all_outside zero = []
all_outside (suc k) = outside ∷ all_outside k

-- What `k` goroutines can reach on a new connection.
pub data Reach (k : ℕ) (s : System Mutexes Pc) : Type 0 where
  runs :
      Steps ConnectionMove (record { shared = new_connection; pcs = all_outside k }) s → Reach k s
