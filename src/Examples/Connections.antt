-- ===== src/Examples/Connections.antt =====
-- gateway/connection.go at concrete inputs.
use sandwich_producer.Base.{◌+◌, ◌≤◌, refl, [], ◌∷◌, System, pick, here, later}
use sandwich_producer.Connection.{Mutexes, new_connection}
use sandwich_producer.Connection.Steps.{
  Pc, outside, locked_write, locked_read, locks_wmux, locks_rmux, Reach, runs,
}
use sandwich_producer.Connection.Exclusion.{in_write, in_read, one_in_write}

-- One goroutine writes while another reads.
abbrev busy : System Mutexes Pc
busy = record {
  shared = record { rmux = 1; wmux = 1 };
  pcs = locked_write (1 ∷ []) ∷ outside ∷ locked_read ∷ [];
}

abbrev half_busy : System Mutexes Pc
half_busy = record {
  shared = record { rmux = 0; wmux = 1 };
  pcs = locked_write (1 ∷ []) ∷ outside ∷ outside ∷ [];
}

busy-Reach : Reach 3 busy
unfolding new_connection
busy-Reach = runs (
    later {t = half_busy}
      (later here (pick [] (outside ∷ outside ∷ []) refl (locks_wmux refl) refl))
      (pick (locked_write (1 ∷ []) ∷ outside ∷ []) [] refl (locks_rmux refl) refl))

one_in_write_example :
    (in_write (locked_write (1 ∷ [])) + in_write locked_read ≤ 1)
    × (in_read (locked_write (1 ∷ [])) + in_read locked_read ≤ 1)
one_in_write_example =
    one_in_write busy-Reach [] (outside ∷ []) [] (locked_write (1 ∷ [])) locked_read refl
