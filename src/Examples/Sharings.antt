-- ===== src/Examples/Sharings.antt =====
-- gateway/shard.go, a shard that its Open and a Stop use at once, at concrete inputs.
use sandwich_producer.Base.{
  ℕ, pos, ◌*ℤ◌, ◌-ℤ◌, wrap64, rem_ℤ, quot_ℤ, ◌≡◌, refl, arith, List, [], ◌∷◌, none, some, get_elem?,
  nil_dereference, external,
}
use sandwich_producer.Identify.{identify_key, go_rem}
use sandwich_producer.Shard.{State, conn_of, read_message}
use sandwich_producer.Shard.Connect.{ticker_interval, heartbeat_failures, tick}
use sandwich_producer.Shard.Sharing.{
  testing, cleared, close_step, idle, selecting, crashed, Answer, dial_step, limit_step, greet_step,
  loop_step, Event, loops, stops, step, run,
}
use sandwich_producer.Shard.Sharing.Crashes.{run-crashed}
use sandwich_producer.Shard.Sharing.Revival.{race, with_stop, stop_revives}
use sandwich_producer.Examples.Shards.{lib, up, gateway, open_state, message}

abbrev quick : Answer
quick = record {
  dial = record { conn = some 7; err = none };
  read = message;
  written = none;
  closed = none;
  tick = none;
}

-- Open dials, a Stop closes and clears the connection, and Open reads from it.
abbrev unlucky : List Event
unlucky = loops quick ∷ loops quick ∷ stops 0 none ∷ stops 0 none ∷ stops 0 none ∷ loops quick ∷ []

unlucky_crashes :
    (run lib up unlucky (record { state = open_state; loop = idle; stops = testing ∷ [] })).loop
    ≡ crashed nil_dereference
unfolding run step loop_step close_step dial_step limit_step greet_step identify_key go_rem conn_of
    read_message
unlucky_crashes = refl

run-crashed_example :
    (i : ℕ) × (get_elem?
        (run lib up unlucky
          (record { state = open_state; loop = idle; stops = testing ∷ [] })).stops
        i
      ≡ some cleared)
run-crashed_example =
    run-crashed lib up gateway refl unlucky open_state (testing ∷ [])
      ((λ e. cc), ((λ e. cc), (tt, (tt, (tt, ((λ e. cc), tt)))))) unlucky_crashes

stop_revives_example :
    (s' : State) × (run lib up
        (race 8 [] (external 0) (pos 9))
        (with_stop open_state (selecting (pos 100)) testing)
      ≡ with_stop s'
          (selecting (
            heartbeat_failures
              (ticker_interval (record { heartbeat_interval = pos 41250 }))
              (pos 5)))
          cleared)
    × (s'.shard.ws_conn ≡ some 8)
unfolding identify_key go_rem ticker_interval wrap64 ◌*ℤ◌ rem_ℤ ◌-ℤ◌ quot_ℤ
stop_revives_example =
    stop_revives lib up open_state (pos 100) (pos 9) 7 8 (external 0) (pos 0) []
      open_state.shard.msg (record { heartbeat_interval = pos 41250 }) refl (λ _. refl) refl refl
      refl (omega arith)
