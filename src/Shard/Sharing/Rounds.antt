-- ===== src/Shard/Sharing/Rounds.antt =====
-- gateway/shard.go: the steps of the loop, with no Stop in between, against a round of it.
use sandwich_producer.Base.{ℕ, zero, suc, ℤ, ◌≡◌, Outcome, ret, panic, Option, none, some, GoError}
use sandwich_producer.Shard.{Libraries, State}
use sandwich_producer.Shard.Connect.{
  Upstream, Turn, Select, ctx_done, tick, default, Exit, returned, running,
}
use sandwich_producer.Shard.Sharing.{LoopPc, selecting, crashed, Answer, exited, loop_step}

-- What the steps of a round are answered.
abbrev ticks_of : Select → Option ℤ
ticks_of ctx_done = none
ticks_of (tick now written closed) = some now
ticks_of default = none

abbrev written_of : Select → Option GoError
written_of (tick now written closed) = written
written_of _ = none

abbrev closed_of : Select → Option GoError
closed_of (tick now written closed) = closed
closed_of _ = none

abbrev pub answer_of : Turn → Answer
answer_of t = record {
  dial = record { conn = none; err = none };
  read = t.read;
  written = written_of t.select;
  closed = closed_of t.select;
  tick = ticks_of t.select;
}

module _ (lib : Libraries) (up : Upstream) where
  -- Steps of the loop alone.
  unfoldable pub drive : Answer → ℕ → State × LoopPc → State × LoopPc
  unfolding loop_step
  drive a zero x = x
  drive a (suc k) (s, pc) = drive a k (loop_step lib up a pc s)

  -- The steps come to what a round returns: the next round, the end of `connect`, or a panic.
  abbrev pub Agrees :
      ℤ → Answer → State × LoopPc → Outcome (Option Exit × Option GoError × State) → Type 0
  Agrees failures a x (ret (none, err, s)) = (k : ℕ) × (drive a k x ≡ (s, selecting failures))
  Agrees failures a x (ret (some (returned e), err, s)) = (k : ℕ) × (drive a k x ≡ (s, exited e))
  Agrees failures a x (ret (some running, err, s)) = ⊥
  Agrees failures a x (panic p) = (k : ℕ) × ((drive a k x).1 ≡ crashed p)
