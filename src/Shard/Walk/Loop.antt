-- ===== src/Shard/Walk/Loop.antt =====
-- gateway/shard.go, the loop of `connect`, by the stages of a connection.
use sandwich_producer.Base.{
  Panic, ℤ, pos, if◌then◌else◌, Bool, true, false, List, [], ◌∷◌, Option, none, some, GoError, ret,
  Checks, Checks->>=,
}
use sandwich_producer.Shard.{Libraries, State}
use sandwich_producer.Shard.Connect.{
  Upstream, Attempt, Turn, ctx_done, tick, default, Select, Exit, beat, select_case, read_case,
  round, listen,
}
use sandwich_producer.Shard.Walk.{Stages}

module _ {lib : Libraries} {up : Upstream} {ok : Panic → Type 0} {Dials : Attempt → Type 0}
    (st : Stages lib up ok Dials) where
  -- The loop goes on in a live connection.
  abbrev GoesOn : Option Exit → State → Type 0
  GoesOn none s = st.Live s
  GoesOn (some e) s = st.Over s

  abbrev Sound : Option Exit × Option GoError × State → Type 0
  Sound x = GoesOn x.0 x.2

  abbrev pub Ended : Exit × State → Type 0
  Ended x = st.Over x.1

  stop_if-Sound :
      (b : Bool) (e : Exit) (err : Option GoError) (s s' : State)
      → st.Over s
      → st.Live s'
      → Checks ok Sound (if b then ret (some e, err, s) else ret (none, err, s'))
  stop_if-Sound true e err s s' h h' = h
  stop_if-Sound false e err s s' h h' = h'

  select_case-Sound :
      (failures : ℤ) (c : Select) (err : Option GoError) (s : State)
      → st.Live s
      → Checks ok Sound (select_case lib failures c err s)
  unfolding select_case beat
  select_case-Sound failures ctx_done err s h = st.live_over s h
  select_case-Sound failures (tick now written closed) err s h =
      Checks->>= ok (λ r. st.Live r.1) Sound _ _ (st.beats written s h)
        (λ r g. stop_if-Sound _ _ _ _ _ (st.closes (pos 4000) closed r.1 g) g)
  select_case-Sound failures default err s h = h

  round_after :
      (t : Turn) (exit : Option Exit) (err : Option GoError) (s : State)
      → GoesOn exit s
      → Checks ok Sound
          (elim exit [ some e ↦ ret (some e, err, s) | none ↦ read_case lib t.read s ])
  unfolding read_case
  round_after t none err s h =
      Checks->>= ok (λ x. st.Live x.1) Sound _ _ (st.reads t.read s h)
        (λ x g. stop_if-Sound _ _ _ _ _ (st.live_over x.1 g) g)
  round_after t (some e) err s h = h

  listen_after :
      (failures : ℤ) (turns : List Turn) (exit : Option Exit) (err : Option GoError) (s : State)
      → ((t : State) → st.Live t → Checks ok Ended (listen lib failures turns err t))
      → GoesOn exit s
      → Checks ok Ended (elim exit [ some e ↦ ret (e, s) | none ↦ listen lib failures turns err s ])
  listen_after failures turns none err s k h = k s h
  listen_after failures turns (some e) err s k h = h

  pub listen-Ended :
      (failures : ℤ) (turns : List Turn) (err : Option GoError) (s : State)
      → st.Live s
      → Checks ok Ended (listen lib failures turns err s)
  unfolding listen round
  listen-Ended failures [] err s h = st.live_over s h
  listen-Ended failures (t ∷ turns) err s h =
      Checks->>= ok Sound Ended _ _
        (Checks->>= ok Sound Sound _ _ (select_case-Sound failures t.select err s h)
          (λ x g. round_after t x.0 x.1 x.2 g))
        (λ x g. listen_after failures turns x.0 x.1 x.2 (listen-Ended failures turns x.1) g)
