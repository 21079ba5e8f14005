-- ===== src/Shard/Walk/Connections.antt =====
-- gateway/shard.go, `connect` and Open, by the stages of a connection.
use sandwich_producer.Base.{
  Panic, bad_ticker_interval, Checks->>=-ret, ap, ◌∙◌, ℕ, ◌*◌, ◌^◌, pos, ◌≡◌, if◌then◌else◌, refl,
  true, Bool-cases, Option-cases, inl, inr, List, [], ◌∷◌, Option, none, some, GoError, ret,
  Outcome, All, Checks, Checks->>=, leb_ℤ,
}
use sandwich_producer.Events.Packets.{Hello}
use sandwich_producer.Shard.{
  record_action, sets_read_limit, Libraries, State, decode_content, can_continue,
}
use sandwich_producer.Shard.Connect.{
  Upstream, Attempt, Turn, Exit, returned, running, after_hello, handshake, dialled, connect,
  open_shard, ticker_interval,
}
use sandwich_producer.Shard.Walk.{Stages}
use sandwich_producer.Shard.Walk.Loop.{Ended, listen-Ended}

module _ {lib : Libraries} {up : Upstream} {ok : Panic → Type 0} {Dials : Attempt → Type 0}
    (st : Stages lib up ok Dials) where
  on_error-Ended :
      (err : Option GoError) (s : State) (k : Outcome (Exit × State))
      → st.Over s
      → (err ≡ none → Checks ok (Ended st) k)
      → Checks ok (Ended st) (elim err [ some e ↦ ret (returned (some e), s) | none ↦ k ])
  on_error-Ended none s k h g = g refl
  on_error-Ended (some e) s k h g = h

  after_hello-Ended :
      (h : Hello) (first_write : Option GoError) (turns : List Turn) (s : State)
      → (leb_ℤ (ticker_interval h) (pos 0) ≡ true → ok bad_ticker_interval)
      → st.Greeted s
      → Checks ok (Ended st) (after_hello lib up h first_write turns s)
  unfolding after_hello
  after_hello-Ended h first_write turns s ticks f =
      elim (Bool-cases (leb_ℤ (ticker_interval h) (pos 0))) [
        | inl bad ↦ rw bad (ticks bad)
        | inr good ↦ rw good (
            Checks->>= ok (λ r. st.Over r.1 × (r.0 ≡ none → st.Live r.1)) (Ended st) _ _
              (st.opens first_write s f)
              (λ x g. on_error-Ended x.0 x.1 _ g.0 (λ e. listen-Ended st _ turns none x.1 (g.1 e))))
      ]

  handshake-Ended :
      (a : Attempt) (s : State)
      → Dials a
      → st.Dialled s
      → Checks ok (Ended st) (handshake lib up a.hello_read a.first_write a.turns s)
  unfolding handshake
  handshake-Ended a s dials f =
      Checks->>=-ret ok (λ x. st.Greeted x.1) (Ended st) _ _ (st.greets a.hello_read s f)
        (λ x read g.
          let d = decode_content lib (record { heartbeat_interval = pos 0 }) x.1 in
          let over = st.greeted_over x.1 g in
          on_error-Ended x.0 x.1 _ over (λ fine.
            on_error-Ended d.1 x.1 (after_hello lib up d.0 a.first_write a.turns x.1) over (λ e.
              after_hello-Ended d.0 a.first_write a.turns x.1
                (st.ticks a s x.1 dials (read ∙ ap (λ err. ret (err, x.1)) fine) e) g)))

  dialled-Ended :
      (a : Attempt) (c : ℕ) (s : State)
      → Dials a
      → a.dial.conn ≡ some c
      → st.Dialled (record_action (sets_read_limit (512 * 2 ^ 20)) s)
      → Checks ok (Ended st) (dialled lib up a s)
  unfolding dialled
  dialled-Ended a c s dials e h =
      let s' : State = record_action (sets_read_limit (512 * 2 ^ 20)) s in
      rw (dialled, e)
        (on_error-Ended a.dial.err s' _ (st.dialled_over s' h) (λ _. handshake-Ended a s' dials h))

  pub connect-Ended :
      (a : Attempt) (s : State) → Dials a → st.Over s → Checks ok (Ended st) (connect lib up a s)
  unfolding connect dialled
  connect-Ended a s d over =
      Checks->>= ok (λ _. Unit {0}) (Ended st) _ _ (st.keyed s.shard.shard_id)
        (λ key _. elim (Option-cases a.dial.conn) [
          | inl e ↦ rw (dialled, e) (st.refused a d e)
          | inr (c, e) ↦ dialled-Ended a c _ d e (st.begins a key c s e over)
        ])

  reopen-Ended :
      (exit : Exit) (s : State) (again : Outcome (Exit × State))
      → st.Over s
      → Checks ok (Ended st) again
      → Checks ok (Ended st) (elim exit [
        | running ↦ ret (running, s)
        | returned err ↦ if can_continue lib err then again else ret (returned err, s)
      ])
  reopen-Ended running s again h g = h
  reopen-Ended (returned err) s again h g = elim (Bool-cases (can_continue lib err)) [
    | inl goes_on ↦ rw goes_on g
    | inr ends ↦ rw ends h
  ]

  -- What holds of a connection that is over holds of Open.
  pub open_shard-Ended :
      (attempts : List Attempt) (s : State)
      → All Dials attempts
      → st.Over s
      → Checks ok (Ended st) (open_shard lib up attempts s)
  unfolding open_shard
  open_shard-Ended [] s d h = h
  open_shard-Ended (a ∷ attempts) s d h =
      Checks->>= ok (Ended st) (Ended st) _ _ (connect-Ended a s d.0 h)
        (λ x g. reopen-Ended x.0 x.1 _ g (open_shard-Ended attempts x.1 d.1 g))
