-- ===== src/Shard/Sharing/Crashes.antt =====
-- gateway/shard.go: when the goroutine of Open uses a connection that is not there.
use mathlib.Core.Path.{subst}
use sandwich_producer.Base.{
  ℕ, zero, suc, ℤ, ◌⊎◌, inl, inr, Option-cases, get_elem?, set, ◌≡◌, ◌≢◌, refl, sym, List, [], ◌∷◌,
  Option, none, some, arith, All, GoError, nil_dereference,
}
use sandwich_producer.Events.Packets.{GatewayBot}
use sandwich_producer.Identify.{identify_key, go_rem}
use sandwich_producer.Shard.{
  Libraries, State, conn_of, ws_write_json, ReadReply, read_message, decode_message, unmarshal_msg,
}
use sandwich_producer.Shard.Connect.{Upstream, DialReply}
use sandwich_producer.Shard.Sharing.{
  ClosePc, testing, calling, answered, unconnected, refused, cleared, broken, close_step, LoopPc,
  idle, limiting, greeting, introducing, selecting, reading, ending, exited, ended, crashed, Answer,
  dial_step, limit_step, greet_step, introduce_step, beat_step, select_step, read_step, reopen_step,
  loop_step, World, Event, loops, stops, step, run,
}

-- The connection is there wherever the loop is to use it.
abbrev LoopOk : Option ℕ → LoopPc → Type 0
LoopOk c idle = Unit
LoopOk c (ending err unconnected) = Unit
LoopOk c (ending err (refused e)) = Unit
LoopOk c (ending err cleared) = Unit
LoopOk c (ending err broken) = ⊥
LoopOk c (exited err) = Unit
LoopOk c (ended err) = Unit
LoopOk c (crashed p) = p ≢ nil_dereference
LoopOk c _ = c ≢ none

module _ (lib : Libraries) (up : Upstream) where
  dial_step-LoopOk :
      (d : DialReply) (g : GatewayBot) (s : State)
      → d.conn ≢ none
      → up.gateway ≡ some g
      → LoopOk (dial_step lib up d s).0.shard.ws_conn (dial_step lib up d s).1
  unfolding dial_step identify_key go_rem
  dial_step-LoopOk d g s dialled known = ground (arith, known)

  limit_step-LoopOk :
      (err : Option GoError) (s : State)
      → s.shard.ws_conn ≢ none
      → LoopOk (limit_step lib up err s).0.shard.ws_conn (limit_step lib up err s).1
  unfolding limit_step conn_of
  limit_step-LoopOk err s h = ground arith

  greet_step-LoopOk :
      (r : ReadReply) (s : State)
      → s.shard.ws_conn ≢ none
      → LoopOk (greet_step lib up r s).0.shard.ws_conn (greet_step lib up r s).1
  unfolding greet_step read_message conn_of decode_message unmarshal_msg
  greet_step-LoopOk r s h = ground arith

  introduce_step-LoopOk :
      (failures : ℤ) (written : Option GoError) (s : State)
      → s.shard.ws_conn ≢ none
      → LoopOk
          (introduce_step lib up failures written s).0.shard.ws_conn
          (introduce_step lib up failures written s).1
  unfolding introduce_step ws_write_json conn_of
  introduce_step-LoopOk failures written s h = ground arith

  select_step-LoopOk :
      (failures : ℤ) (a : Answer) (s : State)
      → s.shard.ws_conn ≢ none
      → LoopOk (select_step lib up failures a s).0.shard.ws_conn (select_step lib up failures a s).1
  unfolding select_step beat_step ws_write_json conn_of
  select_step-LoopOk failures a s h = ground arith

  read_step-LoopOk :
      (failures : ℤ) (r : ReadReply) (s : State)
      → s.shard.ws_conn ≢ none
      → LoopOk (read_step lib up failures r s).0.shard.ws_conn (read_step lib up failures r s).1
  unfolding read_step read_message conn_of decode_message unmarshal_msg
  read_step-LoopOk failures r s h = ground arith

  loop_step-LoopOk :
      (a : Answer) (g : GatewayBot) (pc : LoopPc) (s : State)
      → a.dial.conn ≢ none
      → up.gateway ≡ some g
      → LoopOk s.shard.ws_conn pc
      → LoopOk (loop_step lib up a pc s).0.shard.ws_conn (loop_step lib up a pc s).1
  unfolding loop_step close_step reopen_step
  loop_step-LoopOk a g idle s dialled known h = dial_step-LoopOk a.dial g s dialled known
  loop_step-LoopOk a g (limiting err) s dialled known h = limit_step-LoopOk err s h
  loop_step-LoopOk a g greeting s dialled known h = greet_step-LoopOk a.read s h
  loop_step-LoopOk a g (introducing failures) s dialled known h =
      introduce_step-LoopOk failures a.written s h
  loop_step-LoopOk a g (selecting failures) s dialled known h = select_step-LoopOk failures a s h
  loop_step-LoopOk a g (reading failures) s dialled known h = read_step-LoopOk failures a.read s h
  loop_step-LoopOk a g (ending err testing) s dialled known h = ground arith
  loop_step-LoopOk a g (ending err calling) s dialled known h = ground arith
  loop_step-LoopOk a g (ending err (answered none)) s dialled known h = ground arith
  loop_step-LoopOk a g (ending err (answered (some e))) s dialled known h = ground arith
  loop_step-LoopOk a g (ending err unconnected) s dialled known h = ground arith
  loop_step-LoopOk a g (ending err (refused e)) s dialled known h = ground arith
  loop_step-LoopOk a g (ending err cleared) s dialled known h = ground arith
  loop_step-LoopOk a g (ending err broken) s dialled known h = absurd h
  loop_step-LoopOk a g (exited err) s dialled known h = ground arith
  loop_step-LoopOk a g (ended err) s dialled known h = h
  loop_step-LoopOk a g (crashed p) s dialled known h = h

-- A step of a Close that has not cleared the connection leaves it as it is.
close_step-kept :
    (reply : Option GoError) (pc : ClosePc) (s : State)
    → (close_step reply pc s).1 ≢ cleared
    → ((close_step reply pc s).0.shard.ws_conn ≡ s.shard.ws_conn) × (pc ≢ cleared)
unfolding close_step
close_step-kept reply (answered none) s h = absurd (h refl)
close_step-kept reply _ s h = ground arith

same {ℓ} : {A : Type ℓ} {x y : A} → some y ≡ some x → x ≡ y
same e = cc

All-set {ℓ} :
    {A : Type 0} (P : A → Type ℓ) (xs : List A) (i : ℕ) (v : A) {x : A}
    → get_elem? xs i ≡ some x
    → All P (set xs i v)
    → P v × (P x → All P xs)
All-set P [] i v e h = absurd cc
All-set P (y ∷ xs) zero v e h = (h.0, λ p. (subst P (same e) p, h.1))
All-set P (y ∷ xs) (suc i) v e h = let (p, rest) = All-set P xs i v e h.1 in (p, λ q. (h.0, rest q))

cleared-cases :
    (calls : List ClosePc)
    → All (λ pc. pc ≢ cleared) calls ⊎ ((i : ℕ) × (get_elem? calls i ≡ some cleared))
cleared-cases [] = inl tt
cleared-cases (cleared ∷ calls) = inr (0, refl)
cleared-cases (pc ∷ calls) = elim (cleared-cases calls) [
  | inl rest ↦ inl ((λ e. cc), rest)
  | inr (i, e) ↦ inr (suc i, e)
]

-- As long as no Stop has cleared the connection, the loop has it wherever it is to use it.
abbrev Inv : World → Type 0
Inv w = All (λ pc. pc ≢ cleared) w.stops → LoopOk w.state.shard.ws_conn w.loop

-- The dial of a step returns a connection.
abbrev pub Dialled : Event → Type 0
Dialled (loops a) = a.dial.conn ≢ none
Dialled (stops i reply) = Unit

module _ (lib : Libraries) (up : Upstream) (g : GatewayBot) (known : up.gateway ≡ some g) where
  step-Inv : (e : Event) (w : World) → Dialled e → Inv w → Inv (step lib up e w)
  unfolding step
  step-Inv (loops a) w dialled v =
      λ h. loop_step-LoopOk lib up a g w.loop w.state dialled known (v h)
  step-Inv (stops i reply) w dialled v = elim (Option-cases (get_elem? w.stops i)) [
    | inl missing ↦ rw (step, missing) v
    | inr (pc, found) ↦
        rw (step, found)
          (λ h.
            let (kept, others) =
              All-set (λ pc. pc ≢ cleared) w.stops i (close_step reply pc w.state).1 found h in
            let (same, before) = close_step-kept reply pc w.state kept in
            subst (λ c. LoopOk c w.loop) (sym same) (v (others before)))
  ]

  run-Inv :
      (events : List Event) (w : World) → All Dialled events → Inv w → Inv (run lib up events w)
  unfolding run
  run-Inv [] w dialled v = v
  run-Inv (e ∷ events) w dialled v =
      run-Inv events (step lib up e w) dialled.1 (step-Inv e w dialled.0 v)

  -- However the steps of a shard's Open and of any number of Stops interleave, if the manager has its
  -- gateway and every dial returns a connection, Open dereferences a nil pointer only if one of the Stops
  -- has closed the connection and cleared it.
  pub run-crashed :
      (events : List Event) (s : State) (calls : List ClosePc)
      → All Dialled events
      → (run lib up events (record { state = s; loop = idle; stops = calls })).loop
        ≡ crashed nil_dereference
      → (i : ℕ) × (get_elem?
            (run lib up events (record { state = s; loop = idle; stops = calls })).stops
            i
          ≡ some cleared)
  run-crashed events s calls dialled e = elim (cleared-cases w.stops) [
    | inl none_cleared ↦ absurd (subst (LoopOk w.state.shard.ws_conn) e (v none_cleared) refl)
    | inr found ↦ found
  ]
    where
      w : World
      w = run lib up events (record { state = s; loop = idle; stops = calls })

      v : Inv w
      v = run-Inv events (record { state = s; loop = idle; stops = calls }) dialled (λ _. tt)
