-- ===== src/Limiter/Concurrency/Tickets.antt =====
-- gateway/limiter.go, ConcurrencyLimiter: what the goroutines that use it can rely on.
use sandwich_producer.Base.{
  ℕ, zero, suc, ℤ, pos, negsuc, ◌+◌, ◌≤◌, ◌<◌, ◌^◌, ◌≡◌, ◌≢◌, ◌↔◌, ◌⊎◌, inl, inr, ◌∙◌, refl, ap,
  List, [], ◌∷◌, ◌++◌, none, some, arith, if◌then◌else◌, length, ltb, leb, ◌&&◌, All, Option-cases,
  System, Step, pick, total, total-append,
}
use sandwich_producer.Limiter.Concurrency.{ConcurrencyLimiter, fill, receive, send, progress}
use sandwich_producer.Limiter.Concurrency.Steps.{
  Pc, outside, received, holding, sent, TicketMove, receives, counts_up, sends, counts_down, Reach,
}
use sandwich_producer.Limiter.Concurrency.Invariant.{
  count, has_ticket, has, is_counted, count-append, ticket_numbers, Inv, Reach-Inv,
}

-- A new limiter's channel has each number from `i` on once.
count-fill :
    (j k i : ℕ) (xs : List ℤ)
    → count (pos j) (fill k i xs) ≡ count (pos j) xs + (if leb i j && ltb j (i + k) then 1 else 0)
unfolding fill
count-fill j zero i xs = ground arith
count-fill j (suc k) i xs =
    ground (arith, count-fill j k (suc i) (xs ++ pos i ∷ []), count-append (pos j) xs (pos i ∷ []))

count-fill_negsuc : (j k i : ℕ) (xs : List ℤ) → count (negsuc j) (fill k i xs) ≡ count (negsuc j) xs
unfolding fill
count-fill_negsuc j zero i xs = refl
count-fill_negsuc j (suc k) i xs = ground (
  arith,
  count-fill_negsuc j k (suc i) (xs ++ pos i ∷ []),
  count-append (negsuc j) xs (pos i ∷ []),
)

count-ticket_numbers : (t : ℤ) (n : ℕ) → count t (ticket_numbers n) ≤ 1
count-ticket_numbers (pos j) n = ground (arith, count-fill j n 0 [])
count-ticket_numbers (negsuc j) n = omega (arith, count-fill_negsuc j n 0 [])

receive-eq_none :
    (c : ConcurrencyLimiter) (xs : List ℤ)
    → c.tickets ≡ xs
    → (receive c ≡ none) ↔ (length c.tickets ≡ 0)
unfolding receive
receive-eq_none c [] e = ground arith
receive-eq_none c (x ∷ xs) e = (λ h. ground arith, λ h. ground arith)

-- Not between the two steps of a call.
abbrev pub IsSettled : Pc → Type 0
IsSettled outside = Unit
IsSettled (holding _) = Unit
IsSettled _ = ⊥

total-settled : (ps : List Pc) → All IsSettled ps → total is_counted ps ≡ total has_ticket ps
total-settled [] h = refl
total-settled (outside ∷ ps) h = omega (arith, total-settled ps h.1)
total-settled (holding t ∷ ps) h = omega (arith, total-settled ps h.1)
total-settled (received t ∷ ps) h = absurd h.0
total-settled (sent ∷ ps) h = absurd h.0

-- A goroutine that is in the middle of something, or none.
abbrev pub IsOutside : Pc → Type 0
IsOutside outside = Unit
IsOutside _ = ⊥

abbrev Busy : List Pc → Type 0
Busy ps = (before after : List Pc) × (p : Pc) × (ps ≡ before ++ p ∷ after) × ¬ IsOutside p

goroutine_cases : (ps : List Pc) → Busy ps ⊎ All IsOutside ps
goroutine_cases [] = inr tt
goroutine_cases (outside ∷ ps) = elim (goroutine_cases ps) [
  | inl (before, after, p, e, b) ↦ inl (outside ∷ before, after, p, ap (◌∷◌ outside) e, b)
  | inr h ↦ inr (tt, h)
]
goroutine_cases (p ∷ ps) = inl ([], ps, p, refl, λ h. h)

total-outside : (ps : List Pc) → All IsOutside ps → total has_ticket ps ≡ 0
total-outside [] h = refl
total-outside (outside ∷ ps) h = omega (arith, total-outside ps h.1)
total-outside (p ∷ ps) h = absurd h.0

module _ {n k : ℕ} {s : System ConcurrencyLimiter Pc} (small : k < 2 ^ 31) (r : Reach n k s) where
  v : Inv n k s
  v = Reach-Inv small r

  -- In no interleaving do two goroutines have the same ticket.
  pub ticket_exclusive :
      (before between after : List Pc) (p q : Pc) (t : ℤ)
      → s.pcs ≡ before ++ p ∷ between ++ q ∷ after
      → has t p ≡ 1
      → has t q ≢ 1
  ticket_exclusive before between after p q t e hp hq = absurd (
      omega (
        arith,
        v.conserved t,
        count-ticket_numbers t n,
        ap (total (has t)) e,
        total-append (has t) (before ++ p ∷ between) (q ∷ after),
        total-append (has t) before (p ∷ between),
      ))

  -- At most `n` goroutines have a ticket, and a goroutine waits for one (the receive blocks) exactly
  -- when `n` others have theirs.
  receive_blocks_iff :
      (total has_ticket s.pcs ≤ n) × ((receive s.shared ≡ none) ↔ (total has_ticket s.pcs ≡ n))
  receive_blocks_iff =
      let empty = receive-eq_none s.shared s.shared.tickets refl in
      (
        omega (arith, v.full),
        (λ h. omega (arith, v.full, empty.0 h), λ h. empty.1 (omega (arith, v.full))),
      )

  -- FreeTicket never blocks on a ticket that its goroutine got from Wait.
  pub send_holding :
      (before after : List Pc) (t : ℤ)
      → s.pcs ≡ before ++ holding t ∷ after
      → (c : ConcurrencyLimiter) × (send t s.shared ≡ some c)
  unfolding send
  send_holding before after t e = (
    record s.shared { tickets = s.shared.tickets ++ t ∷ [] },
    ground (
      arith,
      v.full,
      v.limited,
      ap (total has_ticket) e,
      total-append has_ticket before (holding t ∷ after),
    ),
  )

  -- InProgress is never negative and, when no goroutine is between the two steps of a call, is the
  -- number of tickets in use, at most `n`.
  pub progress-IsSettled :
      (progress s.shared ≡ pos (total is_counted s.pcs))
      × (All IsSettled s.pcs
          → (progress s.shared ≡ pos (total has_ticket s.pcs)) × (total has_ticket s.pcs ≤ n))
  unfolding progress
  progress-IsSettled =
      (v.counted, λ h. (v.counted ∙ ap pos (total-settled s.pcs h), receive_blocks_iff.0))

  moves :
      (before after : List Pc) (p p' : Pc) (c : ConcurrencyLimiter)
      → s.pcs ≡ before ++ p ∷ after
      → TicketMove s.shared p c p'
      → (t : System ConcurrencyLimiter Pc) × Step TicketMove s t
  moves before after p p' c e mv =
      (record { shared = c; pcs = before ++ p' ∷ after }, pick before after e mv refl)

  busy_moves :
      (before after : List Pc) (p : Pc)
      → s.pcs ≡ before ++ p ∷ after
      → ¬ IsOutside p
      → (t : System ConcurrencyLimiter Pc) × Step TicketMove s t
  busy_moves before after outside e b = absurd (b tt)
  busy_moves before after (received t) e b = moves before after _ _ _ e counts_up
  busy_moves before after (holding t) e b =
      let (c, free) = send_holding before after t e in moves before after _ _ c e (sends free)
  busy_moves before after sent e b = moves before after _ _ _ e counts_down

  first_receives :
      (ps : List Pc)
      → s.pcs ≡ ps
      → All IsOutside ps
      → 0 < n
      → 0 < k
      → (t : System ConcurrencyLimiter Pc) × Step TicketMove s t
  first_receives [] e h hn hk = absurd (omega (arith, v.crew, ap length e))
  first_receives (outside ∷ ps) e h hn hk = elim (Option-cases (receive s.shared)) [
    | inl none_left ↦ absurd (
        omega
          (arith, receive_blocks_iff.1.0 none_left, ap (total has_ticket) e, total-outside ps h.1))
    | inr ((t, c), got) ↦ moves [] ps _ _ c e (receives got)
  ]
  first_receives (p ∷ ps) e h hn hk = absurd h.0

  -- No deadlock: with at least one ticket and at least one goroutine, some goroutine can move.
  pub limiter_moves : 0 < n → 0 < k → (t : System ConcurrencyLimiter Pc) × Step TicketMove s t
  limiter_moves hn hk = elim (goroutine_cases s.pcs) [
    | inl (before, after, p, e, b) ↦ busy_moves before after p e b
    | inr h ↦ first_receives s.pcs refl h hn hk
  ]
