-- ===== src/Limiter/Concurrency/Invariant.antt =====
-- Where the tickets are, in every reachable state.
use sandwich_producer.Base.{
  ℕ, zero, suc, ℤ, pos, ◌+◌, ◌≤◌, ◌<◌, ◌^◌, ◌≡◌, ◌∙◌, refl, ap, sym, List, [], ◌∷◌, ◌++◌, some,
  arith, ret, eqb_ℤ, if◌then◌else◌, length, length-append, ◌+ℤ◌, ◌-ℤ◌, wrap32, System, Step, pick,
  Steps, here, later, total, total-pick, length-pick,
}
use sandwich_producer.Limiter.Concurrency.{
  ConcurrencyLimiter, fill, receive, count_up, send, count_down, new_concurrency_limiter,
}
use sandwich_producer.Limiter.Concurrency.Steps.{
  Pc, outside, received, holding, sent, TicketMove, receives, counts_up, sends, counts_down, Reach,
  runs, all_outside,
}

abbrev pub count : ℤ → List ℤ → ℕ
count t [] = 0
count t (x ∷ xs) = (if eqb_ℤ x t then 1 else 0) + count t xs

-- Has the goroutine a ticket; has it this ticket; has it been counted.
abbrev pub has_ticket : Pc → ℕ
has_ticket (received _) = 1
has_ticket (holding _) = 1
has_ticket _ = 0

abbrev pub has : ℤ → Pc → ℕ
has t (received u) = if eqb_ℤ u t then 1 else 0
has t (holding u) = if eqb_ℤ u t then 1 else 0
has t _ = 0

abbrev pub is_counted : Pc → ℕ
is_counted (holding _) = 1
is_counted sent = 1
is_counted _ = 0

pub count-append : (t : ℤ) (xs ys : List ℤ) → count t (xs ++ ys) ≡ count t xs + count t ys
count-append t [] ys = omega arith
count-append t (x ∷ xs) ys = omega (arith, count-append t xs ys)

-- `n` tickets, each number below `n` once.
abbrev pub ticket_numbers : ℕ → List ℤ
ticket_numbers n = fill n 0 []

pub record Inv (n k : ℕ) (s : System ConcurrencyLimiter Pc) : Type 0 where
  pub limited : s.shared.limit ≡ pos n
  pub crew : length s.pcs ≡ k
  pub conserved :
      (t : ℤ) → count t s.shared.tickets + total (has t) s.pcs ≡ count t (ticket_numbers n)
  pub full : length s.shared.tickets + total has_ticket s.pcs ≡ n
  pub counted : s.shared.in_progress ≡ pos (total is_counted s.pcs)

-- What one move does to the limiter and to each of the sums.
pub record Kept (c c' : ConcurrencyLimiter) (p p' : Pc) : Type 0 where
  pub limit_kept : c'.limit ≡ c.limit
  pub ticket_kept : (t : ℤ) → count t c'.tickets + has t p' ≡ count t c.tickets + has t p
  pub size_kept : length c'.tickets + has_ticket p' ≡ length c.tickets + has_ticket p
  pub count_kept :
      (a : ℕ)
      → suc a < 2 ^ 31
      → c.in_progress ≡ pos (a + is_counted p)
      → c'.in_progress ≡ pos (a + is_counted p')

receive-Kept :
    (c c' : ConcurrencyLimiter) (t : ℤ) (xs : List ℤ)
    → c.tickets ≡ xs
    → receive c ≡ some (t, c')
    → Kept c c' outside (received t)
unfolding receive
receive-Kept c c' t [] e h = absurd (ground arith)
receive-Kept c c' t (x ∷ xs) e h = record {
  limit_kept = ground arith;
  ticket_kept = λ u. ground arith;
  size_kept = ground arith;
  count_kept = λ a small q. ground arith;
}

send-Kept : (c c' : ConcurrencyLimiter) (t : ℤ) → send t c ≡ some c' → Kept c c' (holding t) sent
unfolding send
send-Kept c c' t h = record {
  limit_kept = ground arith;
  ticket_kept = λ u. ground (arith, count-append u c.tickets (t ∷ []));
  size_kept = ground (arith, length-append c.tickets (t ∷ []));
  count_kept = λ a small q. ground arith;
}

TicketMove-Kept : {c c' : ConcurrencyLimiter} {p p' : Pc} → TicketMove c p c' p' → Kept c c' p p'
unfolding count_up count_down ◌+ℤ◌ ◌-ℤ◌ wrap32
TicketMove-Kept {c} {c'} (receives {t} e) = receive-Kept c c' t c.tickets refl e
TicketMove-Kept counts_up = record {
  limit_kept = refl;
  ticket_kept = λ u. refl;
  size_kept = refl;
  count_kept = λ a small q. ground arith;
}
TicketMove-Kept {c} {c'} (sends {t} e) = send-Kept c c' t e
TicketMove-Kept counts_down = record {
  limit_kept = refl;
  ticket_kept = λ u. refl;
  size_kept = refl;
  count_kept = λ a small q. ground arith;
}

is_counted-le : (ps : List Pc) → total is_counted ps ≤ length ps
is_counted-le [] = omega arith
is_counted-le (outside ∷ ps) = omega (arith, is_counted-le ps)
is_counted-le (received t ∷ ps) = omega (arith, is_counted-le ps)
is_counted-le (holding t ∷ ps) = omega (arith, is_counted-le ps)
is_counted-le (sent ∷ ps) = omega (arith, is_counted-le ps)

-- Every step of a crew of fewer than 2 ^ 31 goroutines keeps the invariant.
Step-Inv :
    {n k : ℕ} {s t : System ConcurrencyLimiter Pc}
    → k < 2 ^ 31
    → Step TicketMove s t
    → Inv n k s
    → Inv n k t
Step-Inv {s} {t} small (pick before after {p} {p'} e mv e') v = record {
  limited = Kept.limit_kept m ∙ v.limited;
  crew =
      omega
        (arith, v.crew, length-pick s.pcs before after p e, length-pick t.pcs before after p' e');
  conserved = λ u. omega (
    arith,
    v.conserved u,
    Kept.ticket_kept m u,
    total-pick (has u) s.pcs before after p e,
    total-pick (has u) t.pcs before after p' e',
  );
  full = omega (
    arith,
    Kept.size_kept m,
    total-pick has_ticket s.pcs before after p e,
    total-pick has_ticket t.pcs before after p' e',
  );
  counted = rw (total-pick is_counted t.pcs before after p' e') (
      Kept.count_kept m (total is_counted before + total is_counted after) room
        (v.counted ∙ ap pos (total-pick is_counted s.pcs before after p e)));
}
  where
    m : Kept s.shared t.shared p p'
    m = TicketMove-Kept mv

    room : suc (total is_counted before + total is_counted after) < 2 ^ 31
    room = omega (
      arith,
      v.crew,
      length-pick s.pcs before after p e,
      is_counted-le before,
      is_counted-le after,
    )

pub length-fill : (k i : ℕ) (xs : List ℤ) → length (fill k i xs) ≡ length xs + k
unfolding fill
length-fill zero i xs = omega arith
length-fill (suc k) i xs =
    omega (arith, length-fill k (suc i) (xs ++ pos i ∷ []), length-append xs (pos i ∷ []))

total-all_outside : (w : Pc → ℕ) (k : ℕ) → w outside ≡ 0 → total w (all_outside k) ≡ 0
total-all_outside w zero h = refl
total-all_outside w (suc k) h = omega (arith, total-all_outside w k h)

length-all_outside : (k : ℕ) → length (all_outside k) ≡ k
length-all_outside zero = refl
length-all_outside (suc k) = ap suc (length-all_outside k)

new_lem :
    (n : ℕ) (c : ConcurrencyLimiter)
    → new_concurrency_limiter (pos n) ≡ ret c
    → (c.limit ≡ pos n) × (c.tickets ≡ ticket_numbers n) × (c.in_progress ≡ pos 0)
unfolding new_concurrency_limiter
new_lem n c h = ground arith

start-Inv :
    (n k : ℕ) (c : ConcurrencyLimiter)
    → new_concurrency_limiter (pos n) ≡ ret c
    → Inv n k (record { shared = c; pcs = all_outside k })
start-Inv n k c h = record {
  limited = made.0;
  crew = length-all_outside k;
  conserved = λ u. rw made.1 (omega (arith, total-all_outside (has u) k refl));
  full = rw made.1 (omega (arith, total-all_outside has_ticket k refl, length-fill n 0 []));
  counted = made.2 ∙ ap pos (sym (total-all_outside is_counted k refl));
}
  where
    made : (c.limit ≡ pos n) × (c.tickets ≡ ticket_numbers n) × (c.in_progress ≡ pos 0)
    made = new_lem n c h

Steps-Inv :
    {n k : ℕ} {s t : System ConcurrencyLimiter Pc}
    → k < 2 ^ 31
    → Steps TicketMove s t
    → Inv n k s
    → Inv n k t
Steps-Inv small here v = v
Steps-Inv small (later r st) v = Step-Inv small st (Steps-Inv small r v)

-- Every reachable state, of a crew of fewer than 2 ^ 31 goroutines, has the invariant.
pub Reach-Inv : {n k : ℕ} {s : System ConcurrencyLimiter Pc} → k < 2 ^ 31 → Reach n k s → Inv n k s
Reach-Inv {n} {k} small (runs c made r) = Steps-Inv small r (start-Inv n k c made)
