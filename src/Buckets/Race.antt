-- ===== src/Buckets/Race.antt =====
-- gateway/bucket_store.go, CreateWaitForBucket with several goroutines: the look-up and the creation
-- are two critical sections.
use sandwich_producer.Base.{
  ℕ, ℤ, pos, ◌≡◌, refl, List, [], ◌∷◌, none, some, String, arith, System, pick, Steps, here, later,
  get, get-put_self, string_key, length, get_elem?, set, get_elem?-append_last, wrap32, wrap64,
  ◌-ℤ◌, ◌+ℤ◌,
}
use sandwich_producer.Limiter.Duration.{DefaultLimiter, new_duration_limiter, acquires, pass}
use sandwich_producer.Buckets.{BucketStore, write_bucket}

-- Where a goroutine stands: before the look-up, after one that found nothing, after the creation,
-- with the limiter that it is to lock, and with a slot got at a time.
pub data BucketPc : Type 0 where
  asking : BucketPc
  missing : BucketPc
  created : BucketPc
  found : ℕ → BucketPc
  slot : ℤ → BucketPc

-- The steps of `CreateWaitForBucket(name, limit, duration)`.
pub data BucketMove (name : String) (limit duration : ℤ) (bs : BucketStore)
    : BucketPc → BucketStore → BucketPc → Type 0 where
  finds :
      {a : ℕ} → get name bs.buckets ≡ some a → BucketMove name limit duration bs asking bs (found a)
  misses : get name bs.buckets ≡ none → BucketMove name limit duration bs asking bs missing
  creates : BucketMove name limit duration bs missing (write_bucket name limit duration bs) created
  reads_back :
      {a : ℕ}
      → get name bs.buckets ≡ some a
      → BucketMove name limit duration bs created bs (found a)
  locks :
      {a : ℕ} {l l' : DefaultLimiter} (now : ℤ)
      → get_elem? bs.heap a ≡ some l
      → pass now l ≡ acquires l'
      → BucketMove name limit duration bs
          (found a)
          (record bs { heap = set bs.heap a l' })
          (slot now)

pass_new :
    (t : ℕ) (duration : ℤ)
    → (l : DefaultLimiter) × (pass (pos t) (new_duration_limiter (pos 1) duration) ≡ acquires l)
unfolding pass new_duration_limiter wrap32 ◌-ℤ◌
pass_new t duration = (
  record {
    limit = pos 1;
    duration = duration;
    resets_at = wrap64 (pos t +ℤ duration);
    available = pos 0;
  },
  ground arith,
)

module _ (name : String) (duration : ℤ) (others : List BucketPc) where
  abbrev Places : BucketStore → BucketPc → BucketPc → System BucketStore BucketPc
  Places bs p q = record { shared = bs; pcs = p ∷ q ∷ others }

  abbrev Moves : System BucketStore BucketPc → System BucketStore BucketPc → Type 0
  Moves = Steps (BucketMove name (pos 1) duration)

  left :
      (bs bs' : BucketStore) (p p' q : BucketPc) {s : System BucketStore BucketPc}
      → BucketMove name (pos 1) duration bs p bs' p'
      → Moves s (Places bs p q)
      → Moves s (Places bs' p' q)
  left bs bs' p p' q mv r = later r (pick [] (q ∷ others) refl mv refl)

  right :
      (bs bs' : BucketStore) (p q q' : BucketPc) {s : System BucketStore BucketPc}
      → BucketMove name (pos 1) duration bs q bs' q'
      → Moves s (Places bs p q)
      → Moves s (Places bs' p q')
  right bs bs' p q q' mv r = later r (pick (p ∷ []) others refl mv refl)

  -- A goroutine that found nothing creates a limiter and gets the slot of it.
  creator_left :
      (bs : BucketStore) (q : BucketPc) (t : ℕ) {s : System BucketStore BucketPc}
      → Moves s (Places bs missing q)
      → (bs' : BucketStore) × Moves s (Places bs' (slot (pos t)) q)
  unfolding write_bucket
  creator_left bs q t r =
      let (l, got) = pass_new t duration in
      let bs₁ = write_bucket name (pos 1) duration bs in
      (
        record bs₁ { heap = set bs₁.heap (length bs.heap) l },
        left _ _ _ _ q
            (locks (pos t) (get_elem?-append_last bs.heap (new_duration_limiter (pos 1) duration))
              got)
            (left _ _ _ _ q (reads_back (get-put_self name (length bs.heap) bs.buckets))
              (left _ _ _ _ q creates r)),
      )

  creator_right :
      (bs : BucketStore) (p : BucketPc) (t : ℕ) {s : System BucketStore BucketPc}
      → Moves s (Places bs p missing)
      → (bs' : BucketStore) × Moves s (Places bs' p (slot (pos t)))
  unfolding write_bucket
  creator_right bs p t r =
      let (l, got) = pass_new t duration in
      let bs₁ = write_bucket name (pos 1) duration bs in
      (
        record bs₁ { heap = set bs₁.heap (length bs.heap) l },
        right _ _ p _ _
            (locks (pos t) (get_elem?-append_last bs.heap (new_duration_limiter (pos 1) duration))
              got)
            (right _ _ p _ _ (reads_back (get-put_self name (length bs.heap) bs.buckets))
              (right _ _ p _ _ creates r)),
      )

  -- Two goroutines that ask for a name that has no bucket yet, with a limit of one slot, can both
  -- get a slot at the same time: each creates a limiter, the second in place of the first.
  pub bucket_race :
      (bs : BucketStore) (t : ℕ)
      → get name bs.buckets ≡ none
      → (bs' : BucketStore) × Moves
          (Places bs asking asking)
          (Places bs' (slot (pos t)) (slot (pos t)))
  bucket_race bs t absent =
      let (bs₁, r) = creator_left bs missing t (
        right bs bs missing asking missing (misses absent)
          (left bs bs asking missing asking (misses absent) here)) in
      creator_right bs₁ (slot (pos t)) t r
