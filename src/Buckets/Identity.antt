-- ===== src/Buckets/Identity.antt =====
-- gateway/bucket_store.go: a store behaves as a function from names to limiters.
use sandwich_producer.Base.{
  ℕ, ℤ, ◌≡◌, refl, List, none, some, String, arith, ◌⊎◌, length, get_elem?, get_elem?-append_last,
  get_elem?-lt, get, get-put_self, string_key, str_eq, if◌then◌else◌, Option-cases, inl, inr,
  no_such_bucket,
}
use sandwich_producer.Limiter.Duration.{DefaultLimiter, new_duration_limiter, lock}
use sandwich_producer.Buckets.{
  BucketStore, write_bucket, create_bucket, lock_at, wait_of, wait_for_bucket,
  create_wait_for_bucket, Wait, refused,
}
use sandwich_producer.Buckets.View.{
  view, IsValid, lock_at_lem, write_bucket-IsValid, set-IsValid, view-set, view-write_bucket,
}

-- What a call that locks the limiter `l` of a name is to come to: the outcome of `lock`, a valid
-- store, and a view in which that limiter alone has changed.
pub record Locks (name : String) (l : DefaultLimiter) (clock : List ℤ) (bs : BucketStore)
    (r : Wait × BucketStore) : Type 0 where
  pub outcome : r.0 ≡ wait_of (lock clock l).0
  pub valid : IsValid r.1
  pub viewed :
      (j : String) → view r.1 j ≡ (if str_eq name j then some (lock clock l).1 else view bs j)

lock_at-Locks :
    {bs : BucketStore} (v : IsValid bs) (name : String) (a : ℕ) (l : DefaultLimiter)
    (clock : List ℤ)
    → get name bs.buckets ≡ some a
    → get_elem? bs.heap a ≡ some l
    → Locks name l clock bs (lock_at a clock bs)
lock_at-Locks {bs} v name a l clock e el = rw (lock_at_lem bs a l clock el) (record {
  outcome = refl;
  valid = set-IsValid v a (lock clock l).1;
  viewed = λ j. view-set v name j a (lock clock l).1 e;
})

-- The limiter that CreateWaitForBucket waits for: the name's, or a new one.
unfoldable pub limiter_of : BucketStore → String → ℤ → ℤ → DefaultLimiter
limiter_of bs name limit duration = elim (view bs name) [
  | some l ↦ l
  | none ↦ new_duration_limiter limit duration
]

module _ (bs : BucketStore) (name : String) where
  view-missing : get name bs.buckets ≡ none → view bs name ≡ none
  view-missing missing = rw (missing, view)

  view-found :
      (a : ℕ) (l : DefaultLimiter)
      → get name bs.buckets ≡ some a
      → get_elem? bs.heap a ≡ some l
      → view bs name ≡ some l
  view-found a l found el = rw (found, view) el

  limiter_of-found :
      (limit duration : ℤ) (l : DefaultLimiter)
      → view bs name ≡ some l
      → limiter_of bs name limit duration ≡ l
  unfolding limiter_of
  limiter_of-found limit duration l e = rw (limiter_of, e)

  limiter_of-missing :
      (limit duration : ℤ)
      → view bs name ≡ none
      → limiter_of bs name limit duration ≡ new_duration_limiter limit duration
  unfolding limiter_of
  limiter_of-missing limit duration e = rw (limiter_of, e)

  create_wait_found :
      (limit duration : ℤ) (clock : List ℤ) (a : ℕ)
      → get name bs.buckets ≡ some a
      → create_wait_for_bucket name limit duration clock bs ≡ lock_at a clock bs
  unfolding create_wait_for_bucket
  create_wait_found limit duration clock a found = rw (create_wait_for_bucket, found)

  create_wait_missing :
      (limit duration : ℤ) (clock : List ℤ)
      → get name bs.buckets ≡ none
      → create_wait_for_bucket name limit duration clock bs
        ≡ lock_at (length bs.heap) clock (write_bucket name limit duration bs)
  unfolding create_wait_for_bucket create_bucket
  create_wait_missing limit duration clock missing =
      rw (create_wait_for_bucket, missing, get-put_self name (length bs.heap) bs.buckets)

module _ {bs : BucketStore} (v : IsValid bs) (name : String) where
  write_bucket-Locks :
      (limit duration : ℤ) (clock : List ℤ)
      → Locks name
          (new_duration_limiter limit duration)
          clock
          bs
          (lock_at (length bs.heap) clock (write_bucket name limit duration bs))
  unfolding write_bucket
  write_bucket-Locks limit duration clock = record {
    outcome = made.outcome;
    valid = made.valid;
    viewed = λ j. ground (arith, made.viewed j, view-write_bucket v name j limit duration);
  }
    where
      made :
          Locks name
            (new_duration_limiter limit duration)
            clock
            (write_bucket name limit duration bs)
            (lock_at (length bs.heap) clock (write_bucket name limit duration bs))
      made =
          lock_at-Locks (write_bucket-IsValid v name limit duration) name (length bs.heap)
            (new_duration_limiter limit duration) clock
            (get-put_self name (length bs.heap) bs.buckets)
            (get_elem?-append_last bs.heap (new_duration_limiter limit duration))

  -- CreateWaitForBucket on a valid store locks the limiter of its name, a new one if there was none,
  -- keeps the store valid, and leaves the limiter of every other name as it was.
  pub create_wait_for_bucket-Locks :
      (limit duration : ℤ) (clock : List ℤ)
      → Locks name
          (limiter_of bs name limit duration)
          clock
          bs
          (create_wait_for_bucket name limit duration clock bs)
  create_wait_for_bucket-Locks limit duration clock = elim (Option-cases (get name bs.buckets)) [
    | inl missing ↦
        rw
          (
            create_wait_missing bs name limit duration clock missing,
            limiter_of-missing bs name limit duration (view-missing bs name missing),
          )
          (write_bucket-Locks limit duration clock)
    | inr (a, found) ↦
        let (l, el) = get_elem?-lt bs.heap a (v.in_heap name a found) in
        rw
          (
            create_wait_found bs name limit duration clock a found,
            limiter_of-found bs name limit duration l (view-found bs name a l found el),
          )
          (lock_at-Locks v name a l clock found el)
  ]

  -- WaitForBucket on a valid store refuses a name that has no limiter, and the store stays as it was;
  -- otherwise it locks the name's limiter as CreateWaitForBucket does.
  wait_for_bucket-Locks :
      (clock : List ℤ)
      → ((view bs name ≡ none) × (wait_for_bucket name clock bs ≡ (refused no_such_bucket, bs)))
        ⊎ ((l : DefaultLimiter) × (view bs name ≡ some l)
            × Locks name l clock bs (wait_for_bucket name clock bs))
  unfolding wait_for_bucket
  wait_for_bucket-Locks clock = elim (Option-cases (get name bs.buckets)) [
    | inl missing ↦ inl (view-missing bs name missing, rw (missing, wait_for_bucket) refl)
    | inr (a, found) ↦
        let (l, el) = get_elem?-lt bs.heap a (v.in_heap name a found) in
        inr (
          l,
          view-found bs name a l found el,
          rw (found, wait_for_bucket) (lock_at-Locks v name a l clock found el),
        )
  ]
