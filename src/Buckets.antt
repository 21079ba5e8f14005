-- ===== src/Buckets.antt =====
-- gateway/bucket_store.go: limiters by name. The store holds pointers, so two of its calls may share
-- a limiter: a pointer is an address in `heap`, and a new limiter goes to its end.
pub mod View
pub mod Identity
pub mod Race
use sandwich_producer.Base.{
  ℕ, ℤ, List, [], ◌∷◌, ◌++◌, Option, none, some, String, GoError, no_such_bucket, length, get_elem?,
  set, get, put, string_key, Panic, nil_dereference,
}
use sandwich_producer.Limiter.Duration.{DefaultLimiter, new_duration_limiter, lock}

pub record BucketStore : Type 0 where
  pub buckets : List (String × ℕ)
  pub heap : List DefaultLimiter

unfoldable pub new_bucket_store : BucketStore
new_bucket_store = record { buckets = []; heap = [] }

-- The locked part of CreateBucket: a new limiter under the name, an old one of that name or not.
unfoldable pub write_bucket : String → ℤ → ℤ → BucketStore → BucketStore
write_bucket name limit duration bs = record {
  buckets = put name (length bs.heap) bs.buckets;
  heap = bs.heap ++ new_duration_limiter limit duration ∷ [];
}

-- CreateBucket. What it returns, it reads again from the map after it has unlocked it.
unfoldable pub create_bucket : String → ℤ → ℤ → BucketStore → Option ℕ × BucketStore
unfolding write_bucket
create_bucket name limit duration bs =
    let bs' = write_bucket name limit duration bs in (get name bs'.buckets, bs')

-- What a call that waits for a bucket comes to: an error, a slot and the time at which it was got,
-- no end within the given readings of the clock, or a panic.
pub data Wait : Type 0 where
  refused : GoError → Wait
  passed : ℤ → Wait
  waiting : Wait
  crashed : Panic → Wait

abbrev pub wait_of : Option ℤ → Wait
wait_of none = waiting
wait_of (some t) = passed t

-- `bucket.Lock()`; a pointer that is in no map is nil.
unfoldable pub lock_at : ℕ → List ℤ → BucketStore → Wait × BucketStore
lock_at a clock bs = elim (get_elem? bs.heap a) [
  | none ↦ (crashed nil_dereference, bs)
  | some l ↦ let (got, l') = lock clock l in (wait_of got, record bs { heap = set bs.heap a l' })
]

unfoldable pub wait_for_bucket : String → List ℤ → BucketStore → Wait × BucketStore
wait_for_bucket name clock bs = elim (get name bs.buckets) [
  | none ↦ (refused no_such_bucket, bs)
  | some a ↦ lock_at a clock bs
]

-- Lock at what `CreateBucket` returned.
abbrev lock_created : List ℤ → Option ℕ × BucketStore → Wait × BucketStore
lock_created clock (none, bs) = (crashed nil_dereference, bs)
lock_created clock (some a, bs) = lock_at a clock bs

unfoldable pub create_wait_for_bucket : String → ℤ → ℤ → List ℤ → BucketStore → Wait × BucketStore
create_wait_for_bucket name limit duration clock bs = elim (get name bs.buckets) [
  | none ↦ lock_created clock (create_bucket name limit duration bs)
  | some a ↦ lock_at a clock bs
]
