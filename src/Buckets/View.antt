-- ===== src/Buckets/View.antt =====
-- gateway/bucket_store.go: the function from names to limiters that a store stands for.
use sandwich_producer.Base.{
  ℕ, ℤ, ◌<◌, ◌≡◌, List, [], ◌∷◌, Option, none, some, String, arith, length, length-append,
  get_elem?, get_elem?-set_self, get_elem?-set_ne, length-set, get_elem?-append,
  get_elem?-append_last, get, get-put, string_key, str_eq, eq_iff, if◌then◌else◌, Option-cases, inl,
  inr, set,
}
use sandwich_producer.Limiter.Duration.{DefaultLimiter, new_duration_limiter, lock}
use sandwich_producer.Buckets.{BucketStore, new_bucket_store, write_bucket, lock_at, wait_of}

-- The limiter of a name.
abbrev pub view : BucketStore → String → Option DefaultLimiter
view bs name = elim (get name bs.buckets) [ none ↦ none | some a ↦ get_elem? bs.heap a ]

-- Every pointer of the map is to a limiter, and no two names share one.
pub record IsValid (bs : BucketStore) : Type 0 where
  pub in_heap : (name : String) (a : ℕ) → get name bs.buckets ≡ some a → a < length bs.heap
  pub apart :
      (name other : String) (a : ℕ)
      → get name bs.buckets ≡ some a
      → get other bs.buckets ≡ some a
      → name ≡ other

pub new-IsValid : IsValid new_bucket_store
unfolding new_bucket_store get
new-IsValid = record { in_heap = λ name a e. cc; apart = λ name other a e e'. cc }

pub lock_at_lem :
    (bs : BucketStore) (a : ℕ) (l : DefaultLimiter) (clock : List ℤ)
    → get_elem? bs.heap a ≡ some l
    → lock_at a clock bs
      ≡ (wait_of (lock clock l).0, record bs { heap = set bs.heap a (lock clock l).1 })
unfolding lock_at
lock_at_lem bs a l clock e = rw (e, lock_at)

module _ {bs : BucketStore} (v : IsValid bs) where
  pub write_bucket-IsValid :
      (name : String) (limit duration : ℤ) → IsValid (write_bucket name limit duration bs)
  unfolding write_bucket
  write_bucket-IsValid name limit duration = record {
    in_heap = λ j a e. ground (
      arith,
      get-put name j (length bs.heap) bs.buckets,
      length-append bs.heap (new_duration_limiter limit duration ∷ []),
      v.in_heap j a,
    );
    apart = λ j k a e e'. ground (
      arith,
      get-put name j (length bs.heap) bs.buckets,
      get-put name k (length bs.heap) bs.buckets,
      eq_iff name j,
      eq_iff name k,
      v.in_heap j a,
      v.in_heap k a,
      v.apart j k a,
    );
  }

  pub set-IsValid : (a : ℕ) (l : DefaultLimiter) → IsValid (record bs { heap = set bs.heap a l })
  set-IsValid a l = record {
    in_heap = λ j b e. omega (arith, length-set bs.heap a l, v.in_heap j b e);
    apart = v.apart;
  }

  pub view-set :
      (name j : String) (a : ℕ) (l : DefaultLimiter)
      → get name bs.buckets ≡ some a
      → view (record bs { heap = set bs.heap a l }) j
        ≡ (if str_eq name j then some l else view bs j)
  view-set name j a l e = elim (Option-cases (get j bs.buckets)) [
    | inl missing ↦ ground (arith, eq_iff name j)
    | inr (b, found) ↦ ground (
      arith,
      eq_iff name j,
      get_elem?-set_self bs.heap a l (v.in_heap name a e),
      get_elem?-set_ne bs.heap a b l,
      v.apart name j a e,
    )
  ]

  pub view-write_bucket :
      (name j : String) (limit duration : ℤ)
      → view (write_bucket name limit duration bs) j
        ≡ (if str_eq name j then some (new_duration_limiter limit duration) else view bs j)
  unfolding write_bucket
  view-write_bucket name j limit duration = elim (Option-cases (get j bs.buckets)) [
    | inl missing ↦ ground (
      arith,
      get-put name j (length bs.heap) bs.buckets,
      get_elem?-append_last bs.heap (new_duration_limiter limit duration),
    )
    | inr (b, found) ↦ ground (
      arith,
      get-put name j (length bs.heap) bs.buckets,
      get_elem?-append_last bs.heap (new_duration_limiter limit duration),
      get_elem?-append bs.heap (new_duration_limiter limit duration ∷ []) b (v.in_heap j b found),
    )
  ]
