-- ===== src/Examples/Streams.antt =====
-- gateway/zstd.go at concrete inputs.
use sandwich_producer.Base.{ℕ, ◌≡◌, refl, List, [], ◌∷◌, ◌++◌, some, ret}
use sandwich_producer.Zstd.{Codec, Zstd, new_zstd, compress}
use sandwich_producer.Zstd.Lateness.{compress_late}

-- A compressor that keeps what it is given until a flush, and does not compress it.
abbrev plain : Codec (List ℕ) (Unit {0})
plain = record {
  new_writer = [];
  new_reader = tt;
  write = λ w d. (w ++ d, []);
  flush = λ w. ([], w ∷ []);
  feed = λ r d. some (record { reader = r; left = []; chunks = d ∷ [] });
}

-- A compressor whose flush makes two writes.
abbrev halting : Codec (List ℕ) (Unit {0})
halting = record plain { flush = λ w. ([], w ∷ (9 ∷ []) ∷ []) }

compress_late_example :
    (z₁ z₂ : Zstd (List ℕ) (Unit {0})) × (compress halting 0 (1 ∷ []) (new_zstd halting)
      ≡ ret (some (1 ∷ [], z₁)))
    × (compress halting 0 (2 ∷ []) z₁ ≡ ret (some (9 ∷ [], z₂)))
unfolding new_zstd
compress_late_example =
    compress_late halting (new_zstd halting) (1 ∷ []) (2 ∷ []) (1 ∷ []) (9 ∷ []) refl refl refl refl
