-- ===== src/Zstd/Sequence.antt =====
-- gateway/zstd.go, Compress: calls one after the other, and what they return of the compressor's writes. The
-- goroutine that has waited longest is the one that is received from.
use sandwich_producer.Base.{
  ℕ, ◌≡◌, ◌≢◌, List, [], ◌∷◌, ◌++◌, Option, none, some, Outcome, ret, ◌>>=◌, All, false,
}
use sandwich_producer.Zstd.{Codec, Zstd, ChanWriter, compress}

-- All that goroutines have left to send.
abbrev pub pending : List (List (List ℕ)) → List (List ℕ)
pending [] = []
pending (cs ∷ senders) = cs ++ pending senders

abbrev open_with : List (List (List ℕ)) → ChanWriter
open_with senders = record { senders = senders; closed = false }

-- Each goroutine that waits has something left to send.
abbrev AllWait : List (List (List ℕ)) → Type 0
AllWait senders = All (λ cs. cs ≢ []) senders

module _ {W R : Type 0} (codec : Codec W R) where
  -- Calls of Compress, one after the other: what they return, if none blocks.
  unfoldable pub compress_all :
      List (List ℕ) → Zstd W R → Outcome (Option (List (List ℕ) × Zstd W R))
  compress_all [] z = ret (some ([], z))
  compress_all (d ∷ ds) z = compress codec 0 d z >>= λ compressed. elim compressed [
    | none ↦ ret none
    | some (c, z') ↦ compress_all ds z' >>= λ rest. elim rest [
      | none ↦ ret none
      | some (cs, z'') ↦ ret (some (c ∷ cs, z''))
    ]
  ]

  -- The writer after a message and its flush, and what that flush writes.
  abbrev pub flushed : W → List ℕ → W × List (List ℕ)
  flushed w d = codec.flush (codec.write w d).0

  -- What the flushes of the messages write, in order.
  abbrev pub written : W → List (List ℕ) → List (List ℕ)
  written w [] = []
  written w (d ∷ ds) = (flushed w d).1 ++ written (flushed w d).0 ds

  -- Each message fits the writer's buffer, so that only its flush writes; how often it does is left open.
  abbrev pub Buffers : W → List (List ℕ) → Type 0
  Buffers w [] = Unit
  Buffers w (d ∷ ds) =
      ((codec.write w d).1 ≡ []) × ((flushed w d).1 ≢ []) × Buffers (flushed w d).0 ds
