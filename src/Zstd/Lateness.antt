-- ===== src/Zstd/Lateness.antt =====
-- gateway/zstd.go, Compress: what becomes of a flush that makes more than one write.
use sandwich_producer.Base.{ℕ, ◌≡◌, refl, List, [], ◌∷◌, some, ret, false, arith}
use sandwich_producer.Zstd.{
  Codec, Zstd, ChanWriter, new_chan_writer, send_all, compress, receive_compressed, receive_chunk,
  continued,
}

-- A flush has one more chunk to send, and others may come after it.
abbrev waiting : List ℕ → List (List (List ℕ)) → ChanWriter
waiting late others = record { senders = (late ∷ []) ∷ others; closed = false }

abbrev joined : List (List ℕ) → List (List (List ℕ))
joined [] = []
joined (c ∷ cs) = (c ∷ cs) ∷ []

send_all-waiting :
    (late : List ℕ) (cs : List (List ℕ))
    → send_all cs (waiting late []) ≡ ret (waiting late (joined cs))
unfolding send_all
send_all-waiting late [] = refl
send_all-waiting late (c ∷ cs) = refl

module _ {W R : Type 0} (codec : Codec W R) (z : Zstd W R) (d d' c late : List ℕ) where
  -- If no flush is waiting and the flush of a message makes two writes, Compress returns the first of
  -- them, and the goroutine waits with the second. The next Compress can return that second part of
  -- the old message, whatever its own message is.
  pub compress_late :
      z.cr ≡ new_chan_writer
      → (codec.write z.cw d).1 ≡ []
      → (codec.flush (codec.write z.cw d).0).1 ≡ c ∷ late ∷ []
      → (codec.write (codec.flush (codec.write z.cw d).0).0 d').1 ≡ []
      → (z₁ z₂ : Zstd W R) × (compress codec 0 d z ≡ ret (some (c, z₁)))
        × (compress codec 0 d' z₁ ≡ ret (some (late, z₂)))
  unfolding compress receive_compressed receive_chunk send_all continued
  compress_late idle quiet two quiet' =
      let w = (codec.flush (codec.write z.cw d).0).0 in
      let z₁ : Zstd W R = record z { cw = w; cr = waiting late [] } in
      let (w', cs) = codec.flush (codec.write w d').0 in
      let z₂ : Zstd W R = record z {
        cw = w';
        cr = record { senders = joined cs; closed = false };
      } in
      (z₁, z₂, ground (arith, idle), ground (arith, send_all-waiting late cs))
