-- ===== src/Zstd/Closing.antt =====
-- gateway/zstd.go: a context whose ChanWriter has been closed.
use sandwich_producer.Base.{
  ℕ, ◌≡◌, ◌≢◌, List, [], ret, panic, send_on_closed, close_of_closed, true, arith,
}
use sandwich_producer.Zstd.{Codec, Zstd, ChanWriter, send_all, close_writer, compress}

closed_writer : (w w' : ChanWriter) → close_writer w ≡ ret w' → w'.closed ≡ true
unfolding close_writer
closed_writer w w' e = ground arith

-- After a Close of the compressor's channel that has returned, Compress ends the program for every message
-- of which the compressor writes anything, and so does a second Close.
compress-close_writer :
    {W R : Type 0} (codec : Codec W R) (z : Zstd W R) (choice : ℕ) (d : List ℕ) (cr : ChanWriter)
    → close_writer z.cr ≡ ret cr
    → ((codec.write z.cw d).1 ≡ [] → (codec.flush (codec.write z.cw d).0).1 ≢ [])
    → (compress codec choice d (record z { cr = cr }) ≡ panic send_on_closed)
      × (close_writer cr ≡ panic close_of_closed)
unfolding compress send_all close_writer
compress-close_writer codec z choice d cr closes writes = (
  ground (arith, closed_writer z.cr cr closes, writes),
  ground (arith, closed_writer z.cr cr closes),
)
