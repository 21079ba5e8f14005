-- ===== src/Zstd.antt =====
-- gateway/zstd.go: compression and decompression by streams whose output goes to unbuffered channels.
-- The compressor (gozstd) is a parameter. A context is used by one caller at a time. `none` means that
-- a call blocks for ever.
pub mod Sequence
pub mod Lateness
pub mod Closing
use sandwich_producer.Base.{
  ℕ, zero, suc, Bool, false, true, if◌then◌else◌, Outcome, ret, panic, ◌>>=◌, send_on_closed,
  close_of_closed, List, [], ◌∷◌, ◌++◌, Option, none, some, GoError, get_elem?,
}

-- What a reader makes of bytes that it is given, until it wants more or has output to write: what it
-- has not read yet, and the writes that it makes.
pub record Fed (R : Type 0) : Type 0 where
  pub reader : R
  pub left : List ℕ
  pub chunks : List (List ℕ)

-- A *gozstd.Writer and a *gozstd.Reader: their states, the writes that `Write` and `Flush` make to the
-- writer below, and what `WriteTo` does with more input (`none` if it returns with an error).
pub record Codec (W R : Type 0) : Type 0 where
  pub new_writer : W
  pub new_reader : R
  pub write : W → List ℕ → W × List (List ℕ)
  pub flush : W → W × List (List ℕ)
  pub feed : R → List ℕ → Option (Fed R)

-- A ChanWriter. `senders` are the goroutines that are blocked in its Write, each with what it has left to
-- send.
pub record ChanWriter : Type 0 where
  pub senders : List (List (List ℕ))
  pub closed : Bool

-- The goroutines of `go z.cw.Flush()` send to `cr`, and that of `zr.WriteTo` sends to `dr`.
pub record Zstd (W R : Type 0) : Type 0 where
  pub cw : W
  pub cr : ChanWriter
  pub zr : R
  pub dr : ChanWriter

abbrev pub new_chan_writer : ChanWriter
new_chan_writer = record { senders = []; closed = false }

-- A goroutine begins to send its writes: without any it is over.
unfoldable pub send_all : List (List ℕ) → ChanWriter → Outcome ChanWriter
send_all [] w = ret w
send_all (c ∷ cs) w =
    if w.closed
    then panic send_on_closed
    else ret (record w { senders = w.senders ++ (c ∷ cs) ∷ [] })

-- ChanWriter.Close. A goroutine that is blocked in a send panics when its channel is closed.
unfoldable pub close_writer : ChanWriter → Outcome ChanWriter
close_writer w =
    if w.closed
    then panic close_of_closed
    else elim w.senders [ [] ↦ ret (record w { closed = true }) | s ∷ rest ↦ panic send_on_closed ]

-- The goroutine at a place goes on after its first chunk has been received.
unfoldable pub continued : ℕ → List (List (List ℕ)) → List (List (List ℕ))
continued i [] = []
continued zero ([] ∷ senders) = senders
continued zero ((c ∷ []) ∷ senders) = senders
continued zero ((c ∷ d ∷ cs) ∷ senders) = (d ∷ cs) ∷ senders
continued (suc i) (cs ∷ senders) = cs ∷ continued i senders

-- `<-w.C`, from the sender that the scheduler chooses; a closed channel gives a nil slice.
unfoldable pub receive_chunk : ℕ → ChanWriter → Option (List ℕ × ChanWriter)
unfolding continued
receive_chunk i w = if w.closed then some ([], w) else elim (get_elem? w.senders i) [
  | none ↦ none
  | some [] ↦ none
  | some (c ∷ cs) ↦ some (c, record w { senders = continued i w.senders })
]

module _ {W R : Type 0} (codec : Codec W R) where
  -- NewZstd
  unfoldable pub new_zstd : Zstd W R
  new_zstd = record {
    cw = codec.new_writer;
    cr = new_chan_writer;
    zr = codec.new_reader;
    dr = new_chan_writer;
  }

  -- The end of Compress: `<-z.cr.C`.
  unfoldable pub receive_compressed : ℕ → W → Zstd W R → ChanWriter → Option (List ℕ × Zstd W R)
  unfolding receive_chunk
  receive_compressed choice cw z cr = elim (receive_chunk choice cr) [
    | none ↦ none
    | some (c, cr') ↦ some (c, record z { cw = cw; cr = cr' })
  ]

  -- Compress. A chunk that `Write` itself makes finds no receiver, or a closed channel. `choice` is the
  -- scheduler's. A panic of the flush's goroutine ends the program.
  unfoldable pub compress : ℕ → List ℕ → Zstd W R → Outcome (Option (List ℕ × Zstd W R))
  unfolding receive_compressed send_all
  compress choice d z =
      let (w, early) = codec.write z.cw d in
      elim early [
        | c ∷ cs ↦ if z.cr.closed then panic send_on_closed else ret none
        | [] ↦
            let (w', cs) = codec.flush w in
            send_all cs z.cr >>= λ cr. ret (receive_compressed choice w' z cr)
      ]

  -- What follows the write to the pipe, which returns once the reader has read all of it.
  unfoldable pub receive_output :
      Zstd W R → Fed R → Outcome (Option ((List ℕ × Option GoError) × Zstd W R))
  unfolding send_all receive_chunk
  receive_output z f = elim f.left [
    | b ∷ bs ↦ ret none
    | [] ↦ send_all f.chunks z.dr >>= λ dr. elim (receive_chunk 0 dr) [
      | none ↦ ret none
      | some (c, dr') ↦ ret (some ((c, none), record z { zr = f.reader; dr = dr' }))
    ]
  ]

  -- Decompress. While the reader's goroutine is blocked in a send, it does not read the pipe; once it
  -- has ended, nobody does. The pipe is never closed, so its write has no error.
  unfoldable pub decompress :
      List ℕ → Zstd W R → Outcome (Option ((List ℕ × Option GoError) × Zstd W R))
  unfolding receive_output
  decompress d z = elim z.dr.senders [
    | c ∷ cs ↦ ret none
    | [] ↦ elim (codec.feed z.zr d) [ none ↦ ret none | some f ↦ receive_output z f ]
  ]
