-- ===== src/App/RxTest.antt =====
-- main_rx of userspace/io_client/src/client_test.c, with its devices open: packets are asked for and
-- each is compared with a pattern. The call of it in main stands in a comment. The buffers have no
-- header, as io_client/makefile builds the program.
pub mod Memory
pub mod Check
pub mod Course
use streamio.Common.{
  ℕ, zero, suc, ◌+◌, ◌*◌, Bool, Option, none, some, List, [], ◌∷◌, replicate, get_elem?, take, drop,
  from_le, if◌then◌else◌, ◌>>=◌,
}
use streamio.Dma.{sizeof_channel_buffer}
use streamio.Local.{LocalBuffer, Answers, io_stream_zc_buffer_local}
use streamio.Remote.Deliver.{put_bytes, get_buffer}
use streamio.Backend.{
  MappedDevice, io_write_stream_device, io_read_stream_device, io_sync_stream_device,
}
use streamio.Backend.Local.{stream_local}
use streamio.Backend.Writes.{Setting, write_all}
use streamio.App.Validate.{validate_data}

abbrev pub test_size : ℕ
test_size = 2048

abbrev pub rx_setup : List Setting
rx_setup = (5, 3) ∷ (6, 2048) ∷ (5, 0) ∷ []

-- What a round meets: `stop` where the outer loop reads it and where the inner one does, and `arrived`,
-- the bytes that the engine has stored in the buffer when they are compared.
pub record RxAnswers : Type 0 where
  pub stop : Bool
  pub inner_stop : Bool
  pub tx : Answers
  pub rx : Answers
  pub sync : ℕ → Answers
  pub arrived : List ℕ

pub record RxState : Type 0 where
  pub dma_rx : LocalBuffer
  pub dma_tx : LocalBuffer

-- By the ends of the loops, by `exit` without a buffer, or by `force_exit`.
pub data RxEnd : Type 0 where
  finished no_buffer force_exit : RxEnd

-- The `n` first words of the buffer's memory.
pub words_of : ℕ → List ℕ → List ℕ
words_of zero bytes = []
words_of (suc n) bytes = from_le (take 4 bytes) ∷ words_of n (drop 4 bytes)

-- What is printed of the words makes the program give up.
abbrev pub verdict : Option (List ℕ) → Option RxEnd
verdict none = none
verdict (some ws) = some force_exit

-- The inner loop's body, with the buffer that was asked for.
pub rx_check : RxAnswers → ℕ → RxState → Option (RxState × Option RxEnd)
rx_check a id s = do
  c ← put_bytes id 0 (replicate (4 * test_size) 254) s.dma_rx.channel
  r ←
      io_read_stream_device (stream_local a.rx a.sync) (sizeof_channel_buffer * id) (4 * test_size)
        (record (s.dma_rx) { channel = c })
  d ← put_bytes id 0 a.arrived r.channel
  b ← get_elem? d.buffer_table id
  shown ← validate_data test_size (words_of test_size b.buffer)
  let s' : RxState = record s { dma_rx = record r { channel = d } }
  some (s', verdict shown)

-- The inner loop, which makes one round.
pub rx_inner : RxAnswers → RxState → Option (RxState × Option RxEnd)
rx_inner a s = do
  (t, unused) ← io_stream_zc_buffer_local a.tx s.dma_tx
  (r, got) ← io_stream_zc_buffer_local a.rx s.dma_rx
  let s' : RxState = record { dma_rx = r; dma_tx = t }
  elim got [ none ↦ some (s', some no_buffer) | some id ↦ rx_check a id s' ]

pub rx_round : RxAnswers → RxState → Option (RxState × Option RxEnd)
rx_round a s = do
  (s', end) ← if a.inner_stop then some (s, none) else rx_inner a s
  elim end [
    | some e ↦ some (s', some e)
    | none ↦ do
      r ← io_sync_stream_device (stream_local a.rx a.sync) s'.dma_rx
      some (record s' { dma_rx = r }, none)
  ]

-- The last `n` rounds of the outer loop, from round `i` on.
pub rx_loop : (ℕ → RxAnswers) → ℕ → ℕ → RxState → Option (RxState × RxEnd)
rx_loop answers zero i s = some (s, finished)
rx_loop answers (suc n) i s =
    let go = rx_round (answers i) s >>= λ r. elim r.1 [
      | none ↦ rx_loop answers n (i + 1) r.0
      | some e ↦ some (r.0, e)
    ] in
    if (answers i).stop then some (s, finished) else go

-- The source makes 10000000 rounds.
pub main_rx :
    {S : Type 0} → MappedDevice S → (ℕ → RxAnswers) → ℕ → S → RxState → Option (S × RxState × RxEnd)
main_rx map_dev answers loop_times w s = do
  w' ← write_all map_dev rx_setup w
  (s', end) ← rx_loop answers loop_times 0 s
  some (w', s', end)

-- main_tx of the same file, with its device open: the last `n` rounds, from round `j` on, in which whole
-- buffers are sent as they are found. Nothing calls it; the source makes 10000 rounds.
pub main_tx : (ℕ → Answers) → ℕ → ℕ → LocalBuffer → Option LocalBuffer
main_tx answers zero j l = some l
main_tx answers (suc n) j l = do
  (l1, id) ← get_buffer (answers j) l
  l2 ←
      io_write_stream_device (stream_local (answers j) answers) (sizeof_channel_buffer * id)
        (32768 * 4) l1
  main_tx answers n (j + 1) l2
