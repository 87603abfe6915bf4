-- ===== src/App/LoopTest/Ask.antt =====
-- The buffers that a round of main_txrx_test asks for, userspace/test_app/src/tc_test.c.
use streamio.Common.{◌*◌, ◌≤◌, ◌≡◌, refl, some, replicate, get_elem?-map, arith}
use streamio.Dma.{ChannelBuffer, Channel, buffer_size, sizeof_channel_buffer}
use streamio.Dma.Contents.{contents}
use streamio.Local.{LocalBuffer, Answers, io_write_stream_local}
use streamio.Local.Ring.{RingIsValid}
use streamio.Remote.Deliver.{put_bytes, get_buffer}
use streamio.Remote.Deliver.Calls.{
  Willing, Given, get_buffer-Given, get_buffer-contents, put_at, put_bytes-put,
}
use streamio.App.Transfers.{Transfers, write_stream-Transfers}
use streamio.App.LoopTest.{stale_bytes}
use streamio.App.LoopTest.Stale.{AllRoom}

-- The receiver's half of a round, up to its sync.
pub ask_packet :
    (a : Answers) (l : LocalBuffer)
    → RingIsValid l
    → Willing a
    → (r r1 : LocalBuffer) × (d : Channel) × (get_buffer a l ≡ some (r, l.current_buffer_id))
      × (put_bytes l.current_buffer_id 0 (replicate 8 255) r.channel ≡ some d)
      × (io_write_stream_local a
            (sizeof_channel_buffer * l.current_buffer_id)
            buffer_size
            (record r { channel = d })
          ≡ some (r1, l.current_buffer_id))
      × Transfers buffer_size 1 l r1
ask_packet a l v w =
    let (r, e1, h) = get_buffer-Given a l v w in
    let (e2, v2, f2) =
      put_bytes-put l.current_buffer_id 0 (replicate 8 255) h.buffer r h.valid v.current h.found
        (omega arith) in
    let d = put_at l.current_buffer_id 0 (replicate 8 255) h.buffer r.channel in
    let (r1, e3, asked) =
      write_stream-Transfers buffer_size a l r d v w h v2 refl refl (omega arith) in
    (r, r1, d, e1, e2, e3, asked)

-- The sender's buffer is asked for and filled.
pub record Asked (a : Answers) (l0 : LocalBuffer) : Type 0 where
  pub device : LocalBuffer
  pub given : Given l0 device
  pub run : get_buffer a l0 ≡ some (device, l0.current_buffer_id)
  pub fits : stale_bytes given.buffer.buffer ≤ buffer_size
  pub room : AllRoom (contents device.channel)

pub ask_buffer :
    (a : Answers) (l0 : LocalBuffer)
    → RingIsValid l0
    → AllRoom (contents l0.channel)
    → Willing a
    → Asked a l0
ask_buffer a l0 v room w =
    let (l, e, g) = get_buffer-Given a l0 v w in
    let same : contents l.channel ≡ contents l0.channel = get_buffer-contents a l0 e in
    let all : AllRoom (contents l.channel) = rw same room in
    let old =
      get_elem?-map (λ (x : ChannelBuffer). x.buffer) l.channel.buffer_table l0.current_buffer_id
        g.found in
    record {
      device = l;
      given = g;
      run = e;
      fits = all l0.current_buffer_id g.buffer.buffer old;
      room = all;
    }
