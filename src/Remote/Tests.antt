-- ===== src/Remote/Tests.antt =====
-- Runs of both ends of the protocol at concrete sockets, lib/bbio/src/bbio_backend_net.c and
-- userspace/io_backend/src/io_backend_call.c.
use streamio.Common.{
  ℕ, ◌≡◌, refl, ◌⊎◌, true, false, some, List, [], ◌∷◌, ◌++◌, length, replicate, to_le, arith,
  if◌then◌else◌,
}
use streamio.Remote.{Socket, closed, arrives, read_stream_start}
use streamio.Remote.Chunks.{io_sync_stream_device_net}
use streamio.Remote.Chunks.Pieces.{read_pieces, read_pieces-announced}
use streamio.Remote.Mapped.{
  write_register, read_register, Access, serve_mapped, requests, local_accesses, serve_mapped-local,
  local_access,
}
use streamio.Remote.Session.Resources.{io_close_net-open}
use streamio.Remote.Session.{
  io_open_mapped_net, io_open_stream_net, io_close_mapped_net, io_close_stream_net, accepts,
  open_request, has_nul, handshake_ack, client_mapped_channel, client_mapped_channel-local,
}
use streamio.Context.{close_mapped, free_devices, free_context, mapped_device}
use streamio.Local.Window.{Window, Ledger, io_write_local, io_read_local}
use streamio.Remote.Upload.{receive_packet, Locals}
use streamio.Remote.Repack.{
  Packing, store, Received, receive_packet-Received, PackingIsValid, content,
}
use streamio.Remote.Download.{
  NetState, shake_hands, io_read_stream_net_basic, finished, out_of_fuel, announced,
  io_read_stream_net_basic-finished, io_read_stream_net_basic-out_of_fuel,
}

abbrev window : Window
window = record { size = 2; memory = 5 ∷ 6 ∷ [] }

abbrev calls : List Access
calls = write_register 1 300 ∷ read_register 1 ∷ []

serve_mapped-local_example :
    serve_mapped 3 0 window (arrives (requests calls) closed) ≡ local_accesses calls window
serve_mapped-local_example =
    serve_mapped-local calls 3 0 window ((omega arith, omega arith), (omega arith, tt))
      (omega arith)

-- Buffers of three bytes, of which the present one has two.
abbrev packing : Packing
packing = record { sent = []; filled = 1 ∷ 2 ∷ [] }

packing-IsValid : PackingIsValid 3 packing
packing-IsValid = record { full = tt; room = omega arith }

-- Two bytes in two segments, the second of which holds more.
abbrev cut : Socket
cut = arrives (3 ∷ []) (arrives (4 ∷ 5 ∷ []) closed)

abbrev packed : Packing
packed = record { sent = (1 ∷ 2 ∷ 3 ∷ []) ∷ []; filled = 4 ∷ [] }

receive_packet-cut :
    receive_packet (store 3) 2 packing cut ≡ some (0, packed, arrives (5 ∷ []) closed)
unfolding receive_packet store
receive_packet-cut = refl

receive_packet-Received_example :
    Received 3 2 packing cut 0 packed (arrives (5 ∷ []) closed)
    × ((length {A = ℕ} [] ≡ 0) ⊎ (arrives (5 ∷ []) closed ≡ closed))
receive_packet-Received_example =
    receive_packet-Received 3 2 packing cut (omega arith) packing-IsValid receive_packet-cut

abbrev locals : Locals Packing
locals = record { start_cmd = 0; recv_size = 0; packing = packing }

abbrev unshaken : NetState
unshaken = record { handshaked = false; remain_recv_size = 0 }

io_read_stream_net_basic-finished_example :
    (s' : Socket) × (io_read_stream_net_basic 4 3 unshaken
        (announced 3 (1 ∷ []) (arrives (2 ∷ 3 ∷ 4 ∷ []) closed))
      ≡ ((shake_hands unshaken).0, (shake_hands unshaken).1, finished (1 ∷ 2 ∷ 3 ∷ [], s')))
    × (content s' ≡ 4 ∷ [])
io_read_stream_net_basic-finished_example =
    io_read_stream_net_basic-finished 3 4 3 unshaken (1 ∷ []) (arrives (2 ∷ 3 ∷ 4 ∷ []) closed)
      (omega arith) (omega arith) (omega arith) (omega arith)

io_read_stream_net_basic-out_of_fuel_example :
    io_read_stream_net_basic 100 3 unshaken (announced 3 (1 ∷ []) closed)
    ≡ ((shake_hands unshaken).0, (shake_hands unshaken).1, out_of_fuel)
io_read_stream_net_basic-out_of_fuel_example =
    io_read_stream_net_basic-out_of_fuel 3 100 3 unshaken (1 ∷ []) closed (omega arith)
      (omega arith) (omega arith)

abbrev dma_buffer : List ℕ
dma_buffer = replicate 8192 7

abbrev ledger : Ledger
ledger = record { fds = 3; blocks = 0; mapped = 0 }

-- The server answers the handshake with another word.
abbrev wrong_ack : Socket
wrong_ack = arrives (1 ∷ 2 ∷ 3 ∷ 4 ∷ []) closed

io_close_net-open_example :
    (io_close_mapped_net
        (io_open_mapped_net (some 5) true 0 wrong_ack ledger).0
        (io_open_mapped_net (some 5) true 0 wrong_ack ledger).1
      ≡ (if accepts true 0 wrong_ack then ledger else record ledger { fds = 4 }))
    × (io_close_stream_net
          (io_open_stream_net (some 5) true 0 wrong_ack ledger).0
          (io_open_stream_net (some 5) true 0 wrong_ack ledger).1
        ≡ (if accepts true 0 wrong_ack then ledger else record ledger { fds = 4 }))
io_close_net-open_example = io_close_net-open 5 0 true wrong_ack ledger

abbrev file_path : List ℕ
file_path = 47 ∷ 100 ∷ 0 ∷ []

abbrev written : Window
written = record { size = 2; memory = 5 ∷ 300 ∷ [] }

local_accesses-calls : local_accesses calls window ≡ some (written, to_le 4 300)
unfolding local_accesses local_access io_write_local io_read_local to_le
local_accesses-calls = refl

client_mapped_channel-local_example :
    client_mapped_channel 3 0 4096
      (some 1)
      7
      window
      (arrives (open_request file_path 512 ++ requests calls) closed)
    ≡ some (record {
      window = written;
      sent = handshake_ack ++ (to_le 4 7 ++ to_le 4 300);
      log =
          close_mapped (record { id = 1; kind = mapped_device; path = 4096 })
          ∷ free_devices
          ∷ free_context
          ∷ [];
    })
client_mapped_channel-local_example =
    client_mapped_channel-local calls 3 0 512 4096 1 7 file_path (to_le 4 300) window written
      ((omega arith, omega arith), (omega arith, tt)) (omega arith) (unfold has_nul in refl)
      (omega arith) (omega arith) local_accesses-calls

abbrev shaken : NetState
shaken = record { handshaked = true; remain_recv_size = 0 }

-- A packet of three bytes, of which one comes with the header, read by calls for two and for one.
read_pieces-announced_example :
    (st' : NetState) × (s' : Socket) × (read_pieces
        (2 ∷ 1 ∷ [])
        shaken
        (announced 3 (5 ∷ []) (arrives (6 ∷ 7 ∷ 8 ∷ []) closed))
      ≡ some (st', 5 ∷ 6 ∷ 7 ∷ [], s'))
    × (content s' ≡ 8 ∷ [])
    × (st'.remain_recv_size ≡ 0)
    × ((io_sync_stream_device_net st').handshaked ≡ true)
read_pieces-announced_example =
    read_pieces-announced 3 2 (1 ∷ []) shaken (5 ∷ []) (arrives (6 ∷ 7 ∷ 8 ∷ []) closed)
      (omega arith) refl (omega arith, (omega arith, tt)) (omega arith) (omega arith) (omega arith)

-- A packet of one byte counts as two where the call is for two: the byte behind it, which is the
-- start of the next packet, is taken for data.
io_read_stream_net-past_packet :
    (st' : NetState) × (s' : Socket) × (read_pieces
        (2 ∷ [])
        shaken
        (announced 1 (5 ∷ []) (arrives (read_stream_start ∷ []) closed))
      ≡ some (st', 5 ∷ read_stream_start ∷ [], s'))
    × (content s' ≡ [])
    × (st'.remain_recv_size ≡ 0)
    × ((io_sync_stream_device_net st').handshaked ≡ true)
io_read_stream_net-past_packet =
    read_pieces-announced 1 2 [] shaken (5 ∷ []) (arrives (read_stream_start ∷ []) closed)
      (omega arith) refl (omega arith, tt) (omega arith) (omega arith) (omega arith)
