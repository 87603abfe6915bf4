-- ===== src/Remote/Deliver/Tests.antt =====
-- Runs of the server's end of a write stream over a device, io_backend_call.c.
use streamio.Common.{◌≡◌, refl, some, [], ◌∷◌, from_le, to_le}
use streamio.Dma.{ChannelBuffer, no_error, buffer_size}
use streamio.Local.Samples.{channel, device, device-RingIsValid, completes}
use streamio.Remote.{Socket, closed, arrives, recv, recv_word, call_write_stream}
use streamio.Remote.Upload.{Locals, receive_packet, receive_frame, client_cmd_write_stream_inf}
use streamio.Remote.Repack.{Packing, store}
use streamio.Remote.Deliver.{Sink, put_bytes, write_stream_inf}
use streamio.Remote.Deliver.Samples.{completes-Willing}
use streamio.Remote.Deliver.Refine.{Delivers}
use streamio.Remote.Deliver.Stream.{unpacked, write_stream_inf-Delivers}

abbrev nines : ChannelBuffer
nines = record { buffer = 9 ∷ 9 ∷ 9 ∷ 9 ∷ []; status = no_error; length = 0 }

-- The bytes around those that are received stay.
put_bytes-inside :
    put_bytes 0 1 (5 ∷ 6 ∷ []) (record channel { buffer_table = nines ∷ [] })
    ≡ some (record channel { buffer_table = record nines { buffer = 9 ∷ 5 ∷ 6 ∷ 9 ∷ [] } ∷ [] })
unfolding put_bytes
put_bytes-inside = refl

-- A packet of two bytes in three segments.
abbrev cut : Socket
cut = arrives (call_write_stream ∷ []) (arrives (2 ∷ 0 ∷ 0 ∷ 0 ∷ 5 ∷ []) (arrives (6 ∷ []) closed))

abbrev packed : Locals Packing
packed = record {
  start_cmd = call_write_stream;
  recv_size = 0;
  packing = record { sent = []; filled = 5 ∷ 6 ∷ [] };
}

packed-cut :
    client_cmd_write_stream_inf (store buffer_size) 0 (unpacked 0) cut
    ≡ some (packed, arrives [] closed)
unfolding client_cmd_write_stream_inf receive_frame receive_packet store recv_word recv from_le
    to_le
packed-cut = refl

write_stream_inf-Delivers_example :
    (m : Locals Sink) × (write_stream_inf completes (λ n. completes) 0 0 device cut
      ≡ some (m, arrives [] closed))
    × (m.start_cmd ≡ call_write_stream)
    × (m.recv_size ≡ 0)
    × Delivers [] 4096 31 packed.packing m.packing
write_stream_inf-Delivers_example =
    write_stream_inf-Delivers completes (λ n. completes) 0 0 device cut (packed, arrives [] closed)
      device-RingIsValid completes-Willing (λ n. completes-Willing) packed-cut
