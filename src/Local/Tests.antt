-- ===== src/Local/Tests.antt =====
-- Runs of the local backend at concrete devices, lib/bbio/src/bbio_backend_local.c.
use streamio.Common.{ℕ, ◌+◌, ◌*◌, ◌%◌, ◌≡◌, refl, Option, some, List, [], ◌∷◌, length, replicate}
use streamio.Dma.{buffer_count, sizeof_channel_buffer}
use streamio.Dma.Files.{clear_statuses}
use streamio.Local.{LocalBuffer, Answers, io_stream_zc_buffer_local, io_local_buffer_init}
use streamio.Local.Ring.{RingIsValid, Got, io_stream_zc_buffer_local-Got}
use streamio.Local.Samples.{clear_buffer, channel, device, device-RingIsValid, completes, late}
use streamio.Local.Drain.{take_buffers, cycle, take_buffers-cycle}
use streamio.Local.Window.{Ledger, mapped, io_open_stream_local, buffer_allocate, init_statuses}

io_stream_zc_buffer_local-Got_example :
    (l' : LocalBuffer) × (r : Option ℕ) × (io_stream_zc_buffer_local late device ≡ some (l', r))
    × RingIsValid l'
    × Got late device l' r
    × (l'.channel.issued ≡ [])
    × (l'.channel.buffer_phys_addr ≡ 4096)
io_stream_zc_buffer_local-Got_example =
    io_stream_zc_buffer_local-Got late device device-RingIsValid tt

-- The first call times out, and the next two take the last buffer and the first.
abbrev calls : List Answers
calls = late ∷ completes ∷ completes ∷ []

take_buffers-cycle_example :
    (l' : LocalBuffer) × (ids : List ℕ) × (take_buffers calls device ≡ some (l', ids))
    × RingIsValid l'
    × (ids ≡ cycle 31 (length ids))
    × (l'.current_buffer_id ≡ (31 + length ids) % buffer_count)
take_buffers-cycle_example = take_buffers-cycle calls device device-RingIsValid (tt, (tt, (tt, tt)))

abbrev ledger : Ledger
ledger = record { fds = 3; blocks = 0; mapped = 0 }

abbrev fresh : LocalBuffer
fresh = record {
  buffer_count = 32;
  current_buffer_id = 0;
  channel = record channel { buffer_table = replicate 32 clear_buffer };
}

abbrev opened : Ledger
opened = record { fds = 4; blocks = 3; mapped = 32 * sizeof_channel_buffer }

io_open_stream_local-fresh :
    io_open_stream_local 5 (mapped channel) ledger ≡ some (some fresh, opened)
unfolding io_open_stream_local buffer_allocate init_statuses io_local_buffer_init clear_statuses
io_open_stream_local-fresh = refl
