-- ===== src/Remote/Serve/Tests.antt =====
-- Runs of a stream device that is served, io_backend.c and io_backend_call.c.
use streamio.Common.{
  ℕ, ◌≡◌, refl, true, false, some, List, [], ◌∷◌, ◌++◌, replicate, length-replicate, take, to_le,
  arith,
}
use streamio.Context.{close_stream, free_devices, free_context, stream_device}
use streamio.Dma.{buffer_size}
use streamio.Local.{LocalBuffer}
use streamio.Local.Samples.{device, device-RingIsValid, completes, late}
use streamio.Remote.Download.Whole.{read_packets, segments}
use streamio.Remote.{Socket, arrives, call_write_stream}
use streamio.Remote.Repack.{flatten}
use streamio.Remote.Repack.Frames.{frames}
use streamio.Remote.Download.{send_size, finished}
use streamio.Remote.Session.{open_request, has_nul, handshake_ack}
use streamio.Remote.Deliver.Samples.{completes-Willing}
use streamio.Remote.Serve.{ReadRound, read_stream_inf, Stream, Streamed, client_stream_channel}
use streamio.Remote.Serve.Fetch.{read_packets-read_stream_inf}
use streamio.Remote.Serve.Reads.{Reads}
use streamio.Remote.Serve.Session.{Written, client_stream_channel-Written}

-- A round in which waiting for all the buffers is late.
abbrev round : List ℕ → ReadRound
round stored = record {
  ask = completes;
  sync = λ k. late;
  stored = stored;
  written = true;
  start = completes;
}

-- The last of three rounds meets a client that has gone.
abbrev rounds : List ReadRound
rounds = round (1 ∷ 2 ∷ []) ∷ round (3 ∷ []) ∷ record (round []) { written = false } ∷ []

abbrev stream : Stream
stream = record {
  first = completes;
  answers = λ k. completes;
  acks = 1;
  rounds = [];
  sync = λ k. late;
}

-- A packet that fills the last buffer of the ring, and one of two bytes.
abbrev packets : List (List ℕ)
packets = replicate buffer_size 7 ∷ (1 ∷ 2 ∷ []) ∷ []

client_stream_channel-Written_example :
    (d : Streamed) × (client_stream_channel stream 0 64 (some 5) 9 device (
        arrives
          (open_request (47 ∷ 0 ∷ []) 4096 ++ (call_write_stream ∷ []))
          (frames buffer_size packets))
      ≡ some (record {
        streamed = d;
        answered = handshake_ack ++ to_le 4 9;
        log =
            close_stream (record { id = 5; kind = stream_device; path = 64 })
            ∷ free_devices
            ∷ free_context
            ∷ [];
      }))
    × Written device d (flatten packets)
client_stream_channel-Written_example =
    client_stream_channel-Written stream 0 4096 64 5 9 (47 ∷ 0 ∷ []) device
      (replicate buffer_size 7) ((1 ∷ 2 ∷ []) ∷ []) device-RingIsValid completes-Willing
      (λ n. completes-Willing) (λ k. tt) (omega arith, (omega arith, tt))
      (omega arith, (omega arith, tt)) refl (unfold has_nul in refl) (omega arith) (omega arith)

-- Two buffers go through, the second larger than a packet.
abbrev fetched : List ReadRound
fetched =
    round (replicate 8192 3) ∷ round (replicate 9000 4) ∷ record (round []) { written = false } ∷ []

read_packets-read_stream_inf_example :
    (l' : LocalBuffer) × (sent : List (List ℕ)) × (s' : Socket) × (read_stream_inf fetched device
      ≡ some (l', sent))
    × Reads device l' 2
    × (read_packets 2 8192 2 (record { handshaked = false; remain_recv_size = 0 }) (segments sent)
        ≡ finished (take send_size (replicate 8192 3) ∷ take send_size (replicate 9000 4) ∷ [], s'))
read_packets-read_stream_inf_example =
    read_packets-read_stream_inf 2 8192 fetched device
      (record { handshaked = false; remain_recv_size = 0 }) (omega arith) (omega arith)
      device-RingIsValid
      (
        (completes-Willing, completes-Willing, λ k. tt),
        (
          (completes-Willing, completes-Willing, λ k. tt),
          ((completes-Willing, completes-Willing, λ k. tt), tt),
        ),
      )
      (
        (
          omega (arith, length-replicate {A = ℕ} 8192 3),
          λ y. omega (arith, length-replicate {A = ℕ} 8192 3),
        ),
        (
          (
            omega (arith, length-replicate {A = ℕ} 9000 4),
            λ y. omega (arith, length-replicate {A = ℕ} 9000 4),
          ),
          ((omega arith, λ y. absurd (ground arith)), tt),
        ),
      )
