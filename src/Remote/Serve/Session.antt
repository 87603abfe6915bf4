-- ===== src/Remote/Serve/Session.antt =====
-- A session that writes to a stream device, userspace/io_backend/src/io_backend.c and
-- io_backend_call.c.
use streamio.Common.{
  ℕ, ◌^◌, ◌<◌, ◌≡◌, refl, ◌∙◌, true, some, List, [], ◌∷◌, ◌++◌, map, length, take, to_le, arith,
  inl, inr, Option-cases, length-take,
}
use streamio.Context.{
  io_create_context, io_add_stream_device, io_close_context, add_device, io_append_device,
  io_count_devices, count_from, copy_devices, close_devices, close_device, close_stream,
  free_devices, free_context, stream_device,
}
use streamio.Dma.{buffer_size, buffer_count}
use streamio.Dma.Bounds.{InRange}
use streamio.Local.{LocalBuffer, Answers}
use streamio.Local.Ring.{RingIsValid}
use streamio.Local.Drain.{cycle, IsBack, io_finish_stream_local-IsBack}
use streamio.Remote.{Socket, arrives, call_write_stream, command_front}
use streamio.Remote.Session.{
  open_request, has_nul, client_device_option-open_request, handshake_ack,
}
use streamio.Remote.Upload.{client_cmd_write_stream_inf_skip}
use streamio.Remote.Repack.{flatten, AllFull}
use streamio.Remote.Repack.Frames.{Fits, AllShort, frames}
use streamio.Remote.Deliver.{get_buffer, write_stream_inf, store_local}
use streamio.Remote.Deliver.Stream.{write_stream_inf-Streams}
use streamio.Remote.Deliver.Calls.{Willing, whole}
use streamio.Remote.Serve.{Stream, Streamed, client_stream_cmd_handle, client_stream_channel}

write_stream_inf_skip :
    (first : Answers) (answers : ℕ → Answers) (cmd acks : ℕ) (l : LocalBuffer) (s : Socket)
    → write_stream_inf first answers cmd acks l (arrives [] s)
      ≡ write_stream_inf first answers cmd acks l s
unfolding write_stream_inf
write_stream_inf_skip first answers cmd acks l s = elim (Option-cases (get_buffer first l)) [
  | inl e ↦ rw e refl
  | inr (r, e) ↦ rw e (client_cmd_write_stream_inf_skip (store_local answers) acks _ s)
]

-- A session that only writes: the transfers are those of the buffers that were handed over, all of
-- them full and back; together with `rest`, which is less than a buffer, they make up `bytes`.
pub record Written (l : LocalBuffer) (d : Streamed) (bytes : List ℕ) : Type 0 where
  pub queue :
      d.device.channel.issued
      ≡ l.channel.issued
        ++ map (whole l.channel.buffer_phys_addr) (cycle l.current_buffer_id (length d.handed))
  pub full : AllFull buffer_size d.handed
  pub back : (j : ℕ) → j < buffer_count → IsBack d.device.channel j
  pub rest : List ℕ
  pub short : length rest < buffer_size
  pub all : flatten d.handed ++ rest ≡ bytes

client_stream_cmd_handle-Written :
    (e : Stream) (junk : ℕ) (l : LocalBuffer) (p : List ℕ) (ps : List (List ℕ))
    → RingIsValid l
    → Willing e.first
    → ((n : ℕ) → Willing (e.answers n))
    → ((k : ℕ) → InRange (e.sync k).finish.meanwhile)
    → Fits buffer_size 0 (p ∷ ps)
    → AllShort buffer_size (p ∷ ps)
    → e.acks ≡ length ps
    → (d : Streamed) × (client_stream_cmd_handle e junk l
          (arrives (call_write_stream ∷ []) (frames buffer_size (p ∷ ps)))
        ≡ some d)
      × Written l d (flatten (p ∷ ps))
unfolding client_stream_cmd_handle
client_stream_cmd_handle-Written e junk l p ps v w0 w known f h acks =
    let s = frames buffer_size (p ∷ ps) in
    let (m, s2, run, t) = write_stream_inf-Streams e.first e.answers junk l p ps v w0 w f h in
    let (l', e1, v1, c1, q1, back, b1) =
      io_finish_stream_local-IsBack e.sync m.packing.device t.valid known in
    (
      record { device = l'; handed = m.packing.handed; sent = [] },
      rw
          (
            command_front call_write_stream junk [] s (omega arith),
            acks,
            write_stream_inf_skip e.first e.answers junk (length ps) l s,
            run,
            e1,
          )
          refl,
      record {
        queue = q1 ∙ t.queue;
        full = t.full;
        back = back;
        rest = take m.packing.buffer_ptr t.buffer.buffer;
        short = omega (arith, length-take m.packing.buffer_ptr t.buffer.buffer, t.room);
        all = t.all;
      },
    )

pub client_stream_channel-Written :
    (e : Stream) (junk size file_path id fd : ℕ) (path : List ℕ) (l : LocalBuffer) (p : List ℕ)
    (ps : List (List ℕ))
    → RingIsValid l
    → Willing e.first
    → ((n : ℕ) → Willing (e.answers n))
    → ((k : ℕ) → InRange (e.sync k).finish.meanwhile)
    → Fits buffer_size 0 (p ∷ ps)
    → AllShort buffer_size (p ∷ ps)
    → e.acks ≡ length ps
    → has_nul path ≡ true
    → length path < 2 ^ 32
    → size < 2 ^ 64
    → (d : Streamed) × (client_stream_channel e junk file_path (some id) fd l (
          arrives
            (open_request path size ++ (call_write_stream ∷ []))
            (frames buffer_size (p ∷ ps)))
        ≡ some (record {
          streamed = d;
          answered = handshake_ack ++ to_le 4 fd;
          log =
              close_stream (record { id = id; kind = stream_device; path = file_path })
              ∷ free_devices
              ∷ free_context
              ∷ [];
        }))
      × Written l d (flatten (p ∷ ps))
unfolding client_stream_channel io_create_context io_add_stream_device io_close_context add_device
    io_append_device io_count_devices count_from copy_devices close_devices close_device
client_stream_channel-Written e junk size file_path id fd path l p ps v w0 w known f h acks nul lt
      z =
    let s = frames buffer_size (p ∷ ps) in
    let (d, run, t) = client_stream_cmd_handle-Written e junk l p ps v w0 w known f h acks in
    (
      d,
      rw (client_device_option-open_request junk size path (call_write_stream ∷ []) s nul lt z, run)
          refl,
      t,
    )
