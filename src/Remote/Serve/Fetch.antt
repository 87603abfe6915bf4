-- ===== src/Remote/Serve/Fetch.antt =====
-- A read stream from the server's device to the client: userspace/io_backend/src/io_backend_call.c,
-- lib/bbio/src/bbio_backend_local.c and lib/bbio/src/bbio_backend_net.c together.
use streamio.Common.{
  ℕ, suc, ◌<◌, ◌≤◌, ◌≡◌, refl, ap, sym, some, List, [], ◌∷◌, map, length, take, inl, inr,
  Bool-cases,
}
use streamio.Local.{LocalBuffer}
use streamio.Local.Ring.{RingIsValid}
use streamio.Remote.{Socket}
use streamio.Remote.Download.{send_size, finished, NetState}
use streamio.Remote.Download.Whole.{
  read_packets, segments, written_buffers, AllLong, read_packets-client_cmd_read_stream_inf,
}
use streamio.Remote.Serve.{ReadRound, read_stream_inf}
use streamio.Remote.Serve.Reads.{
  AllWilling, AllStored, outputs, rounds_done, Reads, read_stream_inf-Reads,
}

length-written_buffers :
    (rounds : List ReadRound) → length (written_buffers (outputs rounds)) ≡ rounds_done rounds
length-written_buffers [] = refl
length-written_buffers (r ∷ rounds) = elim (Bool-cases r.written) [
  | inl y ↦ rw y (ap suc (length-written_buffers rounds))
  | inr n ↦ rw n refl
]

outputs-AllLong :
    (rounds : List ReadRound) → AllStored rounds → AllLong (written_buffers (outputs rounds))
outputs-AllLong [] h = tt
outputs-AllLong (r ∷ rounds) h = elim (Bool-cases r.written) [
  | inl y ↦ rw y (h.0.1 y, outputs-AllLong rounds h.1)
  | inr n ↦ rw n tt
]

pub read_packets-read_stream_inf :
    (fuel room : ℕ) (rounds : List ReadRound) (l : LocalBuffer) (st : NetState)
    → 1 < fuel
    → send_size ≤ room
    → RingIsValid l
    → AllWilling rounds
    → AllStored rounds
    → (l' : LocalBuffer) × (sent : List (List ℕ)) × (s' : Socket) × (read_stream_inf rounds l
        ≡ some (l', sent))
      × Reads l l' (rounds_done rounds)
      × (read_packets fuel room (rounds_done rounds) st (segments sent)
          ≡ finished (map (take send_size) (written_buffers (outputs rounds)), s'))
read_packets-read_stream_inf fuel room rounds l st f h v w stored =
    let (l', run, reads) = read_stream_inf-Reads rounds l v w stored in
    let (s', got) =
      read_packets-client_cmd_read_stream_inf fuel room f h (outputs rounds) st
        (outputs-AllLong rounds stored) in
    (l', _, s', run, reads, rw (sym (length-written_buffers rounds)) got)
