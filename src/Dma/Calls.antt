-- ===== src/Dma/Calls.antt =====
-- What one `ioctl` does to the channel, in the terms of its caller.
use streamio.Common.{ℕ, ◌%◌, ◌^◌, ◌<◌, ◌≡◌, refl, some, ◌++◌, get_elem?, arith, some_of_ne_none}
use streamio.Dma.{
  ChannelBuffer, Channel, Submit, Finish, start_xfer, finish_xfer, outcome, start_transfer,
  wait_for_transfer, run_command, ioctl, on_channel, buffer_count,
}
use streamio.Dma.Inv.{
  IsValid, SameShape-IsValid, start_transfer-SameShape, wait_for_transfer-SameShape,
}
use streamio.Dma.Bounds.{InRange, start_transfer-ne-none, wait_for_transfer-ne-none}
use streamio.Dma.Status.{Updates, wait_for_transfer-Updates}
use streamio.Dma.Requests.{takes, requests, started, start_transfer-requests}

module _ (i : ℕ) (a : Submit) (f : Finish) (c : Channel) (b : ChannelBuffer) (v : IsValid c)
    (lt : i < buffer_count) (h : get_elem? c.buffer_table i ≡ some b) where
  -- START_XFER of buffer `i`.
  pub ioctl_start :
      (c' : Channel) × (on_channel (ioctl start_xfer i a f (some c)) ≡ some c')
      × IsValid c'
      × (c'.buffer_phys_addr ≡ c.buffer_phys_addr)
      × (c'.issued ≡ c.issued ++ requests c i b (takes a))
      × Updates c c' i (started c i b (takes a))
  unfolding ioctl run_command
  ioctl_start =
      let e : i % 2 ^ 32 ≡ i = omega arith in
      let c0 : Channel = record c { bdindex = i } in
      let v0 : IsValid c0 = record { buffers = v.buffers; entries = v.entries } in
      let (c', r) = some_of_ne_none (start_transfer a c0) (start_transfer-ne-none v0 a lt) in
      let s = start_transfer-SameShape a c0 r in
      let (q, u) = start_transfer-requests a c0 b v0 lt h r in
      (
        c',
        rw (e, r) refl,
        SameShape-IsValid s v0,
        s.base,
        q,
        record { here = u.here; others = u.others },
      )

  -- FINISH_XFER of buffer `i`.
  pub ioctl_finish :
      InRange f.meanwhile
      → (c' : Channel) × (on_channel (ioctl finish_xfer i a f (some c)) ≡ some c')
        × IsValid c'
        × (c'.buffer_phys_addr ≡ c.buffer_phys_addr)
        × (c'.issued ≡ c.issued)
        × Updates c c' i (record b { status = outcome f.wait f.status })
  unfolding ioctl run_command
  ioctl_finish m =
      let e : i % 2 ^ 32 ≡ i = omega arith in
      let c0 : Channel = record c { bdindex = i } in
      let v0 : IsValid c0 = record { buffers = v.buffers; entries = v.entries } in
      let (c', r) =
        some_of_ne_none (wait_for_transfer f c0) (wait_for_transfer-ne-none f c0 v0 m lt) in
      let s = wait_for_transfer-SameShape f c0 r in
      let (u, q) = wait_for_transfer-Updates f c0 b r h in
      (
        c',
        rw (e, r) refl,
        SameShape-IsValid s v0,
        s.base,
        q,
        record { here = u.here; others = u.others },
      )
