-- ===== src/Local/Contents.antt =====
-- The local backend hands buffers back and forth and changes no byte of them.
use streamio.Common.{
  ℕ, zero, suc, ◌+◌, ◌/◌, ◌%◌, ◌^◌, ◌≡◌, refl, ap, ◌∙◌, inl, inr, Bool-cases, Option, some,
  get_elem?, set, arith, ◌==◌, >>=-eq-some, some-subst, Option-cases,
}
use streamio.Dma
use streamio.Dma.{
  ChannelBuffer, Channel, start_xfer, finish_xfer, sizeof_channel_buffer, on_channel,
}
use streamio.Dma.Contents.{contents, bytes-set, ioctl-contents}
use streamio.Local.{
  LocalBuffer, Answers, is_clear, finish_if_pending, finish_from, io_stream_zc_buffer_local,
  io_write_stream_local, io_finish_stream_local,
}

finish_if_pending-contents :
    (a : Answers) (i : ℕ) (c : Channel) {c' : Channel}
    → finish_if_pending a i c ≡ some c'
    → contents c' ≡ contents c
unfolding finish_if_pending
finish_if_pending-contents a i c {c'} e =
    let (b, eb, e1) = >>=-eq-some (get_elem? c.buffer_table i) _ e in
    elim (Bool-cases (is_clear b.status)) [
      | inl y ↦
          let same : some c ≡ some c' = ground (arith, e1) in
          some-subst (λ (x : Channel). contents x ≡ contents c) same refl
      | inr n ↦ ioctl-contents finish_xfer i a.submit a.finish c {c' = c'} (ground (arith, e1))
    ]

pub io_stream_zc_buffer_local-contents :
    (a : Answers) (l : LocalBuffer) {l' : LocalBuffer} {r : Option ℕ}
    → io_stream_zc_buffer_local a l ≡ some (l', r)
    → contents l'.channel ≡ contents l.channel
unfolding io_stream_zc_buffer_local
io_stream_zc_buffer_local-contents a l {l'} {r} e =
    let (c, e1, e2) = >>=-eq-some (finish_if_pending a l.current_buffer_id l.channel) _ e in
    let (b, eb, e3) = >>=-eq-some (get_elem? c.buffer_table l.current_buffer_id) _ e2 in
    let same : l'.channel ≡ c = ground (arith, e3) in
    ap contents same ∙ finish_if_pending-contents a l.current_buffer_id l.channel e1

pub io_write_stream_local-contents :
    (a : Answers) (offset size : ℕ) (l : LocalBuffer) {l' : LocalBuffer} {n : ℕ}
    → io_write_stream_local a offset size l ≡ some (l', n)
    → contents l'.channel ≡ contents l.channel
unfolding io_write_stream_local
io_write_stream_local-contents a offset size l {l'} {n} e =
    let i = offset / sizeof_channel_buffer in
    let (b, eb, e1) = >>=-eq-some (get_elem? l.channel.buffer_table i) _ e in
    let b' : ChannelBuffer = record b { length = size % 2 ^ 32 } in
    let c : Channel = record (l.channel) { buffer_table = set l.channel.buffer_table i b' } in
    let sent = on_channel (Dma.ioctl start_xfer i a.submit a.finish (some c)) in
    elim (Bool-cases (offset % sizeof_channel_buffer == 0)) [
      | inr n ↦ absurd (ground (arith, e1))
      | inl y ↦ elim (Option-cases sent) [
        | inl n ↦ absurd (ground (arith, e1))
        | inr (c', e2) ↦
            let same : l'.channel ≡ c' = ground (arith, e1, e2) in
            ap contents same
            ∙ ioctl-contents start_xfer i a.submit a.finish c e2
            ∙ bytes-set l.channel.buffer_table i b b' eb refl
      ]
    ]

finish_from-contents :
    (n : ℕ) (answers : ℕ → Answers) (i : ℕ) (c : Channel) {c' : Channel}
    → finish_from n answers i c ≡ some c'
    → contents c' ≡ contents c
unfolding finish_from
finish_from-contents zero answers i c e =
    some-subst (λ (x : Channel). contents x ≡ contents c) e refl
finish_from-contents (suc n) answers i c e =
    let (c1, e1, e2) = >>=-eq-some (finish_if_pending (answers i) i c) _ e in
    finish_from-contents n answers (i + 1) c1 e2 ∙ finish_if_pending-contents (answers i) i c e1

pub io_finish_stream_local-contents :
    (answers : ℕ → Answers) (l : LocalBuffer) {l' : LocalBuffer}
    → io_finish_stream_local answers l ≡ some l'
    → contents l'.channel ≡ contents l.channel
unfolding io_finish_stream_local
io_finish_stream_local-contents answers l {l'} e =
    let (c, e1, e2) = >>=-eq-some (finish_from l.buffer_count answers 0 l.channel) _ e in
    let same : l'.channel ≡ c = ground (arith, e2) in
    ap contents same ∙ finish_from-contents l.buffer_count answers 0 l.channel e1
