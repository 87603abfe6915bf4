-- ===== src/App/LoopTest/Fill.antt =====
-- What a round of main_txrx_test stores in its buffer, userspace/test_app/src/tc_test.c.
use streamio.Common.{
  ℕ, zero, suc, ◌+◌, ◌*◌, ◌%◌, ◌^◌, ◌<◌, ◌≤◌, ◌≡◌, refl, sym, ap, ◌∙◌, some, List, [], ◌∷◌, ◌++◌,
  append_assoc, length, length-append, length-replicate, replicate, get_elem?, take, take-append,
  drop, arith,
}
use streamio.Dma.{ChannelBuffer, Channel, buffer_size, buffer_count}
use streamio.Dma.Contents.{contents}
use streamio.Local.{LocalBuffer}
use streamio.Local.Ring.{RingIsValid}
use streamio.Remote.Deliver.{put_bytes}
use streamio.Remote.Deliver.Calls.{put, put_at, put_bytes-put}
use streamio.App.{header_bytes, word_bytes}
use streamio.App.Transmit.{packet_bytes, length-word_bytes, length-header_bytes}
use streamio.App.LoopTest.{loop_size, loop_header, loop_words, stale_bytes}
use streamio.App.LoopTest.Stale.{
  AllRoom, SameBut, stale_bytes-header, put_at-SameBut, AllRoom-SameBut,
}

-- Words that go up by one, in 32 bits.
pub ascending : ℕ → ℕ → List ℕ
ascending zero k = []
ascending (suc n) k = k % 2 ^ 32 ∷ ascending n (k + 1)

loop_words-ascending :
    (n i start j : ℕ) → loop_words n i start j ≡ ascending n (start + i + j * loop_size)
unfolding loop_words ascending
loop_words-ascending zero i start j = refl
loop_words-ascending (suc n) i start j =
    let next : start + (i + 1) + j * loop_size ≡ start + i + j * loop_size + 1 = omega arith in
    ap (◌∷◌ ((start + i + j * loop_size) % 2 ^ 32))
      (loop_words-ascending n (i + 1) start j ∙ ap (ascending n) next)

length-loop_words : (n i start j : ℕ) → length (loop_words n i start j) ≡ n
unfolding loop_words ascending
length-loop_words zero i start j = refl
length-loop_words (suc n) i start j = ap suc (length-loop_words n (i + 1) start j)

-- The packet of round `j`: its words go on where those of the last round end.
abbrev pub loop_packet : ℕ → ℕ → List ℕ
loop_packet start j =
    header_bytes (loop_header start j) ++ word_bytes (ascending loop_size (start + j * loop_size))

stored-loop_packet :
    (start j : ℕ)
    → header_bytes (loop_header start j) ++ word_bytes (loop_words loop_size 0 start j)
      ≡ loop_packet start j
stored-loop_packet start j =
    let first : start + 0 + j * loop_size ≡ start + j * loop_size = omega arith in
    ap (λ ws. header_bytes (loop_header start j) ++ word_bytes ws)
      (loop_words-ascending loop_size 0 start j ∙ ap (ascending loop_size) first)

length-loop_packet : (start j : ℕ) → length (loop_packet start j) ≡ packet_bytes loop_size
length-loop_packet start j =
    let h = header_bytes (loop_header start j) in
    let ws = loop_words loop_size 0 start j in
    ap length (sym (stored-loop_packet start j))
    ∙ omega (
      arith,
      length-append h (word_bytes ws),
      length-header_bytes (loop_header start j),
      length-word_bytes ws,
      length-loop_words loop_size 0 start j,
    )

-- The filled buffer, with the header and then the words stored in it.
pub record Filled (start j : ℕ) (i : ℕ) (l : LocalBuffer) (c3 : Channel) : Type 0 where
  pub valid : RingIsValid (record l { channel = c3 })
  pub issued : c3.issued ≡ l.channel.issued
  pub base : c3.buffer_phys_addr ≡ l.channel.buffer_phys_addr
  pub buffer : ChannelBuffer
  pub rest : List ℕ
  pub found : get_elem? c3.buffer_table i ≡ some buffer
  pub packet : buffer.buffer ≡ loop_packet start j ++ rest
  pub same : SameBut i l.channel c3

pub fill_buffer :
    (start j i : ℕ) (l : LocalBuffer) (b : ChannelBuffer)
    → RingIsValid l
    → i < buffer_count
    → get_elem? l.channel.buffer_table i ≡ some b
    → stale_bytes b.buffer ≤ buffer_size
    → (c1 : Channel) × (c2 : Channel) × (c3 : Channel) × (put_bytes i 0
          (replicate (stale_bytes b.buffer) 255)
          l.channel
        ≡ some c1)
      × (put_bytes i 0 (header_bytes (loop_header start j)) c1 ≡ some c2)
      × (put_bytes i 12 (word_bytes (loop_words loop_size 0 start j)) c2 ≡ some c3)
      × Filled start j i l c3
fill_buffer start j i l b v lt e fit =
    let ones : List ℕ = replicate (stale_bytes b.buffer) 255 in
    let head = header_bytes (loop_header start j) in
    let body = word_bytes (loop_words loop_size 0 start j) in
    let twelve : length head ≡ 12 = length-header_bytes (loop_header start j) in
    let (e1, v1, f1) =
      put_bytes-put i 0 ones b l v lt e
        (omega (arith, fit, length-replicate {A = ℕ} (stale_bytes b.buffer) 255)) in
    let c1 = put_at i 0 ones b l.channel in
    let b1 = put 0 ones b in
    let (e2, v2, f2) =
      put_bytes-put i 0 head b1 (record l { channel = c1 }) v1 lt f1 (omega (arith, twelve)) in
    let c2 = put_at i 0 head b1 c1 in
    let b2 = put 0 head b1 in
    let (e3, v3, f3) =
      put_bytes-put i 12 body b2 (record l { channel = c2 }) v2 lt f2
        (omega (
          arith,
          length-word_bytes (loop_words loop_size 0 start j),
          length-loop_words loop_size 0 start j,
        )) in
    let rest = drop (12 + length body) b2.buffer in
    let front : take 12 b2.buffer ≡ head =
      ap (λ n. take n b2.buffer) (sym twelve)
      ∙ take-append head (drop (0 + length head) b1.buffer) in
    (
      c1,
      c2,
      put_at i 12 body b2 c2,
      e1,
      e2,
      e3,
      record {
        valid = v3;
        issued = refl;
        base = refl;
        buffer = put 12 body b2;
        rest = rest;
        found = f3;
        packet =
            ap (λ x. x ++ (body ++ rest)) front
            ∙ sym (append_assoc head body rest)
            ∙ ap (λ x. x ++ rest) (stored-loop_packet start j);
        same = λ k ne.
            put_at-SameBut i 12 body b2 c2 k ne
            ∙ put_at-SameBut i 0 head b1 c1 k ne
            ∙ put_at-SameBut i 0 ones b l.channel k ne;
      },
    )

pub fill_buffer-memory :
    (start j i : ℕ) (l : LocalBuffer) (c : Channel) (f : Filled start j i l c)
    → take (packet_bytes loop_size) f.buffer.buffer ≡ loop_packet start j
fill_buffer-memory start j i l c f =
    ap (take (packet_bytes loop_size)) f.packet
    ∙ ap (λ n. take n (loop_packet start j ++ f.rest)) (sym (length-loop_packet start j))
    ∙ take-append (loop_packet start j) f.rest

-- A buffer that holds the round's packet has room for the next.
pub Filled-AllRoom :
    (start j i : ℕ) (l : LocalBuffer) (c : Channel)
    → Filled start j i l c
    → AllRoom (contents l.channel)
    → AllRoom (contents c)
Filled-AllRoom start j i l c f room =
    let body = word_bytes (ascending loop_size (start + j * loop_size)) in
    let eq : header_bytes (loop_header start j) ++ (body ++ f.rest) ≡ f.buffer.buffer =
      sym (append_assoc (header_bytes (loop_header start j)) body f.rest) ∙ sym f.packet in
    AllRoom-SameBut i f.buffer l.channel c room f.same f.found
      (rw (← eq) (stale_bytes-header start j (body ++ f.rest)))
