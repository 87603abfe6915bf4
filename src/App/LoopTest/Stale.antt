-- ===== src/App/LoopTest/Stale.antt =====
-- The length that a buffer's last use left in its header, by which main_txrx_test of
-- userspace/test_app/src/tc_test.c fills the buffer.
use streamio.Common.{
  ℕ, zero, suc, ◌≤◌, ◌≡◌, ◌≢◌, refl, sym, ap, ◌∙◌, some, some-subst, List, [], ◌∷◌, ◌++◌,
  append_assoc, length, length-append, get_elem?, set, get_elem?-set_ne, get_elem?-map, drop,
  drop-append, to_le, take-to_le, length-to_le, from_le-to_le, arith,
}
use native.Mathlib.Decide.{ℕ_discrete}
use streamio.Dma.{ChannelBuffer, Channel, buffer_size}
use streamio.Dma.Contents.{bytes, contents}
use streamio.Remote.Deliver.Calls.{put, put_at}
use streamio.App.{header_bytes}
use streamio.App.LoopTest.{loop_size, loop_header, stale_length, stale_bytes}

-- Every buffer's bytes, as they are, have a length in them with which the buffer can be filled.
abbrev pub AllRoom : List (List ℕ) → Type 0
AllRoom bss = (j : ℕ) (bs : List ℕ) → get_elem? bss j ≡ some bs → stale_bytes bs ≤ buffer_size

-- The header is stored first.
pub stale_bytes-header :
    (start j : ℕ) (rest : List ℕ)
    → stale_bytes (header_bytes (loop_header start j) ++ rest) ≤ buffer_size
stale_bytes-header start j rest =
    let a = to_le 4 start in
    let b = to_le 4 j in
    let c = to_le 4 loop_size in
    let split : header_bytes (loop_header start j) ++ rest ≡ (a ++ b) ++ (c ++ rest) =
      append_assoc a (b ++ c) rest
      ∙ ap (λ x. a ++ x) (append_assoc b c rest)
      ∙ sym (append_assoc a b (c ++ rest)) in
    let eight : length (a ++ b) ≡ 8 =
      omega (arith, length-append a b, length-to_le 4 start, length-to_le 4 j) in
    let behind : drop 8 ((a ++ b) ++ (c ++ rest)) ≡ c ++ rest =
      ap (λ n. drop n ((a ++ b) ++ (c ++ rest))) (sym eight) ∙ drop-append (a ++ b) (c ++ rest) in
    let found : stale_length (header_bytes (loop_header start j) ++ rest) ≡ loop_size =
      rw (split, behind, take-to_le 4 loop_size rest) (from_le-to_le 4 loop_size (omega arith)) in
    omega (arith, found)

bytes-set_buffer :
    (bs : List ChannelBuffer) (i : ℕ) (b : ChannelBuffer)
    → bytes (set bs i b) ≡ set (bytes bs) i b.buffer
bytes-set_buffer [] i b = refl
bytes-set_buffer (x ∷ xs) zero b = refl
bytes-set_buffer (x ∷ xs) (suc i) b = ap (◌∷◌ x.buffer) (bytes-set_buffer xs i b)

-- The contents but for those of buffer `i`.
abbrev pub SameBut : ℕ → Channel → Channel → Type 0
SameBut i c c' = (j : ℕ) → i ≢ j → get_elem? (contents c') j ≡ get_elem? (contents c) j

pub put_at-SameBut :
    (i ptr : ℕ) (bs : List ℕ) (b : ChannelBuffer) (c : Channel) → SameBut i c (put_at i ptr bs b c)
put_at-SameBut i ptr bs b c j ne =
    ap (λ x. get_elem? x j) (bytes-set_buffer c.buffer_table i (put ptr bs b))
    ∙ get_elem?-set_ne (contents c) i j (put ptr bs b).buffer ne

pub AllRoom-SameBut :
    (i : ℕ) (b : ChannelBuffer) (c c' : Channel)
    → AllRoom (contents c)
    → SameBut i c c'
    → get_elem? c'.buffer_table i ≡ some b
    → stale_bytes b.buffer ≤ buffer_size
    → AllRoom (contents c')
AllRoom-SameBut i b c c' room same here fits j bs e = elim (ℕ_discrete i j) [
  | yes at ↦
      let there : get_elem? (contents c') i ≡ some b.buffer =
        get_elem?-map (λ (x : ChannelBuffer). x.buffer) c'.buffer_table i here in
      let eq : some b.buffer ≡ some bs = sym there ∙ ap (get_elem? (contents c')) at ∙ e in
      some-subst (λ x. stale_bytes x ≤ buffer_size) eq fits
  | no ne ↦ room j bs (sym (same j ne) ∙ e)
]
