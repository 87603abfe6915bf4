-- ===== src/Remote.antt =====
-- The network protocol: lib/include/bbio/bbio_backend_net.h, with the two ends of a connection,
-- lib/bbio/src/bbio_backend_net.c and userspace/io_backend/src/io_backend_call.c.
-- A socket is what its peer sends: segments in order, then an orderly close. What `recv` gives is
-- one segment or a part of it, as a stream socket may cut the bytes anywhere.
pub mod Mapped
pub mod Upload
pub mod Repack
pub mod Deliver
pub mod Serve
pub mod Download
pub mod Chunks
pub mod Control
pub mod Blocks
pub mod Session
mod Tests
use mathlib.Core.Path.{subst}
use streamio.Common.{
  ℕ, zero, suc, ◌+◌, ◌*◌, ◌<◌, ◌≡◌, refl, sym, ap, ◌∙◌, Bool, true, false, List, [], ◌∷◌, ◌++◌,
  length, take, drop, append-nil, ◌/◌, ap₂, take-append, drop-append, to_le, from_le, length-to_le,
  from_le-to_le, ◌==◌, if◌then◌else◌, arith, ◌%◌, ◌^◌,
}

pub data Socket : Type 0 where
  closed : Socket
  arrives : List ℕ → Socket → Socket

-- `recv(sockfd, p, n, 0)`: the bytes, none at the end of the stream, and the socket after it.
unfoldable pub recv : ℕ → Socket → List ℕ × Socket
recv n closed = ([], closed)
recv n (arrives [] s) = recv n s
recv n (arrives (b ∷ bs) s) = (take n (b ∷ bs), arrives (drop n (b ∷ bs)) s)

-- recv(sockfd, &v, sizeof(v), 0) where `v` holds `old`: the number of bytes, `v` after it, and the
-- socket. A short read overwrites the low bytes only.
pub recv_word : ℕ → ℕ → Socket → ℕ × ℕ × Socket
recv_word size old s =
    let (bs, s') = recv size s in (length bs, from_le (bs ++ drop (length bs) (to_le size old)), s')

-- `enum cmd_call_type`
abbrev pub call_write : ℕ
call_write = 2

abbrev pub call_read : ℕ
call_read = 3

abbrev pub call_write_stream : ℕ
call_write_stream = 6

abbrev pub call_read_stream : ℕ
call_read_stream = 7

-- `CALL_READ_STREAM << 1`, the byte before a packet of a read stream
abbrev pub read_stream_start : ℕ
read_stream_start = 14

-- What is at the front of one segment is received whole.
pub recv_front :
    (xs rest : List ℕ) (s : Socket)
    → 0 < length xs
    → recv (length xs) (arrives (xs ++ rest) s) ≡ (xs, arrives rest s)
unfolding recv
recv_front [] rest s h = elim h [ ]
recv_front (x ∷ xs) rest s h =
    ap₂ (λ a b. (a, arrives b s)) (take-append (x ∷ xs) rest) (drop-append (x ∷ xs) rest)

drop-le : (n x : ℕ) → drop n (to_le n x) ≡ []
unfolding to_le
drop-le zero x = refl
drop-le (suc n) x = drop-le n (x / 256)

-- A word at the front of a segment is received as it was sent.
pub recv_word_front :
    (n x old : ℕ) (rest : List ℕ) (s : Socket)
    → 0 < n
    → x < 256 ^ n
    → recv_word n old (arrives (to_le n x ++ rest) s) ≡ (n, x, arrives rest s)
recv_word_front n x old rest s pos lt =
    let front : recv n (arrives (to_le n x ++ rest) s) ≡ (to_le n x, arrives rest s) =
      subst (λ k. recv k (arrives (to_le n x ++ rest) s) ≡ (to_le n x, arrives rest s))
        (length-to_le n x) (recv_front (to_le n x) rest s (omega (arith, length-to_le n x))) in
    unfold recv_word in
    rw (front, length-to_le n x, drop-le n old, append-nil (to_le n x), from_le-to_le n x lt) refl

-- A command byte at the front of a segment is received as it was sent.
pub command_front :
    (cmd junk : ℕ) (rest : List ℕ) (s : Socket)
    → cmd < 256
    → recv_word 1 junk (arrives (cmd ∷ rest) s) ≡ (1, cmd, arrives rest s)
command_front cmd junk rest s h =
    let byte : cmd % 256 ≡ cmd = omega arith in
    subst (λ b. recv_word 1 junk (arrives (b ∷ rest) s) ≡ (1, cmd, arrives rest s)) byte
      (unfold to_le in recv_word_front 1 cmd junk rest s (omega arith) (omega arith))
