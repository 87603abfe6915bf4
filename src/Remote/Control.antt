-- ===== src/Remote/Control.antt =====
-- client_read_stream_control of userspace/io_backend/src/io_backend_call.c, the thread that reads a
-- client's control bytes. Nothing starts it.
use streamio.Common.{
  ℕ, zero, suc, ◌<◌, ◌≡◌, refl, sym, ap, Bool, true, false, ◌||◌, inl, inr, Bool-cases, Option,
  none, some, List, [], ◌∷◌, length, arith, ◌==◌, if◌then◌else◌,
}
use streamio.Remote.{Socket, closed, arrives, recv}
use streamio.Remote.Repack.{content}

-- CALL_SYNC_STREAM << 1
abbrev pub sync_command : ℕ
sync_command = 16

-- `stop` of `struct stream_status`, and `sync`.
pub record StreamControl : Type 0 where
  pub stop : Bool
  pub sync : Bool

-- while (1): `none` is a loop that goes on.
pub client_read_stream_control : ℕ → Socket → StreamControl → Option StreamControl
unfolding recv
client_read_stream_control zero s ctrl = none
client_read_stream_control (suc fuel) s ctrl =
    let (bs, s') = recv 1 s in
    elim bs [
      | [] ↦ some (record ctrl { stop = true })
      | cmd ∷ more ↦
          client_read_stream_control fuel s'
            (if cmd == sync_command then record ctrl { sync = true } else ctrl)
    ]

abbrev has_sync : List ℕ → Bool
has_sync [] = false
has_sync (b ∷ bs) = b == sync_command || has_sync bs

or_false : (x : Bool) → (x || false) ≡ x
or_false true = refl
or_false false = refl

or_true : (x : Bool) → (x || true) ≡ true
or_true true = refl
or_true false = refl

-- With more rounds than there are bytes the thread ends: `stop` is set then, and `sync` if it was set
-- before or one of the bytes asks for it.
client_read_stream_control_lem :
    (fuel : ℕ) (s : Socket) (ctrl : StreamControl)
    → length (content s) < fuel
    → client_read_stream_control fuel s ctrl
      ≡ some (record { stop = true; sync = ctrl.sync || has_sync (content s) })
unfolding client_read_stream_control recv
client_read_stream_control_lem zero s ctrl lt = absurd (omega (arith, lt))
client_read_stream_control_lem (suc fuel) closed ctrl lt =
    ap (λ x. some (record { stop = true; sync = x })) (sym (or_false ctrl.sync))
client_read_stream_control_lem (suc fuel) (arrives [] s) ctrl lt =
    client_read_stream_control_lem (suc fuel) s ctrl lt
client_read_stream_control_lem (suc fuel) (arrives (b ∷ bs) s) ctrl lt =
    let next = client_read_stream_control_lem fuel (arrives bs s) in
    elim (Bool-cases (b == sync_command)) [
      | inl y ↦ rw (y, or_true ctrl.sync) (next (record ctrl { sync = true }) (omega arith))
      | inr m ↦ rw m (next ctrl (omega arith))
    ]
