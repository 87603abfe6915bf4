-- ===== src/Server/Slots.antt =====
-- The list of contexts: ids are handed out once, and there are four.
use streamio.Server.Search.{
  vacancies, vacancies-set, vacancies-set_out, Found, absent, present, find_null-Found,
  vacancies-eq-zero,
}
use streamio.Common.{
  ℕ, ◌+◌, ◌≤◌, ◌≡◌, refl, ◌∙◌, ◌&&◌, inl, inr, Bool, true, false, some, List, [], ◌∷◌, ◌++◌, length,
  length-append, length-set, get_elem?, set, take, drop, from_le, arith, ltb, ◌==◌, if◌then◌else◌,
  ◌>>=◌, >>=-eq-some, some-subst, Bool-cases,
}
use native.Mathlib.Decide.{dec_lt}
use streamio.Remote.{Socket, recv}
use streamio.Server.{
  Slot, null, live, freed, Server, Handled, find_null, open_context, close_slot, close_context,
  handle_context, op_type, frame_op_open, frame_op_clos, max_context_count,
}

-- The list has its five entries, and what clients were told and what is null make up four.
pub record ServerIsValid (sv : Server) : Type 0 where
  pub entries : length sv.opened_ctx_list ≡ max_context_count
  pub ids : length sv.told + vacancies 4 sv.opened_ctx_list ≡ 4

-- What an OPEN does, whose reply goes out if `sent`.
pub record Opened (sent : Bool) (sv : Server) (h : Handled) : Type 0 where
  pub valid : ServerIsValid h.server
  pub success : h.success ≡ (sent && ltb (length sv.told) 4)
  pub told : length h.server.told ≡ (if h.success then length sv.told + 1 else length sv.told)

open_context_by_search :
    (sent : Bool) (sv : Server) (s : Socket)
    → ServerIsValid sv
    → Found 4 0 sv.opened_ctx_list (find_null 4 0 sv.opened_ctx_list)
    → (h : Handled) × (open_context sent sv s ≡ some h) × (h.socket ≡ s) × Opened sent sv h
unfolding open_context
open_context_by_search sent sv s v (absent q all) =
    let full = vacancies-eq-zero 4 sv.opened_ctx_list (λ j lt. all j (omega arith) (omega arith)) in
    (
      record { server = sv; socket = s; success = false },
      rw q refl,
      refl,
      record { valid = v; success = ground (arith, v.ids); told = refl },
    )
open_context_by_search true sv s v (present j q le lt e) =
    let count = vacancies-set 4 j sv.opened_ctx_list null live (omega arith) e in
    (
      record {
        server = record {
          opened_ctx_list = set sv.opened_ctx_list j live;
          told = sv.told ++ (j ∷ []);
        };
        socket = s;
        success = true;
      },
      rw q refl,
      refl,
      record {
        valid = record {
          entries = length-set sv.opened_ctx_list j live ∙ v.entries;
          ids = omega (arith, count, v.ids, length-append sv.told (j ∷ []));
        };
        success = ground (arith, count, v.ids);
        told = omega (arith, length-append sv.told (j ∷ []));
      },
    )
open_context_by_search false sv s v (present j q le lt e) =
    let count = vacancies-set 4 j sv.opened_ctx_list null null (omega arith) e in
    (
      record {
        server = record sv { opened_ctx_list = set sv.opened_ctx_list j null };
        socket = s;
        success = false;
      },
      rw q refl,
      refl,
      record {
        valid = record {
          entries = length-set sv.opened_ctx_list j null ∙ v.entries;
          ids = omega (arith, count, v.ids);
        };
        success = refl;
        told = refl;
      },
    )

-- Every OPEN runs without a fault. It succeeds exactly when the reply goes out and fewer than four
-- ids were handed out since the server's start; then one more is handed out, and otherwise none.
pub open_context-Opened :
    (sent : Bool) (sv : Server) (s : Socket)
    → ServerIsValid sv
    → (h : Handled) × (open_context sent sv s ≡ some h) × (h.socket ≡ s) × Opened sent sv h
open_context-Opened sent sv s v =
    open_context_by_search sent sv s v
      (find_null-Found 4 0 sv.opened_ctx_list (omega (arith, v.entries)))

-- A CLOSE leaves the ids as they are: an entry that is closed is not null again.
close_slot-ServerIsValid :
    (i : ℕ) (slot : Slot) (sv : Server) (s : Socket) {h : Handled}
    → ServerIsValid sv
    → get_elem? sv.opened_ctx_list i ≡ some slot
    → close_slot i slot sv s ≡ some h
    → ServerIsValid h.server × (h.server.told ≡ sv.told)
unfolding close_slot
close_slot-ServerIsValid i null sv s v e r =
    some-subst (λ h. ServerIsValid h.server × (h.server.told ≡ sv.told)) r (v, refl)
close_slot-ServerIsValid i freed sv s v e r = absurd (cc)
close_slot-ServerIsValid i live sv s v e r =
    some-subst (λ h. ServerIsValid h.server × (h.server.told ≡ sv.told)) r
      (
        record {
          entries = length-set sv.opened_ctx_list i freed ∙ v.entries;
          ids = elim (dec_lt i 4) [
            | yes p ↦ omega (arith, vacancies-set 4 i sv.opened_ctx_list live freed p e, v.ids)
            | no p ↦
                omega (arith, vacancies-set_out 4 i sv.opened_ctx_list freed (omega arith), v.ids)
          ];
        },
        refl,
      )

close_context-ServerIsValid :
    (junk : List ℕ) (sv : Server) (s : Socket) {h : Handled}
    → ServerIsValid sv
    → close_context junk sv s ≡ some h
    → ServerIsValid h.server × (h.server.told ≡ sv.told)
unfolding close_context
close_context-ServerIsValid junk sv s {h} v e =
    let bs = (recv 12 s).0 in
    let s' = (recv 12 s).1 in
    let id = from_le (take 4 (drop 8 (bs ++ drop (length bs) junk))) in
    elim (Bool-cases (ltb id max_context_count)) [
      | inl y ↦
          let run : (get_elem? sv.opened_ctx_list id >>= λ slot. close_slot id slot sv s')
              ≡ some h =
            ground arith in
          let (slot, e1, e2) = >>=-eq-some (get_elem? sv.opened_ctx_list id) _ run in
          close_slot-ServerIsValid id slot sv s' v e1 e2
      | inr n ↦
          let run : some (record { server = sv; socket = s'; success = false }) ≡ some h =
            ground arith in
          some-subst (λ (k : Handled). ServerIsValid k.server × (k.server.told ≡ sv.told)) run
            (v, refl)
    ]

-- Whatever a client sends, the ids that the server has handed out and its null entries make up four
-- after a frame as before it, and a frame hands out one id at most.
pub handle_context-ServerIsValid :
    (sent : Bool) (junk frame : List ℕ) (sv : Server) (s : Socket) {h : Handled}
    → ServerIsValid sv
    → handle_context sent junk frame sv s ≡ some h
    → ServerIsValid h.server
      × (length sv.told ≤ length h.server.told)
      × (length h.server.told ≤ length sv.told + 1)
unfolding handle_context
handle_context-ServerIsValid sent junk frame sv s {h} v e =
    let (o, eo, same, f) = open_context-Opened sent sv s v in
    elim (Bool-cases (op_type frame == frame_op_open)) [
      | inl y ↦
          let run : some o ≡ some h = ground (arith, eo) in
          some-subst (Grows sv) run (f.valid, ground (arith, f.told), ground (arith, f.told))
      | inr n ↦ elim (Bool-cases (op_type frame == frame_op_clos)) [
        | inl y ↦
            let run : close_context junk sv s ≡ some h = ground arith in
            let (w, t) = close_context-ServerIsValid junk sv s v run in
            (w, ground (arith, t), ground (arith, t))
        | inr m ↦
            let run : some (record { server = sv; socket = s; success = false }) ≡ some h =
              ground arith in
            some-subst (Grows sv) run (v, omega arith, omega arith)
      ]
    ]
  where
    Grows : Server → Handled → Type 0
    Grows a k =
        ServerIsValid k.server
        × (length a.told ≤ length k.server.told)
        × (length k.server.told ≤ length a.told + 1)
