-- ===== src/Server/Threads/Alone.antt =====
-- A task that no other interrupts does what `handle_context` of Server.antt does.
use streamio.Common.{
  ℕ, zero, suc, ◌+◌, ◌<◌, ◌≡◌, refl, ap, ◌∙◌, inl, inr, Bool, true, false, Option, none, some, List,
  [], ◌∷◌, ◌++◌, arith, length, set, take, drop, from_le, ltb, ◌==◌, if◌then◌else◌, Bool-cases,
  Option-cases,
}
use streamio.Remote.{Socket, recv}
use streamio.Server.{
  null, live, freed, Handled, find_null, is_null, open_context, close_slot, close_context,
  handle_context, op_type, frame_op_open, frame_op_clos, max_context_count,
}
use streamio.Server.Threads.View.{
  get_elem?-tabulate, slot, view, slot-none, slot-some, is_null-slot, view-eq, slot-eq,
}
use streamio.Server.Threads.{
  update, Shared, Pc, returned, ready, looking, testing, crashed, Move, create, reply, reply_fails,
  discard, pass, give_up, store, out_of_range, not_open, entry_found, load, close, close_freed,
}
use streamio.Server.Threads.Owners.{Owned}

-- The moves of one task between which no other task moves.
pub data Alone : Shared → Pc → Shared → Pc → Type 0 where
  done : {m : Shared} {p : Pc} → Alone m p m p
  next :
      {m m' m'' : Shared} {p p' p'' : Pc} → Move m p m' p' → Alone m' p' m'' p'' → Alone m p m'' p''

-- Where `handle_context` starts on a frame, and where it goes on when it has returned.
abbrev pub handler : List ℕ → List ℕ → Socket → Pc
handler junk frame s =
    let bs = (recv 12 s).0 in
    if op_type frame == frame_op_open
    then looking 0
    else if op_type frame == frame_op_clos
    then testing (from_le (take 4 (drop 8 (bs ++ drop (length bs) junk))))
    else returned

abbrev pub resume : Bool → Pc
resume true = ready
resume false = returned

-- The task reaches what `handle_context` returns, or crashes where that faults.
pub data Follows (m : Shared) (p : Pc) : Option Handled → Type 0 where
  crashes : {m' : Shared} {r : Option Handled} → Alone m p m' crashed → r ≡ none → Follows m p r
  answers :
      {m' : Shared} (h : Handled) {r : Option Handled}
      → r ≡ some h
      → Alone m p m' (resume h.success)
      → view m' ≡ h.server
      → Follows m p r

-- The loop over the entries comes to the first that is null.
data Looks (m : Shared) (i : ℕ) : Option (Option ℕ) → Type 0 where
  full : {r : Option (Option ℕ)} → r ≡ some none → Alone m (looking i) m returned → Looks m i r
  at :
      (j : ℕ) {r : Option (Option ℕ)}
      → r ≡ some (some j)
      → j < 4
      → m.opened_ctx_list j ≡ none
      → Alone m (looking i) m (looking j)
      → Looks m i r

one_more :
    (i c : ℕ) (m : Shared) {r : Option (Option ℕ)}
    → i < 4
    → m.opened_ctx_list i ≡ some c
    → Looks m (i + 1) r
    → Looks m i r
one_more i c m lt e (full q run) = full q (next (pass lt e) run)
one_more i c m lt e (at j q le free run) = at j q le free (next (pass lt e) run)

find_null-Looks :
    (n i : ℕ) (m : Shared) → i + n ≡ 4 → Looks m i (find_null n i (view m).opened_ctx_list)
unfolding find_null is_null
find_null-Looks zero i m e = full refl (next (give_up (omega arith)) done)
find_null-Looks (suc n) i m e =
    let got = get_elem?-tabulate 5 i (slot m) (omega arith) in
    let rest = find_null-Looks n (i + 1) m (omega arith) in
    elim (Option-cases (m.opened_ctx_list i)) [
      | inl free ↦ rw (got, slot-none i m free) (at i refl (omega arith) free done)
      | inr (c, q) ↦ rw (got, is_null-slot i m q) (one_more i c m (omega arith) q rest)
    ]

chain :
    {m m' m'' : Shared} {p p' p'' : Pc} → Alone m p m' p' → Alone m' p' m'' p'' → Alone m p m'' p''
chain done run = run
chain (next mv run) rest = next mv (chain run rest)

module _ (m : Shared) (pc : ℕ → Pc) (inv : Owned m pc) where
  -- What an OPEN at entry `i` leaves, when its reply goes out and when it does not.
  abbrev stored : ℕ → Shared
  stored i = record {
    opened_ctx_list = update m.opened_ctx_list i (some m.open_count);
    open_count = m.open_count + 1;
    is_open = update m.is_open m.open_count true;
    told = m.told ++ (i ∷ []);
    unsent = m.unsent;
  }

  abbrev dropped : ℕ → Shared
  dropped i = record {
    opened_ctx_list = update m.opened_ctx_list i none;
    open_count = m.open_count + 1;
    is_open = update (update m.is_open m.open_count true) m.open_count false;
    told = m.told;
    unsent = m.unsent + 1;
  }

  view-stored :
      (i : ℕ) → i < 4 → (view (stored i)).opened_ctx_list ≡ set (view m).opened_ctx_list i live
  view-stored i lt = view-eq m (stored i) i live (omega arith) (ground arith) (λ j ne.
      slot-eq m (stored i) j (ground arith) (λ c e. ground (arith, inv.stored_created j c e)))

  view-dropped :
      (i : ℕ) → i < 4 → (view (dropped i)).opened_ctx_list ≡ set (view m).opened_ctx_list i null
  view-dropped i lt = view-eq m (dropped i) i null (omega arith) (ground arith) (λ j ne.
      slot-eq m (dropped i) j (ground arith) (λ c e. ground (arith, inv.stored_created j c e)))

  open_context-Follows :
      (sent : Bool) (s : Socket)
      → Looks m 0 (find_null 4 0 (view m).opened_ctx_list)
      → Follows m (looking 0) (open_context sent (view m) s)
  unfolding open_context
  open_context-Follows sent s (full q run) =
      answers (record { server = view m; socket = s; success = false }) (rw q refl) run refl
  open_context-Follows true s (at j q lt free run) =
      answers
        (record {
          server = record {
            opened_ctx_list = set (view m).opened_ctx_list j live;
            told = m.told ++ (j ∷ []);
          };
          socket = s;
          success = true;
        })
        (rw q refl) (chain run (next (create lt free) (next reply (next store done))))
        (ap (λ l. record { opened_ctx_list = l; told = m.told ++ (j ∷ []) }) (view-stored j lt))
  open_context-Follows false s (at j q lt free run) =
      answers
        (record {
          server = record { opened_ctx_list = set (view m).opened_ctx_list j null; told = m.told };
          socket = s;
          success = false;
        })
        (rw q refl) (chain run (next (create lt free) (next reply_fails (next discard done))))
        (ap (λ l. record { opened_ctx_list = l; told = m.told }) (view-dropped j lt))

  -- What a CLOSE leaves: the entry keeps the number of its context.
  abbrev shut : ℕ → Shared
  shut c = record m { is_open = update m.is_open c false }

  view-shut :
      (i c : ℕ)
      → i < max_context_count
      → m.opened_ctx_list i ≡ some c
      → (view (shut c)).opened_ctx_list ≡ set (view m).opened_ctx_list i freed
  view-shut i c lt e =
      view-eq m (shut c) i freed lt (slot-some i (shut c) e ∙ (ground arith))
        (λ j ne. slot-eq m (shut c) j refl (λ d q. ground (arith, inv.entries_differ i j c e)))

  close_slot-Follows :
      (id : ℕ) (s : Socket)
      → id < max_context_count
      → Follows m (testing id) (close_slot id (slot m id) (view m) s)
  unfolding close_slot
  close_slot-Follows id s lt = elim (Option-cases (m.opened_ctx_list id)) [
    | inl n ↦ rw (slot-none id m n) (
        answers (record { server = view m; socket = s; success = false }) refl
          (next (not_open lt n) done) refl)
    | inr (c, e) ↦ elim (Bool-cases (m.is_open c)) [
      | inl y ↦
          rw (slot-some id m e, y)
            (answers
              (record {
                server = record {
                  opened_ctx_list = set (view m).opened_ctx_list id freed;
                  told = m.told;
                };
                socket = s;
                success = true;
              })
              refl (next (entry_found lt e) (next (load e) (next (close y) done)))
              (ap (λ l. record { opened_ctx_list = l; told = m.told }) (view-shut id c lt e)))
      | inr y ↦
          rw (slot-some id m e, y)
            (crashes (next (entry_found lt e) (next (load e) (next (close_freed y) done))) refl)
    ]
  ]

  close_context-Follows :
      (junk frame : List ℕ) (s : Socket)
      → Follows m
          (testing (from_le (take 4 (drop 8 ((recv 12 s).0 ++ drop (length (recv 12 s).0) junk)))))
          (close_context junk (view m) s)
  unfolding close_context
  close_context-Follows junk frame s =
      let bs = (recv 12 s).0 in
      let id = from_le (take 4 (drop 8 (bs ++ drop (length bs) junk))) in
      elim (Bool-cases (ltb id max_context_count)) [
        | inl y ↦
            rw (y, get_elem?-tabulate max_context_count id (slot m) (ground arith))
              (close_slot-Follows id (recv 12 s).1 (ground arith))
        | inr n ↦ rw n (
            answers (record { server = view m; socket = (recv 12 s).1; success = false }) refl
              (next (out_of_range (ground arith)) done) refl)
      ]

-- In a state where every context is in one entry at most, a task that no other task interrupts
-- reaches what `handle_context` returns on the frame, with the same list and the same ids, and it
-- crashes where `handle_context` faults.
pub handle_context-Follows :
    (sent : Bool) (junk frame : List ℕ) (m : Shared) (pc : ℕ → Pc) (s : Socket)
    → Owned m pc
    → Follows m (handler junk frame s) (handle_context sent junk frame (view m) s)
unfolding handle_context
handle_context-Follows sent junk frame m pc s inv =
    elim (Bool-cases (op_type frame == frame_op_open)) [
      | inl y ↦ rw (handler, y) (open_context-Follows m pc inv sent s (find_null-Looks 4 0 m refl))
      | inr n ↦ elim (Bool-cases (op_type frame == frame_op_clos)) [
        | inl y ↦ rw (handler, n, y) (close_context-Follows m pc inv junk frame s)
        | inr k ↦
            rw (handler, n, k)
              (answers (record { server = view m; socket = s; success = false }) refl done refl)
      ]
    ]
