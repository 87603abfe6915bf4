-- ===== src/Server/Threads/Owners.antt =====
-- Who has a context: an entry of the list, or the one task that created it.
use streamio.Common.{ℕ, ◌<◌, ◌≤◌, ◌≡◌, refl, ◌≢◌, Option, none, some, arith}
use streamio.Server.Threads.{
  update, Shared, Pc, replying, storing, dropping, Move, accept, create, Pool, turn, started, Reach,
  start, later,
}

-- The context of an OPEN, from its creation until it is stored or dropped, and its entry.
abbrev pub held : Pc → Option ℕ
held (replying i c) = some c
held (storing i c) = some c
held (dropping i c) = some c
held p = none

-- The entry at which an OPEN will write.
abbrev pub aim : Pc → ℕ
aim (replying i c) = i
aim (storing i c) = i
aim (dropping i c) = i
aim p = 0

-- A context is in one entry at most or with one task, never both; an OPEN writes at one of the first
-- four entries; what an entry or a task has was created.
pub record Owned (m : Shared) (pc : ℕ → Pc) : Type 0 where
  pub entries_differ :
      (i j c : ℕ) → m.opened_ctx_list i ≡ some c → m.opened_ctx_list j ≡ some c → i ≡ j
  pub held_once : (t u c : ℕ) → held (pc t) ≡ some c → held (pc u) ≡ some c → t ≡ u
  pub not_stored : (t i c : ℕ) → held (pc t) ≡ some c → m.opened_ctx_list i ≢ some c
  pub held_created : (t c : ℕ) → held (pc t) ≡ some c → c < m.open_count
  pub stored_created : (i c : ℕ) → m.opened_ctx_list i ≡ some c → c < m.open_count
  pub aims : (t : ℕ) → aim (pc t) < 4
  pub last_null : (i : ℕ) → 4 ≤ i → m.opened_ctx_list i ≡ none

-- The guard of a move, for clauses that do not name it.
abbrev Guard : {m m' : Shared} {p p' : Pc} → Move m p m' p' → Type 0
Guard (create {i} lt e) = i < 4
Guard mv = Unit

guard : {m m' : Shared} {p p' : Pc} (mv : Move m p m' p') → Guard mv
guard (create lt e) = lt
guard mv = tt

module _ {m : Shared} {pc : ℕ → Pc} (inv : Owned m pc) (t : ℕ) where
  open inv use {
    entries_differ, held_once, not_stored, held_created, stored_created, aims, last_null,
  }

  Move-entries_differ :
      {m' : Shared} {p p' : Pc}
      → Move m p m' p'
      → pc t ≡ p
      → (i j c : ℕ) → m'.opened_ctx_list i ≡ some c
      → m'.opened_ctx_list j ≡ some c
      → i ≡ j
  Move-entries_differ accept e i j c h k =
      ground (arith, entries_differ i j c, not_stored t i c, not_stored t j c)
  Move-entries_differ mv e i j c h k =
      ground (arith, entries_differ i j c, not_stored t i c, not_stored t j c)

  Move-held_once :
      {m' : Shared} {p p' : Pc}
      → Move m p m' p'
      → pc t ≡ p
      → (u v c : ℕ) → held (update pc t p' u) ≡ some c
      → held (update pc t p' v) ≡ some c
      → u ≡ v
  Move-held_once accept e u v c h k =
      ground (
        arith,
        held_once u v c,
        held_once t u c,
        held_once t v c,
        held_created u c,
        held_created v c,
      )
  Move-held_once mv e u v c h k =
      ground (
        arith,
        held_once u v c,
        held_once t u c,
        held_once t v c,
        held_created u c,
        held_created v c,
      )

  Move-not_stored :
      {m' : Shared} {p p' : Pc}
      → Move m p m' p'
      → pc t ≡ p
      → (u i c : ℕ) → held (update pc t p' u) ≡ some c
      → m'.opened_ctx_list i ≢ some c
  Move-not_stored accept e u i c h k =
      ground (arith, not_stored u i c, not_stored t i c, held_once t u c, stored_created i c)
  Move-not_stored mv e u i c h k =
      ground (arith, not_stored u i c, not_stored t i c, held_once t u c, stored_created i c)

  Move-held_created :
      {m' : Shared} {p p' : Pc}
      → Move m p m' p'
      → pc t ≡ p
      → (u c : ℕ) → held (update pc t p' u) ≡ some c
      → c < m'.open_count
  Move-held_created accept e u c h = ground (arith, held_created u c, held_created t c)
  Move-held_created mv e u c h = ground (arith, held_created u c, held_created t c)

  Move-stored_created :
      {m' : Shared} {p p' : Pc}
      → Move m p m' p'
      → pc t ≡ p
      → (i c : ℕ) → m'.opened_ctx_list i ≡ some c
      → c < m'.open_count
  Move-stored_created accept e i c h = ground (arith, stored_created i c, held_created t c)
  Move-stored_created mv e i c h = ground (arith, stored_created i c, held_created t c)

  Move-aims :
      {m' : Shared} {p p' : Pc} → Move m p m' p' → pc t ≡ p → (u : ℕ) → aim (update pc t p' u) < 4
  Move-aims accept e u = ground (arith, aims u, aims t)
  Move-aims mv e u = ground (arith, aims u, aims t, guard mv)

  Move-last_null :
      {m' : Shared} {p p' : Pc}
      → Move m p m' p'
      → pc t ≡ p
      → (i : ℕ) → 4 ≤ i
      → m'.opened_ctx_list i ≡ none
  Move-last_null accept e i le = ground (arith, last_null i, aims t)
  Move-last_null mv e i le = ground (arith, last_null i, aims t)

  Move-Owned : {m' : Shared} {p' : Pc} → Move m (pc t) m' p' → Owned m' (update pc t p')
  Move-Owned mv = record {
    entries_differ = Move-entries_differ mv refl;
    held_once = Move-held_once mv refl;
    not_stored = Move-not_stored mv refl;
    held_created = Move-held_created mv refl;
    stored_created = Move-stored_created mv refl;
    aims = Move-aims mv refl;
    last_null = Move-last_null mv refl;
  }

started-Owned : Owned started (λ t. Pc.returned)
started-Owned = record {
  entries_differ = λ i j c h k. cc;
  held_once = λ t u c h k. cc;
  not_stored = λ t i c h k. cc;
  held_created = λ t c h. cc;
  stored_created = λ i c h. cc;
  aims = λ t. omega arith;
  last_null = λ i le. refl;
}

-- However the tasks of the pool interleave, and with contexts told apart by their creation, no context is in two entries of the list, none of a task
-- that is about to store it is in the list or with a second task, and the fifth entry stays null.
pub Reach-Owned : {n : ℕ} {s : Pool} → Reach n s → Owned s.shared s.pc
Reach-Owned start = started-Owned
Reach-Owned (later r (turn t lt mv)) = Move-Owned (Reach-Owned r) t mv
