-- ===== src/Server/Main/Accept.antt =====
-- What server_main gives to the pool, and how it ends, userspace/io_backend/src/io_backend.c.
use streamio.Common.{
  ℕ, ◌≡◌, refl, sym, ap, ◌∙◌, true, false, some, List, [], ◌∷◌, ◌++◌, map, append_assoc, append-nil,
}
use streamio.Server.Main.{
  ServerOptions, SetupAnswers, Round, connected, failed, Ran, exits, stopped_by_signal, accepting,
  accept_loop, server_main,
}

-- Rounds with a connection and no signal.
abbrev pub calm : List ℕ → List Round
calm fds = map (λ fd. connected fd false) fds

-- The ways the rounds go: nothing but connections so far, then a failing `accept`, or then a connection
-- with a signal.
pub data Ends (work : List ℕ) (rounds : List Round) : Ran → Type 0 where
  still_accepting :
      (fds : List ℕ) {r : Ran}
      → rounds ≡ calm fds
      → r ≡ accepting (work ++ fds)
      → Ends work rounds r
  accept_failed :
      (fds : List ℕ) (rest : List Round) {r : Ran}
      → rounds ≡ calm fds ++ (failed ∷ rest)
      → r ≡ exits 1 (work ++ fds)
      → Ends work rounds r
  stopped :
      (fds : List ℕ) (fd : ℕ) (rest : List Round) {r : Ran}
      → rounds ≡ calm fds ++ (connected fd true ∷ rest)
      → r ≡ stopped_by_signal (work ++ (fds ++ (fd ∷ [])))
      → Ends work rounds r

behind :
    (fd : ℕ) (work : List ℕ) (rounds : List Round) (r : Ran)
    → Ends (work ++ (fd ∷ [])) rounds r
    → Ends work (connected fd false ∷ rounds) r
behind fd work rounds r (still_accepting fds e q) =
    still_accepting (fd ∷ fds) (ap (◌∷◌ (connected fd false)) e)
      (q ∙ ap accepting (append_assoc work (fd ∷ []) fds))
behind fd work rounds r (accept_failed fds rest e q) =
    accept_failed (fd ∷ fds) rest (ap (◌∷◌ (connected fd false)) e)
      (q ∙ ap (exits 1) (append_assoc work (fd ∷ []) fds))
behind fd work rounds r (stopped fds last rest e q) =
    stopped (fd ∷ fds) last rest (ap (◌∷◌ (connected fd false)) e)
      (q ∙ ap stopped_by_signal (append_assoc work (fd ∷ []) (fds ++ (last ∷ []))))

accept_loop-Ends :
    (rounds : List Round) (work : List ℕ) → Ends work rounds (accept_loop false rounds work)
unfolding accept_loop
accept_loop-Ends [] work = still_accepting [] refl (ap accepting (sym (append-nil work)))
accept_loop-Ends (failed ∷ rounds) work =
    accept_failed [] rounds refl (ap (exits 1) (sym (append-nil work)))
accept_loop-Ends (connected fd true ∷ rounds) work = stopped [] fd rounds refl refl
accept_loop-Ends (connected fd false ∷ rounds) work =
    behind fd work rounds (accept_loop false rounds (work ++ (fd ∷ [])))
      (accept_loop-Ends rounds (work ++ (fd ∷ [])))

-- The socket is there, may be used again and is bound.
abbrev pub Listening : {A : Type 0} → SetupAnswers → ServerOptions A → Type 0
Listening a o =
    (fd : ℕ) × (a.sockfd ≡ some fd) × (a.reuse_set ≡ true) × (a.bound o.sin_addr o.sin_port ≡ true)

-- `server_main`, where the socket can be set up and no signal comes in before the loop: it gives every
-- connection to the pool, in their order, until an `accept` fails or a signal comes in. It
-- leaves the loop only if the first signal comes in between the return of an `accept` and the next test
-- of `stop`, and the pool still is given that socket; the first failure of `accept` ends it by an exit with 1.
pub server_main-Ends :
    {A : Type 0} (a : SetupAnswers) (rounds : List Round) (o : ServerOptions A)
    → Listening a o
    → a.signalled ≡ false
    → Ends [] rounds (server_main a rounds o)
unfolding server_main
server_main-Ends a rounds o (fd, e, reuse, bound) calm_start =
    rw (e, reuse, bound, calm_start) (accept_loop-Ends rounds [])
