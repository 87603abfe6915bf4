-- ===== src/Server/Tests.antt =====
-- Clients of the server at concrete states, userspace/io_backend/src/io_backend.c.
use streamio.Common.{
  ℕ, ◌*◌, ◌==◌, false, ◌+◌, ◌≡◌, refl, true, some, List, [], ◌∷◌, length, replicate, from_le, arith,
}
use streamio.Remote.{closed, arrives, recv}
use streamio.Server.{
  op_of, ended, Server, Handled, live, null, freed, open_context, close_context, handle_context,
  close_slot, start_task, io_backend,
}
use streamio.Server.Main.{listen, port, pos, SetupAnswers, connected, failed, main}
use streamio.Server.Main.Accept.{Ends}
use streamio.Server.Main.Options.{main-Ends}
use streamio.Server.Slots.{ServerIsValid}
use streamio.Server.Task.{start_task-open_twice, Returns, start_task-Returns}

-- One context is open, and the entry behind it was closed.
abbrev server : Server
server = record { opened_ctx_list = live ∷ freed ∷ null ∷ null ∷ null ∷ []; told = 0 ∷ 1 ∷ [] }

server-ServerIsValid : ServerIsValid server
server-ServerIsValid = record { entries = refl; ids = refl }

io_backend-ServerIsValid : ServerIsValid io_backend
unfolding io_backend
io_backend-ServerIsValid = record { entries = refl; ids = refl }

-- A CLOSE of context 0: the word `hs`, the byte `op`, its padding, and the id.
abbrev close_frame : List ℕ
close_frame = 20 ∷ 69 ∷ 17 ∷ 0 ∷ 1 ∷ 0 ∷ 0 ∷ 0 ∷ 0 ∷ 0 ∷ 0 ∷ 0 ∷ []

abbrev after_close : Handled
after_close = record {
  server = record server { opened_ctx_list = freed ∷ freed ∷ null ∷ null ∷ null ∷ [] };
  socket = arrives [] closed;
  success = true;
}

handle_context-close :
    handle_context true [] close_frame server (arrives close_frame closed) ≡ some after_close
unfolding handle_context open_context close_context close_slot from_le recv
handle_context-close = refl

start_task-Returns_example :
    Returns (start_task 13 (λ k. true) [] (replicate 8 0) server (arrives close_frame closed))
start_task-Returns_example =
    start_task-Returns 13 (λ k. true) [] (replicate 8 0) server (arrives close_frame closed)
      server-ServerIsValid (omega arith)

-- An OPEN frame
abbrev open_frame : List ℕ
open_frame = 20 ∷ 69 ∷ 17 ∷ 0 ∷ 0 ∷ 0 ∷ 0 ∷ 0 ∷ []

open_frame-op : op_of open_frame ≡ 0
unfolding from_le
open_frame-op = refl

start_task-open_twice_example :
    (sv' : Server) × (start_task 2 (λ k. true) [] (replicate 8 0) server (arrives open_frame closed)
      ≡ ended sv')
    × (length sv'.told ≡ length server.told + 2)
start_task-open_twice_example =
    start_task-open_twice 0 [] (replicate 8 0) open_frame server server-ServerIsValid (omega arith)
      refl refl open_frame-op

-- Numbers stand for the strings.
abbrev kernel : SetupAnswers
kernel = record {
  sockfd = some 3;
  reuse_set = true;
  bound = λ addr p. p == 256 * 80;
  signalled = false;
}

-- Two ports are given, the last of which is 80; a signal comes in with the second connection.
main-Ends_example : Ends [] (connected 5 false ∷ connected 6 true ∷ failed ∷ []) (
    main some pos 0
      ((port, 13456) ∷ (listen, 7) ∷ (port, 80) ∷ [])
      kernel
      (connected 5 false ∷ connected 6 true ∷ failed ∷ []))
main-Ends_example =
    main-Ends some pos 0 ((port, 13456) ∷ (listen, 7) ∷ (port, 80) ∷ []) kernel
      (connected 5 false ∷ connected 6 true ∷ failed ∷ [])
      (
        (13456, refl, omega arith, omega arith),
        ((7, refl), ((80, refl, omega arith, omega arith), tt)),
      )
      (3, refl, refl, refl) refl
