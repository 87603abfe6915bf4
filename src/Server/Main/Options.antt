-- ===== src/Server/Main/Options.antt =====
-- Where the server listens, userspace/io_backend/src/io_backend.c: the last options of each kind.
use streamio.Common.{
  ℕ, ◌^◌, ◌<◌, ◌≡◌, refl, ap, ◌∙◌, false, Option, none, some, List, [], ◌∷◌, arith, ◌>>=◌,
}
use streamio.Server.Main.{
  ℤ, pos, negsuc, htons, ServerOptions, Key, listen, port, device, unknown, input_port,
  SetupAnswers, Round, parse_opt, argp_calls, main,
}
use streamio.Server.Main.Accept.{Listening, Ends, server_main-Ends}

-- The option that `f` finds last, or else `d`.
abbrev pub last_of : {B X : Type 0} → (B → Option X) → X → List B → X
last_of f d [] = d
last_of f d (c ∷ cs) = last_of f (elim (f c) [ none ↦ d | some x ↦ x ]) cs

module _ {A : Type 0} (inet_pton : A → Option ℕ) (atoi : A → ℤ) where
  -- The argument is an address, or a port other than 0.
  abbrev pub IsAccepted : Key × A → Type 0
  IsAccepted (listen, arg) = (addr : ℕ) × (inet_pton arg ≡ some addr)
  IsAccepted (port, arg) = (n : ℕ) × (atoi arg ≡ pos n) × (0 < n) × (n < 2 ^ 16)
  IsAccepted (device, arg) = Unit
  IsAccepted (unknown, arg) = Unit

  abbrev pub AllAccepted : List (Key × A) → Type 0
  AllAccepted [] = Unit
  AllAccepted (c ∷ cs) = IsAccepted c × AllAccepted cs

  abbrev pub address_of : Key × A → Option ℕ
  address_of (listen, arg) = inet_pton arg
  address_of c = none

  abbrev pub port_of : Key × A → Option ℕ
  port_of (port, arg) = elim (atoi arg) [ pos n ↦ some (htons n) | negsuc n ↦ none ]
  port_of c = none

  abbrev pub device_of : Key × A → Option A
  device_of (device, arg) = some arg
  device_of c = none

  abbrev pub chosen : List (Key × A) → ServerOptions A → ServerOptions A
  chosen cs o = record {
    sin_addr = last_of address_of o.sin_addr cs;
    sin_port = last_of port_of o.sin_port cs;
    dev_path = last_of device_of o.dev_path cs;
  }

  input_port-pos : (n : ℕ) → 0 < n → n < 2 ^ 16 → input_port (pos n) ≡ some (htons n)
  unfolding input_port
  input_port-pos n gt lt = ground arith

  parse_opt-chosen :
      (c : Key × A) (o : ServerOptions A)
      → IsAccepted c
      → parse_opt inet_pton atoi c.0 c.1 o ≡ some (chosen (c ∷ []) o)
  unfolding parse_opt
  parse_opt-chosen (listen, arg) o (addr, e) = rw (chosen, last_of, e) refl
  parse_opt-chosen (port, arg) o (n, e, gt, lt) =
      rw (chosen, last_of, port_of, e, input_port-pos n gt lt) refl
  parse_opt-chosen (device, arg) o ok = refl
  parse_opt-chosen (unknown, arg) o ok = refl

  argp_calls-chosen :
      (cs : List (Key × A)) (o : ServerOptions A)
      → AllAccepted cs
      → argp_calls inet_pton atoi cs o ≡ some (chosen cs o)
  unfolding argp_calls
  argp_calls-chosen [] o ok = refl
  argp_calls-chosen (c ∷ cs) o ok =
      ap (λ x. x >>= argp_calls inet_pton atoi cs) (parse_opt-chosen c o ok.0)
      ∙ argp_calls-chosen cs (chosen (c ∷ []) o) ok.1

  -- The server, where the arguments of its options are addresses and ports from 1 to 65535, the socket
  -- can be set up and bound at the last address and the last port among them, or else at address
  -- 0 and port 12345, and no signal comes in before the loop: it gives every connection to the
  -- pool, in their order, until an `accept` fails, which ends it by an exit with 1, or a signal
  -- comes in between the return of an `accept` and the next test of `stop`, after which it leaves the
  -- loop and waits for the tasks.
  pub main-Ends :
      (dev_tc : A) (cs : List (Key × A)) (a : SetupAnswers) (rounds : List Round)
      → AllAccepted cs
      → Listening a (chosen cs (record { sin_addr = 0; sin_port = htons 12345; dev_path = dev_tc }))
      → a.signalled ≡ false
      → Ends [] rounds (main inet_pton atoi dev_tc cs a rounds)
  unfolding main
  main-Ends dev_tc cs a rounds ok there calm_start =
      let o : ServerOptions A = record {
        sin_addr = 0;
        sin_port = htons 12345;
        dev_path = dev_tc;
      } in
      rw (main, argp_calls-chosen cs o ok)
        (server_main-Ends a rounds (chosen cs o) there calm_start)
