-- ===== src/Server/Main.antt =====
-- main of userspace/io_backend/src/io_backend.c: the options, and server_main, which accepts
-- connections and gives each to the pool, where start_task runs on it.
pub mod Accept
pub mod Options
use streamio.Common.{
  ℕ, ◌+◌, ◌*◌, ◌/◌, ◌%◌, ◌^◌, Bool, true, false, not, ◌&&◌, Option, none, some, List, [], ◌∷◌, ◌++◌,
  ltb, leb, if◌then◌else◌, ◌>>=◌,
}

-- An `int`, as `atoi` gives it.
pub data ℤ : Type 0 where
  pos negsuc : ℕ → ℤ

-- The number whose bytes are those of `x` in the order of the network, on a little-endian machine.
abbrev pub htons : ℕ → ℕ
htons x = x % 256 * 256 + x / 256 % 256

-- `server_options`; `A` are the strings.
pub record ServerOptions (A : Type 0) : Type 0 where
  pub sin_addr : ℕ
  pub sin_port : ℕ
  pub dev_path : A

-- 'l', 'p', 'd', and the keys that `parse_opt` does not know.
pub data Key : Type 0 where
  listen port device unknown : Key

-- htons(atoi(arg)) where the test lets the number through.
pub input_port : ℤ → Option ℕ
input_port (pos n) = if leb n 65535 && ltb 0 n then some (htons n) else none
input_port (negsuc n) = none

-- What the kernel answers before the loop, to `bind` at an address and a port, and whether a SIGINT
-- comes in.
pub record SetupAnswers : Type 0 where
  pub sockfd : Option ℕ
  pub reuse_set : Bool
  pub bound : ℕ → ℕ → Bool
  pub signalled : Bool

-- A round of the loop: `accept` gives a socket or fails, and a SIGINT comes in before the next test
-- of `stop` or not. Its handler closes the socket that listens, so an `accept` that waits then fails.
pub data Round : Type 0 where
  connected : ℕ → Bool → Round
  failed : Round

-- What becomes of `server_main`, with the sockets that the pool was given: it ends by `exit`, which ends
-- the tasks too, it leaves the loop and then waits for the tasks, or it still waits in `accept`.
pub data Ran : Type 0 where
  exits : ℕ → List ℕ → Ran
  stopped_by_signal : List ℕ → Ran
  accepting : List ℕ → Ran

-- while (!stop), with the value of `stop`; `error` does not return.
pub accept_loop : Bool → List Round → List ℕ → Ran
accept_loop true rounds work = stopped_by_signal work
accept_loop false [] work = accepting work
accept_loop false (connected fd signal ∷ rounds) work =
    accept_loop signal rounds (work ++ (fd ∷ []))
accept_loop false (failed ∷ rounds) work = exits 1 work

pub server_main : {A : Type 0} → SetupAnswers → List Round → ServerOptions A → Ran
server_main a rounds o = if not a.reuse_set then exits 1 [] else elim a.sockfd [
  | none ↦ exits 1 []
  | some fd ↦
      if a.bound o.sin_addr o.sin_port then accept_loop a.signalled rounds [] else exits 1 []
]

module _ {A : Type 0} (inet_pton : A → Option ℕ) (atoi : A → ℤ) where
  -- `none` is the exit of `argp_failure`, with 1.
  pub parse_opt : Key → A → ServerOptions A → Option (ServerOptions A)
  parse_opt listen arg o = do addr ← inet_pton arg; some (record o { sin_addr = addr })
  parse_opt port arg o = do p ← input_port (atoi arg); some (record o { sin_port = p })
  parse_opt device arg o = some (record o { dev_path = arg })
  parse_opt unknown arg o = some o

  -- The calls of `parse_opt` that `argp_parse` makes, one for each option in its order.
  pub argp_calls : List (Key × A) → ServerOptions A → Option (ServerOptions A)
  argp_calls [] o = some o
  argp_calls (c ∷ cs) o = parse_opt c.0 c.1 o >>= argp_calls cs

  -- `dev_tc` is the string "/dev/tc".
  pub main : A → List (Key × A) → SetupAnswers → List Round → Ran
  main dev_tc cs a rounds =
      let s_options : ServerOptions A = record {
        sin_addr = 0;
        sin_port = htons 12345;
        dev_path = dev_tc;
      } in
      elim (argp_calls cs s_options) [ none ↦ exits 1 [] | some o ↦ server_main a rounds o ]
