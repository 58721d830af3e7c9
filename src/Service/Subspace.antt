-- ===== src/Service/Subspace.antt =====
-- `Spacemaker.Subspace` (spacer/service/spacer.go). Logging is left out, and so is the go routine
-- that waits for the child.
pub mod Panics
pub mod Opens
pub mod Leaks
pub mod Succeeds
use spacetest.Base.{
  ℕ, zero, suc, ◌/◌, ◌%◌, ℤ, pos, String, ◌<>◌, Bool, true, false, bit_and, bit_or, Outcome, ok,
  err, ◌==◌, not, pure, raise, attempt, deferring, ◌>>=◌, ◌>>◌, if◌then◌else◌, str_eq,
}
use spacetest.Spaces.{clone_newuser, clone_newpid, clone_newns}
use spacetest.Base.{Option, none, some}
use spacetest.Kernel.{Kernel, Output, own_stdout, own_stderr, writer}
use spacetest.Kernel.Calls.{Act, open_ro, close, dup, pidfd_open, start}
use spacetest.Uds.{new_pair}
use spacetest.Api.{Response, error_response, subspace_response}
use spacetest.Service.Room.{complement, close_open}

abbrev pub hierarchical : ℕ
hierarchical = bit_or clone_newuser clone_newpid

-- `%d` of a PID
digit : ℕ → String
digit d =
    if d == 0
    then "0"
    else if d == 1
    then "1"
    else if d == 2
    then "2"
    else if d == 3
    then "3"
    else if d == 4
    then "4"
    else if d == 5
    then "5"
    else if d == 6
    then "6"
    else if d == 7
    then "7"
    else if d == 8
    then "8"
    else "9"

decimal_from : ℕ → ℕ → String → String
decimal_from zero n out = out
decimal_from (suc fuel) n out =
    let longer = decimal_from fuel (n / 10) (digit (n % 10) <> out) in
    if n / 10 == 0 then digit (n % 10) <> out else longer

unfoldable pub decimal : ℕ → String
unfolding digit decimal_from
decimal n = decimal_from (suc n) n ""

-- `Spacemaker`; a writer is a number of its own, if it is set
pub record Spacemaker : Type 0 where
  pub exe : String
  pub stdout : Option ℕ
  pub stderr : Option ℕ

-- `cmp.Or(s.Exe, "/proc/self/exe")`
unfoldable pub executable : String → String
executable exe = if str_eq exe "" then "/proc/self/exe" else exe

-- `cmp.Or` of an io.Writer
unfoldable pub output : Option ℕ → Output → Output
output none own = own
output (some w) own = writer w

-- `Cloneflags` of the child
unfoldable pub clone_flags : ℕ → ℕ
clone_flags spaces = bit_or (bit_and spaces hierarchical) clone_newns

-- whether the child's user and group are mapped to root
unfoldable pub maps_root : ℕ → Bool
maps_root spaces = not (bit_and spaces clone_newuser == 0)

-- the connections that `NewPair` gives: both are nil with an error
unfoldable pub connections : Outcome (ℤ × ℤ) → Option ℤ × Option ℤ
connections (ok (dupond, dupont)) = (some dupond, some dupont)
connections (err e) = (none, none)

module _ (k : Kernel) where
  -- `Close` of a `*uds.Conn`: it is promoted from the embedded field, which a nil pointer lacks
  unfoldable pub close_conn : Option ℤ → Act k (Unit {0})
  close_conn (some conn) = close k conn
  close_conn none = raise "invalid memory address or nil pointer dereference"

  -- `x, err := m; if err != nil { return refuse(err) }`
  unfoldable pub or_answer :
      {A : Type 0} → Act k A → (String → Act k Response) → (A → Act k Response) → Act k Response
  or_answer m refuse next = do r ← attempt m; elim r [ err e ↦ refuse e | ok a ↦ next a ]

  unfoldable pub refuse : String → String → Act k Response
  refuse what e = pure (error_response (what <> e))

  -- `if requested { fd, err = unix.Open(path) ... }`: 0 if not requested
  unfoldable pub open_if : Bool → String → Act k ℤ
  open_if true path = open_ro k path
  open_if false path = pure (pos 0)

  -- from the PID descriptor on
  unfoldable pub answer_child : ℕ → ℤ → ℤ → ℤ → Act k Response
  answer_child pid connfd userfd pidfd =
      or_answer (pidfd_open k pid)
        (λ e. do
          close_open k pidfd
          close_open k userfd
          close k connfd
          refuse "cannot get PID fd, reason: " e)
        λ procidfd. pure (
          subspace_response (record {
            conn = connfd;
            pid_fd = procidfd;
            subspaces = record { user = userfd; pid = pidfd };
          }))

  -- the namespaces of the child
  unfoldable pub open_child : ℕ → ℕ → ℤ → Act k Response
  open_child spaces pid connfd =
      or_answer
        (open_if (not (bit_and spaces clone_newuser == 0))
          ("/proc/" <> (decimal pid <> "/ns/user")))
        (λ e. do close k connfd; refuse "failed to determine new user namespace, reason: " e)
        λ userfd.
          or_answer
            (open_if (not (bit_and spaces clone_newpid == 0))
              ("/proc/" <> (decimal pid <> "/ns/pid")))
            (λ e. do
              close_open k userfd
              close k connfd
              refuse "failed to determine new PID namespace, reason: " e)
            λ pidfd. answer_child pid connfd userfd pidfd

  -- from the client's end of the socket pair on
  unfoldable pub fetch_client : ℕ → ℕ → ℤ → Act k Response
  fetch_client spaces pid dupond =
      or_answer (dup k dupond) (refuse "failed to fetch client *os.File, reason: ") λ dupondf.
        deferring (close k dupondf) (
          or_answer (dup k dupondf) (refuse "failed to fetch client fd, reason: ")
            λ connfd. open_child spaces pid connfd)

  -- with the pair of sockets
  unfoldable pub start_child : Spacemaker → ℕ → ℤ → ℤ → Act k Response
  start_child sm spaces dupond dupont =
      or_answer (dup k dupont) (refuse "failed to fetch service *os.File, reason: ") λ dupontf.
        deferring (close k dupontf) (
          or_answer
            (start k (executable sm.exe) (clone_flags spaces) (maps_root spaces)
              (output sm.stdout own_stdout) (output sm.stderr own_stderr) dupontf)
            (refuse "failed to start sub service, reason: ")
            λ (pid, _). fetch_client spaces pid dupond)

  -- behind the deferred function
  unfoldable pub with_pair : Spacemaker → ℕ → Outcome (ℤ × ℤ) → Act k Response
  with_pair sm spaces (err e) = refuse "failed to create unix domain socket pair, reason: " e
  with_pair sm spaces (ok (dupond, dupont)) = start_child sm spaces dupond dupont

  -- The deferred function closes both connections, whether there are any or not.
  unfoldable pub paired : Spacemaker → ℕ → Outcome (ℤ × ℤ) → Act k Response
  paired sm spaces r =
      let (dupond, dupont) = connections r in
      deferring (close_conn dupond >> close_conn dupont) (with_pair sm spaces r)

  -- `Subspace`
  unfoldable pub subspace : Spacemaker → ℕ → Act k Response
  subspace sm spaces =
      if not (bit_and spaces (complement hierarchical) == 0)
      then pure (error_response "out of space")
      else if bit_and spaces hierarchical == 0
      then pure (error_response "no space requested")
      else (attempt (new_pair k) >>= paired sm spaces)
