-- ===== src/Kernel.antt =====
-- What the code asks of the Linux kernel (through golang.org/x/sys/unix) and of the Go runtime, as
-- an interface: neither is code of this repository. A `World` is everything outside the code: the
-- process's table of file descriptors, the threads with the namespaces that they are attached to,
-- the mounts. Threads are numbers. The views `fds`, `attached` and `refers` are what the laws and
-- the theorems speak of; the code has no access to them.
pub mod Calls
pub mod Laws
pub mod Table
pub mod Held
pub mod Place
use spacetest.Base.{ℕ, ℤ, String, Bool, List, Outcome}

-- Where a child process writes: to the Stdout or Stderr of package os, which are files, or to some
-- other io.Writer.
pub data Output : Type 0 where
  own_stdout : Output
  own_stderr : Output
  writer : ℕ → Output

pub record Kernel : Type 1 where
  pub World : Type 0
  -- open(2) with O_RDONLY, by a thread: "/proc/thread-self" is the thread's own
  pub open_path : ℕ → String → World → Outcome ℤ × World
  -- close(2); the code ignores the result everywhere
  pub close_fd : ℤ → World → World
  -- setns(2): thread, descriptor, type (0 for any)
  pub setns : ℕ → ℤ → ℕ → World → Outcome (Unit {0}) × World
  -- unshare(2): thread, flags
  pub unshare : ℕ → ℕ → World → Outcome (Unit {0}) × World
  -- mount(2): thread, source, target, file system type, flags
  pub mount : ℕ → String → String → String → ℕ → World → Outcome (Unit {0}) × World
  -- ioctl(2) with NS_GET_NSTYPE
  pub nstype : ℤ → World → Outcome ℕ
  -- fstat(2) and stat(2), of which the code takes the inode number
  pub fstat : ℤ → World → Outcome ℕ
  pub stat : ℕ → String → World → Outcome ℕ
  -- the thread on which a new go routine runs, for a caller on this thread that is locked or not
  pub spawn : ℕ → Bool → World → ℕ × World
  -- socketpair(2), for stream sockets of the unix domain
  pub socketpair : World → Outcome (ℤ × ℤ) × World
  -- net.FilePacketConn: a connection over a duplicate of the descriptor; whether it is a UnixConn
  pub file_conn : ℤ → World → Outcome ℤ × World
  pub is_unix : ℤ → World → Bool
  -- dup(2), also behind the File method of a connection
  pub dup : ℤ → World → Outcome ℤ × World
  -- pidfd_open(2)
  pub pidfd_open : ℕ → World → Outcome ℤ × World
  -- exec.Cmd's Start: thread, path, clone flags, whether user and group are mapped to root, Stdout,
  -- Stderr and the extra descriptor; the PID of the child, and the descriptors that os/exec keeps
  -- open for it: ends of pipes for writers that are no files, and its PID descriptor
  pub start : ℕ → String → ℕ → Bool → Output → Output → ℤ → World → Outcome (ℕ × List ℤ) × World
  -- the open descriptors
  pub fds : World → ℤ → Bool
  -- the namespace (its inode number) of a type that a thread is attached to
  pub attached : World → ℕ → ℕ → ℕ
  -- the type and the inode number of the namespace that an open descriptor references
  pub refers : World → ℤ → ℕ × ℕ

-- The state of a go routine's code: the world, the thread that it runs on, how often it is locked
-- to the thread, and the descriptors that Ginkgo's DeferCleanup is to close when the test ends,
-- the latest first.
pub record State (k : Kernel) : Type 0 where
  pub world : k.World
  pub thread : ℕ
  pub locks : ℕ
  pub cleanups : List ℤ
