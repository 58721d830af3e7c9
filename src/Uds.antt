-- ===== src/Uds.antt =====
-- Connections over unix domain sockets (uds/uds.go). A connection is its descriptor.
pub mod Leaks
pub mod Messages
use spacetest.Base.{
  ℤ, nonnegative, not, ok, err, pure, raise, attempt, deferring, when, ◌>>=◌, ◌>>◌,
}
use spacetest.Kernel.{Kernel}
use spacetest.Kernel.Calls.{Act, close, socketpair, file_conn, is_unix}

module _ (k : Kernel) where
  -- the body of `NewUnixConn` behind the defer
  unfoldable pub take_conn : ℤ → Act k ℤ
  take_conn udsfd = do
    netconn ← file_conn k udsfd
    unix ← is_unix k netconn
    when (not unix) (close k netconn >> raise "not a unix domain socket")
    pure netconn

  -- `NewUnixConn`: os.NewFile gives nil for a negative descriptor.
  unfoldable pub new_unix_conn : ℤ → Act k ℤ
  new_unix_conn udsfd = do
    when (not (nonnegative udsfd)) (raise "not a file descriptor")
    deferring (close k udsfd) (take_conn udsfd)

  -- `x, err := m; if err != nil { cleanup; return ..., err }`
  unfoldable pub or_clean_up : Act k ℤ → ℤ → Act k ℤ
  or_clean_up m fd = do
    r ← attempt m
    elim r [ ok conn ↦ pure conn | err e ↦ close k fd >> raise e ]

  -- `NewPair`
  unfoldable pub new_pair : Act k (ℤ × ℤ)
  new_pair = do
    (fd₀, fd₁) ← socketpair k
    dupond ← or_clean_up (new_unix_conn fd₀) fd₁
    dupont ← or_clean_up (new_unix_conn fd₁) dupond
    pure (dupond, dupont)
