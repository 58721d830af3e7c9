-- ===== src/Service/Subspace/Panics.antt =====
-- `Subspace` without a pair of sockets: its connections are nil when they are closed.
use spacetest.Base.{ℕ, String, err, ◌≡◌, deferring, ◌>>=◌, refl}
use spacetest.Kernel.{Kernel, State}
use spacetest.Service.Subspace.{refuse, close_conn, connections, with_pair, paired, Spacemaker}

-- Closing the first of two nil connections panics.
pub paired-nil :
    (k : Kernel) (sm : Spacemaker) (spaces : ℕ) (e : String) (s : State k)
    → paired k sm spaces (err e) s ≡ (err "invalid memory address or nil pointer dereference", s)
unfolding paired with_pair connections close_conn deferring refuse ◌>>=◌
paired-nil k sm spaces e s = refl
