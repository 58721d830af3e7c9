-- ===== src/Spacer/Client/Subspace.antt =====
-- `New`, `Close`, `PID` and `Subspace` of spacer/client.go and the options of spacer/options.go. The
-- path of the service's binary and the go routine that serves are arguments, and so is what procfs
-- gives to read.
pub mod Leaks
use spacetest.Base.{
  ℕ, ℤ, pos, Bool, String, List, [], ◌∷◌, none, some, Outcome, ok, err, pure, expecting, for_each,
  deferring, ◌>>=◌, ◌>>◌,
}
use spacetest.Base.Decimal.{Bytes}
use spacetest.Kernel.{Kernel}
use spacetest.Kernel.Calls.{Act, close}
use spacetest.Api.{Request, Response}
use spacetest.Api.Subspace.{Subspaces, SubspaceResponse}
use spacetest.Uds.{new_unix_conn, new_pair}
use spacetest.Uds.Messages.{Messages}
use spacetest.Spacer.PidFd.{pid_from_pid_fd}
use spacetest.Spacer.Gobmsg.{Gob, new_encoder, new_decoder}
use spacetest.Spacer.Client.{subspace_spaces, close_open_at_end}
use spacetest.Spacer.Client.Exchange.{Writers, Client, given, do_subspace}

-- `Option`, by the fields that an option can set
abbrev pub ClientOption : Type 0
ClientOption = Writers → Outcome Writers

-- `WithOut`
unfoldable pub with_out : ℕ → ClientOption
with_out w c = ok (record c { stdout = some w })

-- `WithErr`
unfoldable pub with_err : ℕ → ClientOption
with_err w c = ok (record c { stderr = some w })

-- the loop of `New` over its options
unfoldable pub apply_options : List ClientOption → Writers → Outcome Writers
apply_options [] c = ok c
apply_options (opt ∷ opts) c = elim (opt c) [
  | err e ↦ err "cannot apply option"
  | ok c' ↦ apply_options opts c'
]

module _ (k : Kernel) {g_req : Gob Request} {g_resp : Gob Response} where
  -- `New`
  unfoldable pub new_client :
      Act k String
      → (String → ℤ → Writers → Act k (Unit {0}))
      → List ClientOption
      → Act k (Client g_req g_resp)
  new_client service_path go_serve opts = do
    writers ← given k (apply_options opts (record { stdout = none; stderr = none }))
    path ← service_path
    (dupond, dupont) ← expecting (new_pair k) "cannot create connected unix domain socket pair"
    go_serve path dupont writers
    pure (record {
      conn = dupond;
      enc = new_encoder g_req;
      dec = new_decoder g_resp;
      writers = writers;
      pid = pos 0;
    })

  -- `Close`
  unfoldable pub close_client : Client g_req g_resp → Act k (Unit {0})
  close_client c = close k c.conn

  -- `PID`
  unfoldable pub client_pid : Client g_req g_resp → ℤ
  client_pid c = c.pid

  module _ (readlink read_file : k.World → Bytes → Outcome Bytes) where
    -- the rest of `Subspace` behind the defer
    unfoldable pub take_subspace :
        Client g_req g_resp → SubspaceResponse → Act k (Client g_req g_resp × Subspaces)
    take_subspace c resp = do
      subconn ← expecting (new_unix_conn k resp.conn) "subspace connection failure"
      pid ←
          expecting (λ s. (pid_from_pid_fd (readlink s.world) (read_file s.world) resp.pid_fd, s))
            "can't determine subspace service PID"
      for_each (resp.user ∷ resp.pid ∷ []) (close_open_at_end k)
      pure (
        record {
          conn = subconn;
          enc = new_encoder g_req;
          dec = new_decoder g_resp;
          writers = c.writers;
          pid = pid;
        },
        resp.subspaces,
      )

    -- `Subspace`; what was answered is a new client and descriptors of the new namespaces.
    unfoldable pub subspace :
        Messages k
        → Client g_req g_resp
        → (user pid : Bool) → Act k (Client g_req g_resp × Client g_req g_resp × Subspaces)
    subspace m c user pid = do
      (c', resp) ← do_subspace k m c (subspace_spaces user pid)
      (newclient, spaces) ← deferring (close k resp.pid_fd) (take_subspace c' resp)
      pure (c', newclient, spaces)
