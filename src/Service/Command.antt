-- ===== src/Service/Command.antt =====
-- The command spacer-service (spacer/service/cmd/spacer-service/main.go). Logging is left out. What
-- os.Getpid, os.Args[0] and the reading of a file give are arguments, and so is what the rounds of
-- `Serve` meet.
pub mod Serves
use spacetest.Service.Subspace.{Spacemaker}
use spacetest.Base.{none}
use spacetest.Base.{
  ℕ, pos, ◌==◌, ◌++◌, [], ◌∷◌, Bool, true, false, not, bit_or, Outcome, ok, err, pure, attempt,
  when, ◌>>=◌, ◌>>◌, if◌then◌else◌,
}
use spacetest.Base.Decimal.{Bytes, codes}
use spacetest.Kernel.{Kernel}
use spacetest.Kernel.Calls.{Act, mount}
use spacetest.Service.NewNamespace.{ms_rec, ms_private}
use spacetest.Spacer.PidFd.{same_bytes}
use spacetest.Uds.{new_unix_conn}
use spacetest.Base.{List}
use spacetest.Api.{Response}
use spacetest.Uds.Messages.{Messages}
use spacetest.Spacer.Gobmsg.{Gob}
use spacetest.Service.Serve.{Received, serve}

-- unix.MS_NODEV|unix.MS_NOEXEC|unix.MS_NOSUID|unix.MS_RELATIME
abbrev pub proc_flags : ℕ
proc_flags = bit_or 0x4 (bit_or 0x8 (bit_or 0x2 0x20_0000))

-- `&service.Spacemaker{}`
abbrev pub no_fields : Spacemaker
no_fields = record { exe = ""; stdout = none; stderr = none }

module _ (k : Kernel) (pid : ℕ) (arg0 : Bytes) (read_file : k.World → Bytes → Outcome Bytes) where
  -- the remounting with what was read of the first process's command line
  unfoldable pub remount_for : Outcome Bytes → Act k (Outcome (Unit {0}))
  remount_for (err e) = pure (err e)
  remount_for (ok cmdline) =
      if not (same_bytes cmdline (arg0 ++ 0 ∷ []))
      then attempt (
          mount k "none" "/" "/" (bit_or ms_rec ms_private)
          >> mount k "none" "/proc" "proc" proc_flags)
      else pure (ok tt)

  -- what the first process of a PID namespace does with /proc; its error is logged only
  unfoldable pub remount : Act k (Unit {0})
  remount = do
    cmdline ← attempt (λ s. (read_file s.world (codes "/proc/1/cmdline"), s))
    _ ← remount_for cmdline
    pure tt

  -- `main`; false stands for os.Exit(1). The `Spacemaker` has no path of its own.
  unfoldable pub main : (m : Messages k) (g : Gob Response) → List Received → Act k Bool
  main m g rounds = do
    when (pid == 1) remount
    r ← attempt (new_unix_conn k (pos 3))
    elim r [ err e ↦ pure false | ok dupont ↦ serve k m g no_fields dupont rounds >> pure true ]
