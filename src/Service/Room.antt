-- ===== src/Service/Room.antt =====
-- `Spacemaker.Room` (spacer/service/spacer.go). Logging is left out.
pub mod Leaks
pub mod Messages
pub mod Fills
pub mod Steps
pub mod Complete
use spacetest.Base.{
  ℕ, ◌-◌, ◌^◌, ℤ, String, ◌<>◌, bit_and, bit_or, Outcome, ok, err, ◌==◌, not, positive, pure,
  attempt, when, ◌>>=◌, ◌>>◌, if◌then◌else◌, str_eq,
}
use spacetest.Spaces.{
  name, clone_newcgroup, clone_newipc, clone_newns, clone_newnet, clone_newtime, clone_newuts,
}
use spacetest.Kernel.{Kernel}
use spacetest.Kernel.Calls.{Act, close, go_routine}
use spacetest.Api.{Response, error_response, rooms_response}
use spacetest.Api.Rooms.{RoomsResponse, no_rooms}
use spacetest.Service.NewNamespace.{new_namespace}

-- `validSpaces`
abbrev pub valid_spaces : ℕ
valid_spaces = bit_or clone_newcgroup (
    bit_or clone_newipc
      (bit_or clone_newns (bit_or clone_newnet (bit_or clone_newtime clone_newuts))))

-- `^x` of a uint64
abbrev pub complement : ℕ → ℕ
complement x = 2 ^ 64 - 1 - x

-- The response so far and `errmsg`.
abbrev pub Progress : Type 0
Progress = RoomsResponse × String

-- what `unshare` does with the result of its go routine
unfoldable pub record_result :
    ℕ → (ℤ → RoomsResponse → RoomsResponse) → Progress → Outcome ℤ → Progress
record_result typ put (resp, errmsg) (ok fd) = (put fd resp, errmsg)
record_result typ put (resp, errmsg) (err e) =
    (resp, (if str_eq errmsg "" then errmsg else errmsg <> ",") <> (name typ <> (":" <> e)))

module _ (k : Kernel) where
  -- the closure `unshare`, of which `put` is the store through its pointer
  unfoldable pub unshare_room :
      ℕ → ℕ → (ℤ → RoomsResponse → RoomsResponse) → Progress → Act k Progress
  unshare_room spaces typ put progress = if bit_and spaces typ == 0 then pure progress else do
    res ← go_routine k (attempt (new_namespace k typ))
    pure (record_result typ put progress res)

  unfoldable pub unshare_rooms : ℕ → Act k Progress
  unshare_rooms spaces = do
    p₁ ← unshare_room spaces clone_newcgroup (λ fd r. record r { cgroup = fd }) (no_rooms, "")
    p₂ ← unshare_room spaces clone_newipc (λ fd r. record r { ipc = fd }) p₁
    p₃ ← unshare_room spaces clone_newns (λ fd r. record r { mnt = fd }) p₂
    p₄ ← unshare_room spaces clone_newnet (λ fd r. record r { net = fd }) p₃
    p₅ ← unshare_room spaces clone_newtime (λ fd r. record r { time = fd }) p₄
    unshare_room spaces clone_newuts (λ fd r. record r { uts = fd }) p₅

  -- `if fd > 0 { _ = unix.Close(fd) }`
  unfoldable pub close_open : ℤ → Act k (Unit {0})
  close_open fd = when (positive fd) (close k fd)

  unfoldable pub close_rooms : RoomsResponse → Act k (Unit {0})
  close_rooms resp = do
    close_open resp.cgroup
    close_open resp.ipc
    close_open resp.mnt
    close_open resp.net
    close_open resp.time
    close_open resp.uts

  -- the end of `Room`
  unfoldable pub answer : Progress → Act k Response
  answer (resp, errmsg) =
      if not (str_eq errmsg "")
      then close_rooms resp >> pure (error_response errmsg)
      else pure (rooms_response resp)

  unfoldable pub room : ℕ → Act k Response
  room spaces =
      if not (bit_and spaces (complement valid_spaces) == 0)
      then pure (error_response "out of space")
      else if bit_and spaces valid_spaces == 0
      then pure (error_response "no space requested")
      else (unshare_rooms spaces >>= answer)
