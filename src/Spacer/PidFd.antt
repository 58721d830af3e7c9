-- ===== src/Spacer/PidFd.antt =====
-- `PIDfromPIDFd` (spacer/pidfromfd.go). What os.Readlink and os.ReadFile read from procfs comes in
-- as a function of the path; texts are bytes.
pub mod Parses
use spacetest.Base.{
  ℤ, List, [], ◌∷◌, ◌++◌, none, some, Outcome, ok, err, Bool, true, false, not, ◌&&◌, ◌==◌,
  if◌then◌else◌,
}
use spacetest.Base.Decimal.{Bytes, codes, format_int, parse_int32, lines, cut_prefix, drop_last}

-- Go's `==` on strings
unfoldable pub same_bytes : Bytes → Bytes → Bool
same_bytes [] [] = true
same_bytes [] (d ∷ t) = false
same_bytes (c ∷ s) [] = false
same_bytes (c ∷ s) (d ∷ t) = c == d && same_bytes s t

-- the loop over the lines of fdinfo
unfoldable pub find_pid : List Bytes → Outcome ℤ
find_pid [] = err "fd has no PID information"
find_pid (line ∷ rest) = elim (cut_prefix line (codes "Pid:\t")) [
  | none ↦ find_pid rest
  | some [] ↦ find_pid rest
  | some (c ∷ value) ↦ elim (parse_int32 (drop_last (c ∷ value))) [
    | none ↦ err "strconv.ParseInt"
    | some pid ↦ ok pid
  ]
]

module _ (readlink read_file : Bytes → Outcome Bytes) where
  unfoldable pub pid_from_fdinfo : ℤ → Outcome ℤ
  pid_from_fdinfo pidfd = elim (read_file (codes "/proc/self/fdinfo/" ++ format_int pidfd)) [
    | err e ↦ err e
    | ok fdinfo ↦ find_pid (lines fdinfo)
  ]

  -- `PIDfromPIDFd`
  unfoldable pub pid_from_pid_fd : ℤ → Outcome ℤ
  pid_from_pid_fd pidfd = elim (readlink (codes "/proc/self/fd/" ++ format_int pidfd)) [
    | err e ↦ err e
    | ok target ↦
        if not (same_bytes target (codes "anon_inode:[pidfd]"))
        then err "fd is not a PID fd"
        else pid_from_fdinfo pidfd
  ]
