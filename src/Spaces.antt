-- ===== src/Spaces.antt =====
-- The types of Linux kernel namespaces and their names (spacenames.go). The constants are those
-- of golang.org/x/sys/unix, which are the kernel's.
use spacetest.Base.{ℕ, String, List, [], ◌∷◌, Option, none, some, ◌==◌, if◌then◌else◌}
pub mod Names

abbrev pub clone_newtime : ℕ
clone_newtime = 0x80

abbrev pub clone_fs : ℕ
clone_fs = 0x200

abbrev pub clone_newns : ℕ
clone_newns = 0x2_0000

abbrev pub clone_newcgroup : ℕ
clone_newcgroup = 0x200_0000

abbrev pub clone_newuts : ℕ
clone_newuts = 0x400_0000

abbrev pub clone_newipc : ℕ
clone_newipc = 0x800_0000

abbrev pub clone_newuser : ℕ
clone_newuser = 0x1000_0000

abbrev pub clone_newpid : ℕ
clone_newpid = 0x2000_0000

abbrev pub clone_newnet : ℕ
clone_newnet = 0x4000_0000

-- `spaceName`
abbrev pub space_name : List (ℕ × String)
space_name =
    (clone_newcgroup, "cgroup")
    ∷ (clone_newipc, "ipc")
    ∷ (clone_newns, "mnt")
    ∷ (clone_newnet, "net")
    ∷ (clone_newpid, "pid")
    ∷ (clone_newtime, "time")
    ∷ (clone_newuser, "user")
    ∷ (clone_newuts, "uts")
    ∷ []

-- Go's `m[key]` with its `ok`.
pub lookup : ℕ → List (ℕ × String) → Option String
lookup typ [] = none
lookup typ ((key, value) ∷ rest) = if key == typ then some value else lookup typ rest

-- `Name`
unfoldable pub name : ℕ → String
unfolding lookup
name typ = elim (lookup typ space_name) [ none ↦ "???" | some n ↦ n ]
