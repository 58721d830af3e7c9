-- ===== src/Spacer/Client/Binary.antt =====
-- `spacerServicePath` of spacer/client.go: the path of the service's binary, which is built when it
-- is asked for first. Callers take turns through a mutex, so they are modelled step by step, in any
-- interleaving. `gexec.BuildWithEnvironment`, which is not code of this repository, is an argument.
pub mod Once
pub mod Finishes
use spacetest.Base.{
  ℕ, String, Bool, true, false, Option, none, some, List, [], ◌∷◌, ◌++◌, Outcome, ok, err, ◌≡◌,
  str_eq, ◌==◌, if◌then◌else◌,
}

-- What callers share: `spacerServiceBinary`, `spacerbinarymu`, and all that building touches.
pub record Shared (W : Type 0) : Type 0 where
  pub binary : String
  pub locked : Bool
  pub world : W

-- Where a caller stands.
pub data Caller : Type 0 where
  waiting : Caller
  inside : Caller
  building : Caller
  leaving : Outcome String → Caller
  finished : Outcome String → Caller

-- A step: where the caller stands then, the paths of the binaries built, and what is shared.
abbrev pub Moved : Type 0 → Type 0
Moved W = Caller × List String × Shared W

-- the arguments of the build
abbrev pub service_package : String
service_package = "github.com/thediveo/spacetest/spacer/service/cmd/spacer-service"

abbrev pub build_env : List String
build_env = "CGO_ENABLED=0" ∷ []

abbrev pub build_args : List String
build_args = "-tags=usergo,netgo" ∷ []

-- `gexec.BuildWithEnvironment`: the path and whether there is an error, and what it touches
abbrev pub Build : Type 0 → Type 0
Build W = String → List String → List String → W → (String × Bool) × W

module _ {W : Type 0} where
  -- what building gave goes to the variable, and is then checked
  unfoldable pub built : (String × Bool) × W → Shared W → Moved W
  built ((path, failed), w) s =
      if failed
      then (
        leaving (err "cannot build spacer service binary"),
        [],
        record s { binary = path; world = w },
      )
      else (leaving (ok path), path ∷ [], record s { binary = path; world = w })

  -- `spacerServicePath`, from each point at which another caller may go on; a caller that waits for
  -- the mutex cannot while it is locked
  unfoldable pub advance : Build W → Caller → Shared W → Option (Moved W)
  advance build waiting s = if s.locked then none else some (inside, [], record s { locked = true })
  advance build inside s =
      if str_eq s.binary "" then some (building, [], s) else some (leaving (ok s.binary), [], s)
  advance build building s = some (built (build service_package build_env build_args s.world) s)
  advance build (leaving r) s = some (finished r, [], record s { locked = false })
  advance build (finished r) s = none

abbrev pub update : (ℕ → Caller) → ℕ → Caller → ℕ → Caller
update callers i c j = if j == i then c else callers j

-- The program: each of any number of callers, and what they share.
pub record Program (W : Type 0) : Type 0 where
  pub callers : ℕ → Caller
  pub shared : Shared W

-- Everyone is about to call, and nothing is built.
abbrev pub init : {W : Type 0} → W → Program W
init w = record {
  callers = λ i. waiting;
  shared = record { binary = ""; locked = false; world = w };
}

abbrev pub after : {W : Type 0} → Program W → ℕ → Moved W → Program W
after p i (c, _, s) = record { callers = update p.callers i c; shared = s }

-- From one program to another, in steps of callers in any order, with the paths built.
pub data Run {W : Type 0} (build : Build W) (p : Program W) : List String → Program W → Type 0 where
  start : Run build p [] p
  later :
      {paths : List String} {q : Program W} (i : ℕ) (m : Moved W)
      → Run build p paths q
      → advance build (q.callers i) q.shared ≡ some m
      → Run build p (paths ++ m.1) (after q i m)
