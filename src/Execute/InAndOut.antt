-- ===== src/Execute/InAndOut.antt =====
-- `goInAndOut` (execute.go): switch the caller's thread, run, and switch back. The variable
-- `callersNamespaces` is read by deferred functions, so each step returns it with its outcome.
pub mod Table
pub mod Saved
pub mod Attach
pub mod Unwinds
pub mod Restores
pub mod Runs
use spacetest.Base.{
  ℕ, ℤ, ◌<>◌, List, [], ◌∷◌, ◌++◌, reverse, Outcome, ok, err, pure, raise, attempt, deferring,
  expecting, for_each, ◌>>=◌, ◌>>◌,
}
use spacetest.Spaces.{name}
use spacetest.Kernel.{Kernel}
use spacetest.Kernel.Calls.{
  Act, self_path, open_ro, close, set_ns, lock_os_thread, unlock_os_thread,
}
use spacetest.Space.{type_of_fd}

-- `callersNamespaces`, and whether the code goes on
abbrev pub Callers : Type 0
Callers = List ℤ × Outcome (Unit {0})

module _ (k : Kernel) where
  -- the rest of a round, with the type known and the caller's namespace opened
  unfoldable pub switch_to : ℤ → ℕ → List ℤ → ℤ → Act k Callers
  switch_to nsfd typ callers currentnsfd = do
    r ← attempt (expecting (set_ns k nsfd typ) ("cannot switch into " <> name typ))
    pure (callers ++ currentnsfd ∷ [], r)

  unfoldable pub save_and_switch : ℤ → List ℤ → ℕ → Act k Callers
  save_and_switch nsfd callers typ = do
    r ← attempt (expecting (open_ro k (self_path typ)) ("cannot determine current " <> name typ))
    elim r [
      | err e ↦ pure (callers, err e)
      | ok currentnsfd ↦ switch_to nsfd typ callers currentnsfd
    ]

  -- one round of the loop
  unfoldable pub attach_one : ℤ → List ℤ → Act k Callers
  attach_one nsfd callers = do
    r ← attempt (type_of_fd k nsfd)
    elim r [ err e ↦ pure (callers, err e) | ok typ ↦ save_and_switch nsfd callers typ ]

  unfoldable pub attach_all : List ℤ → List ℤ → Act k Callers
  attach_all [] callers = pure (callers, ok tt)
  attach_all (nsfd ∷ nsfds) callers = do
    (callers', r) ← attach_one nsfd callers
    elim r [ err e ↦ pure (callers', err e) | ok _ ↦ attach_all nsfds callers' ]

  -- the deferred function that restores, after a return and after a panic
  unfoldable pub restore : List ℤ → Outcome (Unit {0}) → Act k (Unit {0})
  restore callers (err r) = do
    for_each (reverse callers) (λ nsfd. attempt (set_ns k nsfd 0) >> pure tt)
    raise r
  restore callers (ok _) = do
    for_each (reverse callers) (λ nsfd. expecting (set_ns k nsfd 0) "cannot restore namespace")
    unlock_os_thread k

  -- the rest of the body, behind the loop
  unfoldable pub run_attached : Act k (Unit {0}) → Callers → Act k (Unit {0})
  run_attached fn (callers, ok _) = do
    r ← attempt fn
    deferring (for_each callers (close k)) (restore callers r)
  run_attached fn (callers, err e) =
      deferring (for_each callers (close k)) (restore callers (err e))

  -- `goInAndOut`
  unfoldable pub go_in_and_out : Act k (Unit {0}) → List ℤ → Act k (Unit {0})
  go_in_and_out fn othernsfds = do
    lock_os_thread k
    callers ← attach_all othernsfds []
    run_attached fn callers
