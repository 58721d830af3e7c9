-- ===== src/Transient.antt =====
-- Transient namespaces (transient.go).
pub mod Enter
pub mod New
use spacetest.Base.{
  ℕ, ℤ, ◌<>◌, Bool, false, List, [], ◌∷◌, ◌==◌, ◌||◌, ok, err, pure, raise, attempt, deferring,
  expecting, expect, ◌>>=◌, ◌>>◌,
}
use spacetest.Spaces.{clone_newcgroup, clone_newipc, clone_newnet, clone_newpid, clone_newuts, name}
use spacetest.Kernel.{Kernel}
use spacetest.Kernel.Calls.{
  Act, self_path, open_ro, close, set_ns, unshare, lock_os_thread, unlock_os_thread, close_at_end,
}

-- `BeElementOf`
unfoldable pub element_of : List ℕ → ℕ → Bool
element_of [] typ = false
element_of (x ∷ xs) typ = typ == x || element_of xs typ

abbrev pub enterable : List ℕ
enterable = clone_newcgroup ∷ clone_newipc ∷ clone_newnet ∷ clone_newpid ∷ clone_newuts ∷ []

abbrev pub creatable : List ℕ
creatable = clone_newcgroup ∷ clone_newipc ∷ clone_newnet ∷ clone_newuts ∷ []

module _ (k : Kernel) where
  -- `EnterTransient`. Of the function that it returns, this is the descriptor that it holds.
  unfoldable pub enter_transient : ℕ → Act k ℤ
  enter_transient typ = do
    expect (element_of enterable typ) ("unsupported type " <> name typ)
    lock_os_thread k
    callers_namespace ←
        expecting (open_ro k (self_path typ))
          ("cannot determine current " <> (name typ <> " namespace from procfs"))
    expecting (unshare k typ) ("cannot create new " <> (name typ <> " namespace"))
    pure callers_namespace

  -- the function that `EnterTransient` returns
  unfoldable pub leave_transient : ℕ → ℤ → Act k (Unit {0})
  leave_transient typ callers_namespace = do
    r ← attempt (set_ns k callers_namespace typ)
    elim r [
      | err e ↦ raise (
          "leaving from EnterTransient: cannot restore original "
          <> (name typ <> (" namespace, reason: " <> e)))
      | ok _ ↦ close k callers_namespace >> unlock_os_thread k
    ]

  -- `NewTransient` behind the defer
  unfoldable pub create_transient : ℕ → ℤ → Act k ℤ
  create_transient typ callers_namespace = do
    expecting (unshare k typ) ("cannot create new " <> (name typ <> " namespace"))
    new_namespace ←
        expecting (open_ro k (self_path typ))
          ("cannot determine new " <> (name typ <> " namespace from procfs"))
    expecting (set_ns k callers_namespace typ)
        ("cannot switch back into original " <> (name typ <> " namespace"))
    close_at_end k new_namespace
    unlock_os_thread k
    pure new_namespace

  -- `NewTransient`
  unfoldable pub new_transient : ℕ → Act k ℤ
  new_transient typ = do
    expect (element_of creatable typ) ("unsupported type " <> name typ)
    lock_os_thread k
    callers_namespace ←
        expecting (open_ro k (self_path typ))
          ("cannot determine current " <> (name typ <> " namespace from procfs"))
    deferring (close k callers_namespace) (create_transient typ callers_namespace)
