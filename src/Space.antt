-- ===== src/Space.antt =====
-- References to namespaces and what they say of them (space.go). A failed expectation ends the
-- call; its message is the code's, without the values that Gomega formats into it.
pub mod Rules
pub mod Current
pub mod Inodes
use spacetest.Base.{
  ℕ, ℤ, String, ◌<>◌, not, ◌==◌, pure, deferring, expecting, expect, ◌>>=◌, ◌>>◌, str_eq,
}
use spacetest.Spaces.{name}
use spacetest.Kernel.{Kernel}
use spacetest.Kernel.Calls.{
  Act, self_path, open_ro, close, get_nstype, stat_fd, stat_path, close_at_end,
}

module _ (k : Kernel) where
  -- `Type` of a descriptor
  unfoldable pub type_of_fd : ℤ → Act k ℕ
  type_of_fd ref = expecting (get_nstype k ref) "cannot determine type of namespace"

  -- `Type` of a path
  unfoldable pub type_of_path : String → Act k ℕ
  type_of_path ref = do
    fd ← expecting (open_ro k ref) ("cannot determine type of namespace referenced as " <> ref)
    deferring (close k fd)
        (expecting (get_nstype k fd) ("cannot determine type of namespace referenced as " <> ref))

  -- `Ino` of a descriptor
  unfoldable pub ino_of_fd : ℤ → ℕ → Act k ℕ
  ino_of_fd ref typ = do
    ino ← expecting (stat_fd k ref) ("cannot stat " <> name typ)
    typ' ← type_of_fd ref
    expect (typ' == typ) ("not a " <> name typ)
    pure ino

  -- `Ino` of a path
  unfoldable pub ino_of_path : String → ℕ → Act k ℕ
  ino_of_path ref typ = do
    ino ← expecting (stat_path k ref) ("cannot stat " <> name typ)
    typ' ← type_of_path ref
    expect (typ' == typ) ("not a " <> name typ)
    pure ino

  -- `Current`
  unfoldable pub current : ℕ → Act k ℤ
  current typ = do
    expect (not (str_eq (name typ) "")) "unknown type of namespace"
    nsfd ← expecting (open_ro k (self_path typ)) ("cannot determine current " <> name typ)
    close_at_end k nsfd
    pure nsfd

  -- `CurrentIno`
  unfoldable pub current_ino : ℕ → Act k ℕ
  current_ino typ = ino_of_path (self_path typ) typ
