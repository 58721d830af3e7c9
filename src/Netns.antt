-- ===== src/Netns.antt =====
-- Network namespaces (netns): the general functions, for one type.
use spacetest.Base.{ℕ, ℤ, String, []}
use spacetest.Spaces.{clone_newnet}
use spacetest.Kernel.{Kernel}
use spacetest.Kernel.Calls.{Act}
use spacetest.Space
use spacetest.Execute
use spacetest.Transient

module _ (k : Kernel) where
  -- `Execute`
  unfoldable pub execute : ℤ → Act k (Unit {0}) → Act k (Unit {0})
  execute netnsfd fn = Execute.execute k fn netnsfd []

  -- `Current`
  unfoldable pub current : Act k ℤ
  current = Space.current k clone_newnet

  -- `Ino` of a descriptor, and of a path
  unfoldable pub ino_of_fd : ℤ → Act k ℕ
  ino_of_fd netns = Space.ino_of_fd k netns clone_newnet

  unfoldable pub ino_of_path : String → Act k ℕ
  ino_of_path netns = Space.ino_of_path k netns clone_newnet

  -- `CurrentIno`
  unfoldable pub current_ino : Act k ℕ
  current_ino = ino_of_path "/proc/thread-self/ns/net"

  -- `EnterTransient`, and the function that it returns
  unfoldable pub enter_transient : Act k ℤ
  enter_transient = Transient.enter_transient k clone_newnet

  unfoldable pub leave_transient : ℤ → Act k (Unit {0})
  leave_transient = Transient.leave_transient k clone_newnet

  -- `NewTransient`
  unfoldable pub new_transient : Act k ℤ
  new_transient = Transient.new_transient k clone_newnet
