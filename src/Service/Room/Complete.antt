-- ===== src/Service/Room/Complete.antt =====
-- What `Room` answers is what was requested.
use spacetest.Base.{ℕ, str_eq, true, false, ◌==◌, bit_and, ◌≡◌, refl, Bool-cases, inl, inr}
use spacetest.Base.Post.{Post, returns, bind-Post}
use spacetest.Kernel.{Kernel, State}
use spacetest.Kernel.Laws.{IsLinux}
use spacetest.Api.{Response, error_response, subspace_response, rooms_response}
use spacetest.Service.Room.{Progress, answer, room, complement, valid_spaces}
use spacetest.Service.Room.Leaks.{close_rooms-Post}
use spacetest.Service.Room.Steps.{IsComplete, unshare_rooms-Complete}

-- An answer to a request: with a rooms response, all that was requested; with an error response,
-- a reason.
abbrev pub Fulfils : (k : Kernel) → (ℕ → ℕ → ℕ) → ℕ → Response → State k → Type 0
Fulfils k all spaces (rooms_response r) s = IsComplete k all spaces r s.world
Fulfils k all spaces (error_response reason) s = str_eq reason "" ≡ false
Fulfils k all spaces (subspace_response r) s = ⊥

module _ {k : Kernel} (linux : IsLinux k) where
  answer-Fulfils :
      (all : ℕ → ℕ → ℕ) (spaces : ℕ) (p : Progress) (s : State k)
      → (str_eq p.1 "" ≡ true → IsComplete k all spaces p.0 s.world)
      → Post (Fulfils k all spaces) (λ _. ⊥) (answer k p s)
  unfolding answer
  answer-Fulfils all spaces (r, msg) s complete = elim (Bool-cases (str_eq msg "")) [
    | inl none_failed ↦ rw none_failed (returns (complete none_failed))
    | inr failed ↦ rw failed (
        bind-Post _ _ _ (close_rooms-Post linux (λ _. true) refl r (k.fds s.world) s refl)
          λ _ s' _. returns failed)
  ]

  -- On a kernel that keeps its documented rules: if `Room` answers with a rooms response, then each
  -- field whose type was requested holds an open descriptor of a namespace of this type, which for
  -- cgroup, IPC, mount, network and UTS namespaces is one that no thread was attached to at the
  -- call, and for a time namespace one that some thread was attached to at the call; each other
  -- field is 0. An error response has a reason that is not empty.
  pub room-Fulfils :
      (spaces : ℕ) (s : State k)
      → Post (Fulfils k (k.attached s.world) spaces) (λ _. ⊥) (room k spaces s)
  unfolding room
  room-Fulfils spaces s = elim (Bool-cases (bit_and spaces (complement valid_spaces) == 0)) [
    | inr outside ↦ rw outside (returns refl)
    | inl inside ↦ rw inside (elim (Bool-cases (bit_and spaces valid_spaces == 0)) [
      | inl nothing ↦ rw nothing (returns refl)
      | inr some_space ↦ rw some_space (
          bind-Post _ _ _ (unshare_rooms-Complete linux spaces (k.attached s.world) s refl)
            (answer-Fulfils (k.attached s.world) spaces))
    ])
  ]
