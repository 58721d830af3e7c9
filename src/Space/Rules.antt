-- ===== src/Space/Rules.antt =====
-- `Type` of a descriptor reads, and changes nothing.
use spacetest.Base.{ℕ, ℤ, Outcome, ok, err, ◌≡◌, refl}
use spacetest.Base.Post.{Post, returns, fails, expecting-Post}
use spacetest.Kernel.{Kernel, State}
use spacetest.Kernel.Calls.{get_nstype}
use spacetest.Kernel.Laws.{IsLinux}
use spacetest.Space.{type_of_fd}

module _ {k : Kernel} (linux : IsLinux k) {P : State k → Type 0} where
  pub get_nstype-Post :
      (fd : ℤ) (s : State k)
      → P s
      → Post (λ typ s'. ((k.refers s'.world fd).0 ≡ typ) × P s') P (get_nstype k fd s)
  unfolding get_nstype
  get_nstype-Post fd s h = go (k.nstype fd s.world) (λ typ. linux.nstype_law fd s.world typ)
    where
      go :
          (r : Outcome ℕ)
          → ((typ : ℕ) → r ≡ ok typ → (k.refers s.world fd).0 ≡ typ)
          → Post (λ typ s'. ((k.refers s'.world fd).0 ≡ typ) × P s') P (r, s)
      go (ok typ) is_typ = returns (is_typ typ refl, h)
      go (err e) is_typ = fails h

  pub type_of_fd-Post :
      (fd : ℤ) (s : State k)
      → P s
      → Post (λ typ s'. ((k.refers s'.world fd).0 ≡ typ) × P s') P (type_of_fd k fd s)
  unfolding type_of_fd
  type_of_fd-Post fd s h = expecting-Post _ _ _ (get_nstype-Post fd s h)

-- What the call said still holds.
pub type_of_fd_said :
    {k : Kernel} {P : State k → Type 0} (fd : ℤ) (s : State k)
    → P s
    → Post (λ typ s'. (k.nstype fd s'.world ≡ ok typ) × P s') P (type_of_fd k fd s)
unfolding type_of_fd get_nstype
type_of_fd_said {k} {P} fd s h = expecting-Post _ _ s (go (k.nstype fd s.world) refl)
  where
    go :
        (r : Outcome ℕ)
        → k.nstype fd s.world ≡ r
        → Post (λ typ s'. (k.nstype fd s'.world ≡ ok typ) × P s') P (r, s)
    go (ok typ) e = returns (e, h)
    go (err m) e = fails h
