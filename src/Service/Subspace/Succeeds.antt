-- ===== src/Service/Subspace/Succeeds.antt =====
-- When `Subspace` returns.
use spacetest.Base.{
  ℕ, ℤ, pos, Bool, true, false, not, ◌||◌, ◌==◌, Outcome, ok, err, bit_and, ◌≡◌, refl, ap, attempt,
  ◌>>=◌, Bool-cases, inl, inr,
}
use spacetest.Base.Post.{Post, returns, fails}
use spacetest.Kernel.{Kernel, State}
use spacetest.Kernel.Laws.{IsLinux}
use spacetest.Kernel.Table.{Has, GainsPair}
use spacetest.Uds.{new_pair}
use spacetest.Uds.Leaks.{new_pair-GainsPair}
use spacetest.Service.Room.{complement}
use spacetest.Service.Subspace.{hierarchical, paired, subspace, Spacemaker}
use spacetest.Service.Subspace.Panics.{paired-nil}
use spacetest.Service.Subspace.Leaks.{paired-Answered}

abbrev pub returned : {A : Type 0} → Outcome A → Bool
returned (ok a) = true
returned (err e) = false

never-returned :
    {S A : Type 0} {Q : A → S → Type 0} {r : Outcome A × S}
    → Post Q (λ _. ⊥) r
    → returned r.0 ≡ true
never-returned (returns q) = refl
never-returned (fails e) = absurd e

module _ {k : Kernel} (linux : IsLinux k) (sm : Spacemaker) (spaces : ℕ) (f : ℤ → Bool)
    (stdin : f (pos 0) ≡ true) where
  paired-returned :
      (r : Outcome (ℤ × ℤ) × State k)
      → Post (GainsPair k f) (Has k f) r
      → returned (paired k sm spaces r.0 r.1).0 ≡ returned r.0
  paired-returned (ok pair, s) (returns gains) =
      never-returned (paired-Answered linux sm spaces f stdin pair s gains)
  paired-returned (err e, s) (fails h) = ap (λ x. returned x.0) (paired-nil k sm spaces e s)

  -- On a kernel that keeps its documented rules, with descriptor 0 (standard input) open: `Subspace`
  -- returns a response if the flags of its request are outside of the valid ones, or if none is
  -- given, or if `NewPair` succeeds. Whatever else fails, it returns. But otherwise, when the flags
  -- are valid and `NewPair` fails, it panics and returns no error response.
  pub subspace-new_pair :
      (s : State k)
      → Has k f s
      → returned (subspace k sm spaces s).0 ≡ (
          not (bit_and spaces (complement hierarchical) == 0)
          || bit_and spaces hierarchical == 0
          || returned (new_pair k s).0)
  unfolding subspace attempt ◌>>=◌
  subspace-new_pair s h = elim (Bool-cases (bit_and spaces (complement hierarchical) == 0)) [
    | inr outside ↦ rw outside refl
    | inl inside ↦ elim (Bool-cases (bit_and spaces hierarchical == 0)) [
      | inl nothing ↦ rw (inside, nothing) refl
      | inr some_space ↦
          rw (inside, some_space) (paired-returned (new_pair k s) (new_pair-GainsPair linux f s h))
    ]
  ]
