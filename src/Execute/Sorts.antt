-- ===== src/Execute/Sorts.antt =====
-- How `Execute` sorts its arguments: the mount namespace, and the others.
use spacetest.Base.{
  ℕ, ℤ, negsuc, true, false, List, [], ◌∷◌, ◌++◌, ◌≡◌, refl, sym, ap, ◌∙◌, ◌==◌, All, pure, raise,
  if◌then◌else◌, arith, Bool-cases, inl, inr, fun_ext,
}
use mathlib.Core.List.{append-nil, append_assoc}
use spacetest.Base.Post.{Post, returns, mono, bind-Post}
use spacetest.Spaces.{clone_newuser, clone_newns}
use spacetest.Kernel.{Kernel, State}
use spacetest.Kernel.Laws.{IsLinux, put}
use spacetest.Space.Rules.{type_of_fd-Post}
use spacetest.Execute.{Sorted, sort_fd, sort_fds}
use spacetest.Execute.InAndOut.Saved.{entered}
use spacetest.Execute.Separate.Spaces.{mentions}

-- The last descriptor of a list that references a mount namespace, if there is one.
abbrev pub last_mnt : (ℤ → ℕ × ℕ) → ℤ → List ℤ → ℤ
last_mnt refs m [] = m
last_mnt refs m (fd ∷ fds) = last_mnt refs (if (refs fd).0 == clone_newns then fd else m) fds

-- Those that reference no mount namespace, in order.
abbrev pub not_mnt : (ℤ → ℕ × ℕ) → List ℤ → List ℤ
not_mnt refs [] = []
not_mnt refs (fd ∷ fds) =
    let rest = not_mnt refs fds in if (refs fd).0 == clone_newns then rest else fd ∷ rest

abbrev pub NotUser : (ℤ → ℕ × ℕ) → ℤ → Type 0
NotUser refs fd = ((refs fd).0 == clone_newuser) ≡ false

module _ {k : Kernel} (linux : IsLinux k) (s : State k) where
  -- what sorting gives, in the state as it was
  abbrev Gives : Sorted → Sorted → State k → Type 0
  Gives out p s' = (p ≡ out) × (s' ≡ s)

  sort_one :
      (fd : ℤ) (m : ℤ) (others : List ℤ)
      → NotUser (k.refers s.world) fd
      → Post
          (Gives (
            if (k.refers s.world fd).0 == clone_newns
            then (fd, others)
            else (m, others ++ fd ∷ [])))
          (λ s'. s' ≡ s)
          (sort_fd k fd (m, others) s)
  unfolding sort_fd
  sort_one fd m others not_user =
      bind-Post _ _ _ (type_of_fd-Post linux {P = λ s'. s' ≡ s} fd s refl)
        λ typ s' (is, same). go typ s' (ap (λ t. (k.refers t.world fd).0) (sym same) ∙ is) same
    where
      go :
          (typ : ℕ) (s' : State k)
          → (k.refers s.world fd).0 ≡ typ
          → s' ≡ s
          → Post
              (Gives (
                if (k.refers s.world fd).0 == clone_newns
                then (fd, others)
                else (m, others ++ fd ∷ [])))
              (λ s'. s' ≡ s)
              ((if typ == clone_newuser
                  then raise "cannot Execute() in different user namespace"
                  else if typ == clone_newns
                  then pure (fd, others)
                  else pure (m, others ++ fd ∷ []))
                s')
      go typ s' is same = elim (Bool-cases ((k.refers s.world fd).0 == clone_newns)) [
        | inl mnt ↦ rw (mnt, sym is, not_user, mnt) (returns (refl, same))
        | inr other ↦ rw (other, sym is, not_user, other) (returns (refl, same))
      ]

  sort_here :
      (fd : ℤ) (m : ℤ) (others : List ℤ) (s₁ : State k)
      → s₁ ≡ s
      → NotUser (k.refers s.world) fd
      → Post
          (Gives (
            if (k.refers s.world fd).0 == clone_newns
            then (fd, others)
            else (m, others ++ fd ∷ [])))
          (λ s'. s' ≡ s)
          (sort_fd k fd (m, others) s₁)
  sort_here fd m others s₁ same h = rw same (sort_one fd m others h)

  sort_from :
      (fds : List ℤ) (m : ℤ) (others : List ℤ) (s₁ : State k)
      → s₁ ≡ s
      → All (NotUser (k.refers s.world)) fds
      → Post
          (Gives (last_mnt (k.refers s.world) m fds, others ++ not_mnt (k.refers s.world) fds))
          (λ s'. s' ≡ s)
          (sort_fds k fds (m, others) s₁)
  unfolding sort_fds
  sort_from [] m others s₁ same _ = returns (rw append-nil, same)
  sort_from (fd ∷ fds) m others s₁ same (h, hs) =
      bind-Post _ _ _ (sort_here fd m others s₁ same h) λ p s' (e, same').
        elim (Bool-cases ((k.refers s.world fd).0 == clone_newns)) [
          | inl mnt ↦ rw (e, mnt) (sort_from fds fd others s' same' hs)
          | inr other ↦
              rw (e, other)
                (mono (sort_from fds m (others ++ fd ∷ []) s' same' hs)
                  (λ q s'' (e', same''). (
                    e'
                        ∙ ap (λ l. (last_mnt (k.refers s.world) m fds, l))
                            (append_assoc others (fd ∷ []) (not_mnt (k.refers s.world) fds)),
                    same'',
                  ))
                  (λ _ h'. h'))
        ]

  -- On a kernel that keeps its documented rules, if no descriptor references a user namespace, then
  -- the loop of `Execute` changes nothing, and when it ends it has found the last of the mount
  -- namespaces, -1 if there is none, and all of the others in the order of the arguments.
  pub sort_fds-last_mnt :
      (fds : List ℤ)
      → All (NotUser (k.refers s.world)) fds
      → Post
          (λ p s'.
            (p ≡ (last_mnt (k.refers s.world) (negsuc 0) fds, not_mnt (k.refers s.world) fds))
            × (s' ≡ s))
          (λ s'. s' ≡ s)
          (sort_fds k fds (negsuc 0, []) s)
  sort_fds-last_mnt fds h = sort_from fds (negsuc 0) [] s refl h

put_put : (typ x y : ℕ) (a : ℕ → ℕ) → put typ x (put typ y a) ≡ put typ x a
put_put typ x y a = fun_ext λ t. ground arith

put_swap : (t u x y : ℕ) (a : ℕ → ℕ) → (t == u) ≡ false → put t x (put u y a) ≡ put u y (put t x a)
put_swap t u x y a n = fun_ext λ z. ground arith

-- Entering the last mount namespace first and then the others is entering all of them in turn.
entered-after :
    (refs : ℤ → ℕ × ℕ) (fds : List ℤ) (m : ℤ) (a : ℕ → ℕ)
    → entered refs (not_mnt refs fds) (put clone_newns (refs (last_mnt refs m fds)).1 a)
      ≡ entered refs fds (put clone_newns (refs m).1 a)
entered-after refs [] m a = refl
entered-after refs (fd ∷ fds) m a = elim (Bool-cases ((refs fd).0 == clone_newns)) [
  | inl mnt ↦ rw mnt (
      entered-after refs fds fd a
      ∙ ap (entered refs fds) (
          sym (put_put clone_newns (refs fd).1 (refs m).1 a)
          ∙ ap (λ t. put t (refs fd).1 (put clone_newns (refs m).1 a)) (ground arith)))
  | inr other ↦ rw other (
      ap (entered refs (not_mnt refs fds)) (put_swap (refs fd).0 clone_newns (refs fd).1 _ a other)
      ∙ entered-after refs fds m (put (refs fd).0 (refs fd).1 a)
      ∙ ap (entered refs fds) (sym (put_swap (refs fd).0 clone_newns (refs fd).1 _ a other)))
]

pub entered-sorted :
    (refs : ℤ → ℕ × ℕ) (fds : List ℤ) (m : ℤ) (a : ℕ → ℕ)
    → mentions refs fds clone_newns ≡ true
    → entered refs (not_mnt refs fds) (put clone_newns (refs (last_mnt refs m fds)).1 a)
      ≡ entered refs fds a
entered-sorted refs [] m a there = absurd cc
entered-sorted refs (fd ∷ fds) m a there = elim (Bool-cases ((refs fd).0 == clone_newns)) [
  | inl mnt ↦ rw mnt (
      entered-after refs fds fd a ∙ ap (λ t. entered refs fds (put t (refs fd).1 a)) (ground arith))
  | inr other ↦ rw other (
      ap (entered refs (not_mnt refs fds)) (put_swap (refs fd).0 clone_newns (refs fd).1 _ a other)
      ∙ entered-sorted refs fds m (put (refs fd).0 (refs fd).1 a) (ground arith))
]

-- What holds of all holds of the mount namespace found.
pub last_mnt-All :
    (P : ℤ → Type 0) (refs : ℤ → ℕ × ℕ) (fds : List ℤ) (m : ℤ)
    → All P fds
    → mentions refs fds clone_newns ≡ true
    → P (last_mnt refs m fds) × ((refs (last_mnt refs m fds)).0 ≡ clone_newns)
last_mnt-All P refs [] m _ there = absurd cc
last_mnt-All P refs (fd ∷ fds) m (h, hs) there = elim (Bool-cases (mentions refs fds clone_newns)) [
  | inl later ↦ last_mnt-All P refs fds _ hs later
  | inr last ↦
      let mnt : ((refs fd).0 == clone_newns) ≡ true = ground arith in
      rw (mnt, no_more fds fd last) (h, ground arith)
]
  where
    no_more :
        (fds : List ℤ) (m : ℤ) → mentions refs fds clone_newns ≡ false → last_mnt refs m fds ≡ m
    no_more [] m absent = refl
    no_more (x ∷ fds) m absent =
        let other : ((refs x).0 == clone_newns) ≡ false = ground arith in
        rw other (no_more fds m (ground arith))

pub not_mnt-All :
    (P : ℤ → Type 0) (refs : ℤ → ℕ × ℕ) (fds : List ℤ) → All P fds → All P (not_mnt refs fds)
not_mnt-All P refs [] _ = tt
not_mnt-All P refs (fd ∷ fds) (h, hs) = elim (Bool-cases ((refs fd).0 == clone_newns)) [
  | inl mnt ↦ rw mnt (not_mnt-All P refs fds hs)
  | inr other ↦ rw other (h, not_mnt-All P refs fds hs)
]
