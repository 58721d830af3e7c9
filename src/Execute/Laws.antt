-- ===== src/Execute/Laws.antt =====
-- `Execute`, by the namespaces that it is given.
use spacetest.Base.{
  ℕ, ℤ, negsuc, true, false, List, [], ◌∷◌, ◌++◌, ◌≡◌, refl, sym, ap, subst, ◌∙◌, ◌==◌, All, pure,
  raise, if◌then◌else◌, arith, subst₂, ◌≢◌, Bool-cases, inl, inr,
}
use spacetest.Base.Post.{Post, returns, fails, mono, bind-Post}
use spacetest.Spaces.{clone_newuser, clone_newns}
use spacetest.Kernel.{Kernel, State}
use spacetest.Kernel.Calls.{Act}
use spacetest.Kernel.Laws.{IsLinux, moves_thread}
use spacetest.Space.Rules.{type_of_fd-Post}
use spacetest.Execute.{Sorted, sort_fd, sort_fds, run_sorted, execute}
use spacetest.Execute.Sorts.{NotUser, last_mnt, not_mnt, sort_fds-last_mnt}
use spacetest.Execute.Separate.Pickups.{All-map}
use spacetest.Execute.InAndOut.Saved.{entered}
use spacetest.Execute.InAndOut.Attach.{Usable}
use spacetest.Execute.InAndOut.Restores.{Stays, start_of}
use spacetest.Execute.InAndOut.Runs.{go_in_and_out-Runs}

-- An open descriptor of a namespace that is no mount namespace, and that a thread can move into.
abbrev pub Plain : (k : Kernel) → State k → ℤ → Type 0
Plain k s nsfd =
    (k.fds s.world nsfd ≡ true)
    × (moves_thread (k.refers s.world nsfd).0 ≡ true)
    × (((k.refers s.world nsfd).0 == clone_newns) ≡ false)

Plain-NotUser : {k : Kernel} (s : State k) (fd : ℤ) → Plain k s fd → NotUser (k.refers s.world) fd
Plain-NotUser s fd (_, moves, plain) = ground arith

-- Sorting plain descriptors leaves them all.
Plain-sorted :
    {k : Kernel} (s : State k) (fds : List ℤ) (m : ℤ)
    → All (Plain k s) fds
    → ◌≡◌ {A = Sorted} (last_mnt (k.refers s.world) m fds, not_mnt (k.refers s.world) fds) (m, fds)
Plain-sorted s [] m _ = refl
Plain-sorted {k} s (fd ∷ fds) m ((_, _, plain), hs) =
    rw plain (ap (λ p. (p.0, fd ∷ p.1)) (Plain-sorted s fds m hs))

module _ {k : Kernel} (linux : IsLinux k) (s : State k) where
  Plain-Usable : (nsfds : List ℤ) → All (Plain k s) nsfds → All (Usable (start_of k s)) nsfds
  Plain-Usable [] _ = tt
  Plain-Usable (nsfd ∷ nsfds) (h, hs) = ((h.0, h.1), Plain-Usable nsfds hs)

  -- `Execute` without a mount namespace, on a kernel that keeps its documented rules: let the
  -- descriptors be open and of types into which a thread can move, none of them mount, and let the
  -- function, started where the thread is attached to all of them in turn, leave alone the thread,
  -- its lock, its namespaces and what is open, and, if it returns, establish a fact that closing
  -- descriptors and entering namespaces leave alone. If `Execute` returns, then the function has
  -- established its fact, and all of the above is as it was; if `Execute` fails, the open descriptors
  -- are those from before the call.
  pub execute-Stays :
      (Done : k.World → Type 0)
      → ((fd : ℤ) (w : k.World) → Done w → Done (k.close_fd fd w))
      → ((t : ℕ) (fd : ℤ) (typ : ℕ) (w : k.World) → Done w → Done (k.setns t fd typ w).1)
      → (fn : Act k (Unit {0})) (nsfd : ℤ) (nsfds : List ℤ) → All (Plain k s) (nsfd ∷ nsfds)
      → ((s' : State k)
          → k.attached s'.world s'.thread
            ≡ entered (k.refers s.world) (nsfd ∷ nsfds) (k.attached s.world s.thread)
          → Stays k s' (fn s').1 × Post (λ _ t. Done t.world) (λ _. Unit {0}) (fn s'))
      → Post
          (λ _ s'. Stays k s s' × Done s'.world)
          (λ s'. k.fds s'.world ≡ k.fds s.world)
          (execute k fn nsfd nsfds s)
  unfolding execute
  execute-Stays Done closes enters fn nsfd nsfds plain runs =
      bind-Post _ _ _
        (mono
          (sort_fds-last_mnt linux s (nsfd ∷ nsfds)
            (All-map (Plain-NotUser s) (nsfd ∷ nsfds) plain))
          (λ _ _ q. q) (λ s' same. ap (λ t. k.fds t.world) same))
        λ p s' (e, same).
          let sorted = e ∙ Plain-sorted s (nsfd ∷ nsfds) (negsuc 0) plain in
          subst₂
            (λ q t.
              Post (λ _ s'. Stays k s s' × Done s'.world) (λ s'. k.fds s'.world ≡ k.fds s.world)
                (run_sorted k fn q t))
            (sym sorted) (sym same)
            (unfold run_sorted in
              mono
                (go_in_and_out-Runs linux Done closes enters s (nsfd ∷ nsfds)
                  (Plain-Usable (nsfd ∷ nsfds) plain) fn runs)
                (λ _ _ h. h) (λ _ h. h.fds))

  -- Sorting a descriptor reads its type, and fails for a user namespace.
  sort_fd_reads :
      (x : ℤ) (sorted : Sorted)
      → Post
          (λ _ s'. (s' ≡ s) × ((k.refers s.world x).0 ≢ clone_newuser))
          (λ s'. s' ≡ s)
          (sort_fd k x sorted s)
  unfolding sort_fd
  sort_fd_reads x (m, others) =
      bind-Post _ _ _ (type_of_fd-Post linux {P = λ s'. s' ≡ s} x s refl)
        λ typ s' (is, same). go typ s' (ap (λ t. (k.refers t.world x).0) (sym same) ∙ is) same
    where
      go :
          (typ : ℕ) (s' : State k)
          → (k.refers s.world x).0 ≡ typ
          → s' ≡ s
          → Post {A = Sorted}
              (λ _ s'. (s' ≡ s) × ((k.refers s.world x).0 ≢ clone_newuser))
              (λ s'. s' ≡ s)
              ((if typ == clone_newuser
                  then raise "cannot Execute() in different user namespace"
                  else if typ == clone_newns
                  then pure (x, others)
                  else pure (m, others ++ x ∷ []))
                s')
      go typ s' is same = elim (Bool-cases (typ == clone_newuser)) [
        | inl u ↦ rw u (fails same)
        | inr n ↦ elim (Bool-cases (typ == clone_newns)) [
          | inl mnt ↦ rw (n, mnt) (returns (same, ground arith))
          | inr other ↦ rw (n, other) (returns (same, ground arith))
        ]
      ]

  sort_user :
      (xs : List ℤ) (u : ℤ) (ys : List ℤ) (sorted : Sorted)
      → (k.refers s.world u).0 ≡ clone_newuser
      → Post (λ _ _. ⊥) (λ s'. s' ≡ s) (sort_fds k (xs ++ u ∷ ys) sorted s)
  unfolding sort_fds
  sort_user [] u ys sorted is_user =
      bind-Post _ _ _ (sort_fd_reads u sorted) λ _ _ (_, other). absurd (other is_user)
  sort_user (x ∷ xs) u ys sorted is_user =
      bind-Post _ _ _ (sort_fd_reads x sorted) λ p s' (same, _).
        subst (λ t. Post (λ _ _. ⊥) (λ s'. s' ≡ s) (sort_fds k (xs ++ u ∷ ys) p t)) (sym same)
          (sort_user xs u ys p is_user)

  -- On a kernel that keeps its documented rules, if a descriptor anywhere among the arguments
  -- references a user namespace, then `Execute` fails the test, for any function, and the state is
  -- the one at the call.
  pub execute_user :
      (fn : Act k (Unit {0})) (nsfd : ℤ) (nsfds xs : List ℤ) (u : ℤ) (ys : List ℤ)
      → (nsfd ∷ nsfds) ≡ xs ++ u ∷ ys
      → (k.refers s.world u).0 ≡ clone_newuser
      → Post (λ _ _. ⊥) (λ s'. s' ≡ s) (execute k fn nsfd nsfds s)
  unfolding execute
  execute_user fn nsfd nsfds xs u ys among is_user =
      rw among (
        bind-Post _ _ _ (sort_user xs u ys (negsuc 0, []) is_user)
          λ _ _ no_return. absurd no_return)
