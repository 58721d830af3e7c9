-- ===== src/Execute/Mounts.antt =====
-- `Execute` with a mount namespace among its arguments.
use spacetest.Base.{
  ℕ, ℤ, negsuc, nonnegative, true, false, List, ◌∷◌, ◌≡◌, ◌≢◌, refl, sym, ap, subst, ◌∙◌, ◌==◌, All,
  arith,
}
use spacetest.Base.Post.{Post, mono, bind-Post}
use spacetest.Spaces.{clone_newuser, clone_newns}
use spacetest.Kernel.{Kernel, State}
use spacetest.Kernel.Calls.{Act}
use spacetest.Kernel.Laws.{IsLinux, put, shown}
use spacetest.Kernel.Place.{place_of, Roams}
use spacetest.Execute.{run_sorted, execute}
use spacetest.Execute.Sorts.{
  last_mnt, not_mnt, sort_fds-last_mnt, entered-sorted, last_mnt-All, not_mnt-All,
}
use spacetest.Execute.InAndOut.Saved.{entered}
use spacetest.Execute.Separate.Spaces.{Agree, mentions}
use spacetest.Execute.Separate.Pickups.{All-map}
use spacetest.Execute.Separate.Promises.{IsBack, IsClean, Given}
use spacetest.Execute.Separate.Returns.{go_separate-IsClean}

shown-NotUser : (typ : ℕ) → shown typ ≡ true → (typ == clone_newuser) ≡ false
shown-NotUser typ h = ground arith

-- A valid, open descriptor of a namespace of a type that a thread can show.
abbrev pub Valid : (k : Kernel) → State k → ℤ → Type 0
Valid k s fd = (nonnegative fd ≡ true) × Given k s fd

module _ {k : Kernel} (linux : IsLinux k) (s : State k) (Done : k.World → Type 0) where
  still-IsBack : (s' : State k) → s' ≡ s → IsBack k s s'
  still-IsBack s' same =
      subst (λ t. IsBack k s t) (sym same) (record { thread = refl; locks = refl; attached = refl })

  -- `Execute` with a mount namespace, on a kernel that keeps its documented rules. Let the
  -- descriptors be valid, open and of types that a thread can show, at least one of them mount, and
  -- let the function, on a thread other than the caller's that is attached to all of them in turn
  -- and otherwise to the caller's namespaces, establish a fact that closing descriptors leaves alone
  -- when it returns, and change nothing but the namespaces of its thread. (PID and time namespaces
  -- are of the children of a thread and do not count here.) If `Execute` returns, then the function
  -- has established its fact, the caller is on its thread, with its lock count and in its
  -- namespaces, the open descriptors are those from before the call and reference what they did, and
  -- the descriptors that were registered to be closed are closed already. If `Execute` fails, then
  -- the caller is on its thread, with its lock count and in its namespaces.
  pub execute-IsClean :
      ((fd : ℤ) (w : k.World) → Done w → Done (k.close_fd fd w))
      → (fn : Act k (Unit {0})) (nsfd : ℤ) (nsfds : List ℤ) → All (Valid k s) (nsfd ∷ nsfds)
      → mentions (k.refers s.world) (nsfd ∷ nsfds) clone_newns ≡ true
      → ((t : State k)
          → t.thread ≢ s.thread
          → Agree
              (k.attached t.world t.thread)
              (entered (k.refers s.world) (nsfd ∷ nsfds) (k.attached s.world s.thread))
          → Post
              (λ _ t'. Roams k (place_of k t) t' × Done t'.world)
              (Roams k (place_of k t))
              (fn t))
      → Post (λ _ s'. IsClean k s s' × Done s'.world) (IsBack k s) (execute k fn nsfd nsfds s)
  unfolding execute
  execute-IsClean keeps fn nsfd nsfds valid there runs =
      bind-Post _ _ s
        (mono
          (sort_fds-last_mnt linux s (nsfd ∷ nsfds)
            (All-map (λ fd v. shown-NotUser _ v.1.1) (nsfd ∷ nsfds) valid))
          (λ _ _ q. q) still-IsBack)
        λ p s' (e, same). rw (e, same) separately
    where
      refs : ℤ → ℕ × ℕ
      refs = k.refers s.world

      found :
          Valid k s (last_mnt refs (negsuc 0) (nsfd ∷ nsfds))
          × ((refs (last_mnt refs (negsuc 0) (nsfd ∷ nsfds))).0 ≡ clone_newns)
      found = last_mnt-All (Valid k s) refs (nsfd ∷ nsfds) (negsuc 0) valid there

      as_given :
          (typ : ℕ)
          → entered refs
              (last_mnt refs (negsuc 0) (nsfd ∷ nsfds) ∷ not_mnt refs (nsfd ∷ nsfds))
              (k.attached s.world s.thread)
              typ
            ≡ entered refs (nsfd ∷ nsfds) (k.attached s.world s.thread) typ
      as_given typ =
          ap
            (λ u.
              entered refs (not_mnt refs (nsfd ∷ nsfds))
                (put u (refs (last_mnt refs (negsuc 0) (nsfd ∷ nsfds))).1
                  (k.attached s.world s.thread))
                typ)
            found.1
          ∙ ap (λ f. f typ)
              (entered-sorted refs (nsfd ∷ nsfds) (negsuc 0) (k.attached s.world s.thread) there)

      separately :
          Post
            (λ _ s'. IsClean k s s' × Done s'.world)
            (IsBack k s)
            (run_sorted k fn
              (last_mnt refs (negsuc 0) (nsfd ∷ nsfds), not_mnt refs (nsfd ∷ nsfds))
              s)
      separately =
          unfold run_sorted in
          rw found.0.0 (
            go_separate-IsClean linux s Done keeps fn (last_mnt refs (negsuc 0) (nsfd ∷ nsfds))
              (not_mnt refs (nsfd ∷ nsfds)) found.0.0 found.0.1.0 found.1
              (not_mnt-All (Given k s) refs (nsfd ∷ nsfds)
                (All-map (λ fd v. v.1) (nsfd ∷ nsfds) valid))
              λ t other agree. runs t other λ typ m. agree typ m ∙ as_given typ)
