-- ===== src/Service/Subspace/Leaks.antt =====
-- What `Subspace` does to the table of open descriptors.
use spacetest.Base.{refl}
use spacetest.Base.{
  ℕ, ℤ, pos, String, Bool, true, false, List, [], ◌∷◌, Outcome, ok, err, ◌≡◌, ◌∙◌, sym, ap, ◌==◌,
  ==ℤ_iff, positive, bit_and, Bool-cases, inl, inr, arith, subst, fun_ext,
}
use spacetest.Base.Post.{Post, returns, fails, mono, never, bind-Post, attempt-Post, deferring-Post}
use spacetest.Base.{◌⊎◌}
use spacetest.Kernel.Calls.{start}
use spacetest.Kernel.Laws.{Launched}
use spacetest.Kernel.{own_stdout, own_stderr}
use spacetest.Execute.InAndOut.Table.{with_all}
use spacetest.Execute.InAndOut.Table as Lists
use spacetest.Service.Subspace.Opens.{stays_open, fds_of, or_answer-Post, fetch_client-Holds}
use spacetest.Service.Subspace.Panics.{paired-nil}
use spacetest.Kernel.{Kernel, State}
use spacetest.Kernel.Calls.{close}
use spacetest.Kernel.Laws.{IsLinux, with_fd}
use spacetest.Kernel.Table.{Has, GainsPair, dup-Post, with_fd_comm, with_fd-fresh, with_fd-swap}
use spacetest.Kernel.Held.{held-nil, positive_of_new, Acquires, close-Acquires}
use spacetest.Uds.Leaks.{new_pair-GainsPair}
use spacetest.Api.{Response, error_response}
use spacetest.Service.Room.{complement}
use spacetest.Service.Subspace.{
  refuse, start_child, with_pair, paired, connections, close_conn, subspace, hierarchical,
  Spacemaker, executable, output, clone_flags, maps_root,
}

-- What os/exec keeps open for a child: the result of a start of the service's binary with the clone
-- flags, the mapping to root and the writers for a request.
abbrev pub KeptFor : (k : Kernel) → Spacemaker → ℕ → List ℤ → Type 0
KeptFor k sm spaces kept =
    (t : ℕ) × (fd : ℤ) × (pid : ℕ) × (w : k.World) × ((k.start t (executable sm.exe)
        (clone_flags spaces) (maps_root spaces) (output sm.stdout own_stdout)
        (output sm.stderr own_stderr) fd w).0
      ≡ ok (pid, kept))

abbrev pub IsError : Response → Type 0
IsError (error_response reason) = Unit
IsError _ = ⊥

-- What is kept for a child that was started, or nothing with an error response.
abbrev pub Kept : (k : Kernel) → Spacemaker → ℕ → (ℤ → Bool) → Response → List ℤ → Type 0
Kept k sm spaces f resp kept =
    (KeptFor k sm spaces kept × Lists.AreNew f kept) ⊎ ((kept ≡ []) × IsError resp)

-- All that is open is from before, or kept for the child, or in the response, and new in these.
abbrev pub Answered : (k : Kernel) → Spacemaker → ℕ → (ℤ → Bool) → Response → State k → Type 0
Answered k sm spaces f resp s =
    (kept : List ℤ) × Kept k sm spaces f resp kept × Acquires k (with_all kept f) (fds_of resp) s

with_all_fd :
    (kept : List ℤ) (fd : ℤ) (f : ℤ → Bool)
    → with_all kept (with_fd fd f) ≡ with_fd fd (with_all kept f)
with_all_fd kept fd f = fun_ext λ j. ground arith

fresh_in_all :
    (kept : List ℤ) (fd : ℤ) (f : ℤ → Bool)
    → f fd ≡ false
    → Lists.AreNew (with_fd fd f) kept
    → Lists.AreNew f kept × (with_all kept f fd ≡ false)
fresh_in_all [] fd f fresh _ = (tt, fresh)
fresh_in_all (c ∷ kept) fd f fresh (new, news) =
    let (rest, apart) = fresh_in_all kept fd f fresh news in
    ((ground arith, rest), ground (arith, ==ℤ_iff fd c, ==ℤ_iff c fd))

module _ {k : Kernel} (linux : IsLinux k) (sm : Spacemaker) (spaces : ℕ) where
  -- `defer` the close of a descriptor around a call that answers.
  close-Answered :
      (fd : ℤ) (f : ℤ → Bool) (resp : Response) {E : State k → Type 0} (s : State k)
      → positive fd ≡ true
      → f fd ≡ false
      → Answered k sm spaces (with_fd fd f) resp s
      → Post (λ _. Answered k sm spaces f resp) E (close k fd s)
  close-Answered fd f resp s p fresh (kept, inl (launch, news), acq) =
      let (rest, apart) = fresh_in_all kept fd f fresh news in
      mono
        (close-Acquires linux fd (with_all kept f) p apart (fds_of resp) s
          (subst (λ g. Acquires k g (fds_of resp) s) (with_all_fd kept fd f) acq))
        (λ _ s' acq'. (kept, inl (launch, rest), acq')) (λ _ e. e)
  close-Answered fd f resp s p fresh (kept, inr (none_kept, is_error), acq) =
      mono
        (close-Acquires linux fd f p fresh (fds_of resp) s
          (subst (λ c. Acquires k (with_all c (with_fd fd f)) (fds_of resp) s) none_kept acq))
        (λ _ s' acq'. ([], inr (refl, is_error), acq')) (λ _ e. e)

  refuse-Answered :
      (f : ℤ → Bool) (what e : String) (s : State k)
      → Has k f s
      → Post (Answered k sm spaces f) (λ _. ⊥) (refuse k what e s)
  unfolding refuse
  refuse-Answered f what e s h = returns ([], inr (refl, tt), (tt, h ∙ sym (held-nil f)))

  start-Post :
      (fd : ℤ) (f : ℤ → Bool) (s : State k)
      → Has k f s
      → Post
          (λ p s'. KeptFor k sm spaces p.1 × Lists.AreNew f p.1 × Has k (with_all p.1 f) s')
          (Has k f)
          (start k
            (executable sm.exe)
            (clone_flags spaces)
            (maps_root spaces)
            (output sm.stdout own_stdout)
            (output sm.stderr own_stderr)
            fd
            s)
  unfolding start
  start-Post fd f s h =
      go
        (k.start s.thread (executable sm.exe) (clone_flags spaces) (maps_root spaces)
          (output sm.stdout own_stdout) (output sm.stderr own_stderr) fd s.world)
        refl (linux.start_law _ _ _ _ _ _ _ _)
    where
      go :
          (r : Outcome (ℕ × List ℤ) × k.World)
          → k.start s.thread
              (executable sm.exe)
              (clone_flags spaces)
              (maps_root spaces)
              (output sm.stdout own_stdout)
              (output sm.stderr own_stderr)
              fd
              s.world
            ≡ r
          → Launched k s.world r
          → Post
              (λ p s'. KeptFor k sm spaces p.1 × Lists.AreNew f p.1 × Has k (with_all p.1 f) s')
              (Has k f)
              (r.0, record s { world = r.1 })
      go (ok (pid, kept), w) is (news, fds) = returns (
        (s.thread, fd, pid, s.world, ap (λ x. x.0) is),
        subst (λ g. Lists.AreNew g kept) h news,
        fds ∙ ap (with_all kept) h,
      )
      go (err e, w) is fds = fails (fds ∙ h)

  start_child-Answered :
      (f : ℤ → Bool) (stdin : f (pos 0) ≡ true) (dupond dupont : ℤ) (s : State k)
      → Has k f s
      → Post (Answered k sm spaces f) (λ _. ⊥) (start_child k sm spaces dupond dupont s)
  unfolding start_child
  start_child-Answered f stdin dupond dupont s h =
      or_answer-Post _ _ _ _ (dup-Post linux s h dupont) (λ e s₁ h₁. refuse-Answered f _ e s₁ h₁)
        λ dupontf s₁ (m, fresh, h₁).
          deferring-Post _ _ _
            (or_answer-Post _ _ _ _ (start-Post dupontf (with_fd dupontf f) s₁ h₁)
              (λ e s₂ h₂. refuse-Answered (with_fd dupontf f) _ e s₂ h₂)
              λ (pid, kept) s₂ (launch, news, h₂).
                mono
                  (fetch_client-Holds linux (with_all kept (with_fd dupontf f)) (ground arith)
                    spaces pid dupond s₂ h₂)
                  (λ resp s₃ acq. (kept, inl (launch, news), acq)) (λ _ e. e))
            (λ resp s' a.
              close-Answered dupontf f resp s' (positive_of_new f dupontf stdin m fresh) fresh a)
            (λ s' e. absurd e)

  pub paired-Answered :
      (f : ℤ → Bool) (stdin : f (pos 0) ≡ true) (pair : ℤ × ℤ) (s : State k)
      → GainsPair k f pair s
      → Post (Answered k sm spaces f) (λ _. ⊥) (paired k sm spaces (ok pair) s)
  unfolding paired connections with_pair close_conn
  paired-Answered f stdin (a, b) s (na, nb, fa, fb, h) =
      deferring-Post _ _ _
        (start_child-Answered (with_fd b (with_fd a f))
          (stays_open b (with_fd a f) (stays_open a f stdin)) a b s h)
        (λ resp s₁ ans.
          bind-Post _ _ _
            (close-Answered a (with_fd b f) resp s₁ (positive_of_new f a stdin na fa)
              (with_fd-swap a b f fa fb)
              (subst (λ g. Answered k sm spaces g resp s₁) (with_fd_comm b a f) ans))
            λ _ s₂ ans₂.
              close-Answered b f resp s₂ (positive_of_new f b stdin nb (with_fd-fresh a b f fb))
                (with_fd-fresh a b f fb) ans₂)
        (λ s₁ e. absurd e)

  -- On a kernel that keeps its documented rules, with descriptor 0 (standard input) open. If
  -- `Subspace` returns a subspace response, then it has started a child with the clone flags, the
  -- mapping to root and the writers for its request, and the open descriptors are those from before,
  -- what os/exec keeps open for this child, and the positive descriptors in the response, all of
  -- them new. With an error response they are those from before and what os/exec keeps open for
  -- the child, if that was started. Where it panics they are those from before. (The end of the
  -- child, with which os/exec closes what it keeps, is not modelled.)
  pub subspace-Answered :
      (f : ℤ → Bool) (stdin : f (pos 0) ≡ true) (s : State k)
      → Has k f s
      → Post (Answered k sm spaces f) (Has k f) (subspace k sm spaces s)
  unfolding subspace
  subspace-Answered f stdin s h =
      elim (Bool-cases (bit_and spaces (complement hierarchical) == 0)) [
        | inr outside ↦ rw outside (returns ([], inr (refl, tt), (tt, h ∙ sym (held-nil f))))
        | inl inside ↦ rw inside (elim (Bool-cases (bit_and spaces hierarchical == 0)) [
          | inl nothing ↦ rw nothing (returns ([], inr (refl, tt), (tt, h ∙ sym (held-nil f))))
          | inr some_space ↦ rw some_space (
              bind-Post _ _ _ (attempt-Post _ _ (new_pair-GainsPair linux f s h))
                λ r s₁ p. go r s₁ p)
        ])
      ]
    where
      go :
          (r : Outcome (ℤ × ℤ)) (s₁ : State k)
          → Post (GainsPair k f) (Has k f) (r, s₁)
          → Post (Answered k sm spaces f) (Has k f) (paired k sm spaces r s₁)
      go (ok pair) s₁ (returns gains) = never (paired-Answered f stdin pair s₁ gains)
      go (err e) s₁ (fails h₁) = rw paired-nil (fails h₁)
