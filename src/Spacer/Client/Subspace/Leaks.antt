-- ===== src/Spacer/Client/Subspace/Leaks.antt =====
-- What `Subspace` does with the descriptors of the service's answer.
use spacetest.Base.{
  ℤ, Bool, true, false, ok, ◌≡◌, refl, nonnegative, List, [], ◌∷◌, ◌++◌, deferring, when, ◌>>=◌,
  arith,
}
use mathlib.Core.List.{append-nil, append_assoc}
use spacetest.Base.{for_each, sym, subst, ◌⊎◌, inl, inr, ◌∙◌, ok, Outcome, ap}
use spacetest.Base.Decimal.{Bytes}
use spacetest.Base.Post.{
  Post, returns, mono, bind-Post, bind-ok, expecting-Post, deferring-Post, with-Post,
}
use spacetest.Kernel.Laws.{IsLinux, with_fd}
use spacetest.Kernel.Table.{
  Post-either, Has, Gains, close-Post, without_fd-with_fd, without_fd-with_fd-with_fd,
  with_fd-fresh,
}
use spacetest.Api.{Request, Response}
use spacetest.Api.Fds.Laws.{open_ones}
use spacetest.Api.Subspace.{Subspaces, SubspaceResponse}
use spacetest.Uds.Leaks.{new_unix_conn-Gains}
use spacetest.Uds.Messages.{Messages}
use spacetest.Spacer.Gobmsg.{Gob}
use spacetest.Spacer.Client.{subspace_spaces, close_open_at_end}
use spacetest.Spacer.Client.Registers.{registered, registers}
use spacetest.Spacer.Client.Exchange.{Client, do_subspace}
use spacetest.Spacer.Client.Subspace.{take_subspace, subspace}
use spacetest.Kernel.{Kernel, State}
use spacetest.Kernel.Calls.{close, file_conn, is_unix}
use spacetest.Uds.{take_conn, new_unix_conn}

new_unix_conn_cleanups :
    (k : Kernel) (fd : ℤ) (s : State k) → (new_unix_conn k fd s).1.cleanups ≡ s.cleanups
unfolding new_unix_conn take_conn file_conn is_unix close when deferring ◌>>=◌
new_unix_conn_cleanups k fd s = ground arith

-- The descriptors of the namespaces are registered, and nothing else.
registers_spaces :
    (k : Kernel) (user pid : ℤ) (s : State k)
    → for_each (user ∷ pid ∷ []) (close_open_at_end k) s
      ≡ (ok tt, registered k (open_ones (pid ∷ user ∷ [])) s)
registers_spaces k user pid s =
    registers k [] user (pid ∷ []) s
    ∙ registers k _ pid [] s
    ∙ unfold for_each in rw (append_assoc, append-nil) refl

module _ (k : Kernel) (f : ℤ → Bool) (cleanups : List ℤ) where
  -- One new descriptor, that of the new client's connection, and those of the namespaces are to be
  -- closed at the end.
  abbrev pub Settles : SubspaceResponse → ℤ → Subspaces → State k → Type 0
  Settles resp conn spaces t =
      Gains k f conn t
      × (t.cleanups ≡ open_ones (resp.pid ∷ resp.user ∷ []) ++ cleanups)
      × (spaces ≡ resp.subspaces)

  -- Nothing is registered, and all the descriptors of the table are open, with at most one more.
  abbrev pub Abandons : State k → Type 0
  Abandons t = (Has k f t ⊎ ((conn : ℤ) × Gains k f conn t)) × (t.cleanups ≡ cleanups)

module _ {k : Kernel} (linux : IsLinux k) where
  -- Closing the PID descriptor leaves the rest.
  close-Settles :
      (fd conn : ℤ) (f : ℤ → Bool) (cleanups : List ℤ) (s : State k)
      → f fd ≡ false
      → Gains k (with_fd fd f) conn s
      → s.cleanups ≡ cleanups
      → Post (λ _ t. Gains k f conn t × (t.cleanups ≡ cleanups)) (λ _. ⊥) (close k fd s)
  unfolding close
  close-Settles fd conn f cleanups s fresh (n, new, h) same =
      mono (with-Post (λ t. t.cleanups ≡ cleanups) (close-Post linux s h fd) same)
        (λ _ t (h', same'). (
          (n, with_fd-fresh fd conn f new, h' ∙ without_fd-with_fd-with_fd fd conn f fresh new),
          same',
        ))
        (λ _ e. e.0)

  close-Abandons :
      (fd : ℤ) (f : ℤ → Bool) (cleanups : List ℤ) (s : State k)
      → f fd ≡ false
      → Abandons k (with_fd fd f) cleanups s
      → Post (λ _. Abandons k f cleanups) (λ _. ⊥) (close k fd s)
  unfolding close
  close-Abandons fd f cleanups s fresh (inl h, same) =
      mono (with-Post (λ t. t.cleanups ≡ cleanups) (close-Post linux s h fd) same)
        (λ _ t (h', same'). (inl (h' ∙ without_fd-with_fd fd f fresh), same')) (λ _ e. e.0)
  close-Abandons fd f cleanups s fresh (inr (conn, gains), same) =
      mono (close-Settles fd conn f cleanups s fresh gains same)
        (λ _ t (gains', same'). (inr (conn, gains'), same')) (λ _ e. e)

module _ {k : Kernel} (linux : IsLinux k) {g_req : Gob Request} {g_resp : Gob Response}
    (readlink read_file : k.World → Bytes → Outcome Bytes) where
  take_subspace-Settles :
      (c : Client g_req g_resp) (resp : SubspaceResponse) (f : ℤ → Bool) (s : State k)
      → nonnegative resp.conn ≡ true
      → f resp.conn ≡ false
      → Has k (with_fd resp.conn f) s
      → Post
          (λ r. Settles k f s.cleanups resp r.0.conn r.1)
          (Abandons k f s.cleanups)
          (take_subspace k readlink read_file c resp s)
  unfolding take_subspace
  take_subspace-Settles c resp f s n fresh h =
      bind-Post _ _ s
        (expecting-Post _ _ s (
          mono
            (with-Post (λ t. t.cleanups ≡ s.cleanups)
              (new_unix_conn-Gains linux resp.conn f s n fresh h)
              (new_unix_conn_cleanups k resp.conn s))
            (λ _ _ q. q) (λ _ (h', same). (inl h', same))))
        λ subconn s₁ (gains, same).
          bind-Post {Q = λ _ t. Gains k f subconn t × (t.cleanups ≡ s.cleanups)} _ _ s₁
            (expecting-Post _ _ s₁ (
              mono
                (Post-either k {P = λ t. Gains k f subconn t × (t.cleanups ≡ s.cleanups)} _ s₁
                  (gains, same))
                (λ _ _ q. q) (λ _ (gains', same'). (inr (subconn, gains'), same'))))
            λ pid s₂ (gains', same').
              subst (Post _ _)
                (sym (bind-ok _ _ s₂ _ tt (registers_spaces k resp.user resp.pid s₂)))
                (returns
                  (gains', ap (λ cs. open_ones (resp.pid ∷ resp.user ∷ []) ++ cs) same', refl))

  -- On a kernel that keeps its documented rules, when the service answers a `Subspace` request with
  -- a connection and a PID descriptor that are open, and different, beside a table of others, both
  -- are closed in the end. If `Subspace` returns, one new descriptor is open beside the others, that
  -- of the new client's connection, and exactly the open descriptors of the namespaces in the
  -- answer are registered to be closed when the test ends. If it fails, all the others are open,
  -- those of the namespaces in the answer included, with at most one more, and nothing is
  -- registered.
  pub subspace-Settles :
      (m : Messages k) (c c' : Client g_req g_resp) (user pid : Bool) (resp : SubspaceResponse)
      → (f : ℤ → Bool) (s s' : State k)
      → do_subspace k m c (subspace_spaces user pid) s ≡ (ok (c', resp), s')
      → nonnegative resp.conn ≡ true
      → f resp.pid_fd ≡ false
      → with_fd resp.pid_fd f resp.conn ≡ false
      → Has k (with_fd resp.conn (with_fd resp.pid_fd f)) s'
      → Post
          (λ (_, newclient, spaces). Settles k f s'.cleanups resp newclient.conn spaces)
          (Abandons k f s'.cleanups)
          (subspace k readlink read_file m c user pid s)
  unfolding subspace
  subspace-Settles m c c' user pid resp f s s' done n fresh_pid fresh h =
      subst (Post _ _) (sym (bind-ok _ _ s s' (c', resp) done)) (
        bind-Post _ _ s'
          (deferring-Post {Q' = λ r. Settles k f s'.cleanups resp r.0.conn r.1}
            {E' = Abandons k f s'.cleanups} _ _ s'
            (take_subspace-Settles c' resp (with_fd resp.pid_fd f) s' n fresh h)
            (λ r t (gains, same, is).
              mono (close-Settles linux resp.pid_fd r.0.conn f _ t fresh_pid gains same)
                (λ _ t' (gains', same'). (gains', same', is)) (λ _ e. absurd e))
            (λ t bad.
              mono (close-Abandons linux resp.pid_fd f _ t fresh_pid bad) (λ _ _ q. q)
                (λ _ e. absurd e)))
          λ r t q. returns q)
