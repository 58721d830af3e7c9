-- ===== src/Execute/InAndOut/Unwinds.antt =====
-- What `goInAndOut` has saved leads the thread back to where it was.
use spacetest.Base.{
  ℕ, ◌-◌, ℤ, true, List, [], ◌∷◌, reverse, Outcome, ok, err, ◌≡◌, sym, ap, subst, ◌∙◌, All, String,
}
use spacetest.Base.Post.{
  Post, returns, fails, bind-Post, expecting-Post, ignore-Post, for_each-Post,
}
use spacetest.Kernel.{Kernel, State}
use spacetest.Kernel.Calls.{set_ns, unlock_os_thread}
use spacetest.Kernel.Laws.{IsLinux, Entered, moves_thread, put}
use spacetest.Kernel.Table.{Post-either}
use spacetest.Execute.InAndOut.{restore}
use spacetest.Execute.InAndOut.Table.{closed, closed-with_all, AreNew}
use spacetest.Execute.InAndOut.Saved.{Saved, saved_fds, Unwinds, Start, Basic}

module _ (k : Kernel) (start : Start) where
  -- While the saved namespaces are restored: what is left to restore leads to the start.
  pub record Unwinding (callers : List ℤ) (todo : List ℤ) (s : State k) : Type 0 where
    pub basic : Basic k start callers s
    pub saved : List Saved
    pub order : todo ≡ saved_fds saved
    pub references : All (λ e. k.refers s.world e.0 ≡ (e.1, e.2)) saved
    pub unwinds : Unwinds start.spaces saved (k.attached s.world s.thread)
    pub refs_kept : (j : ℤ) → start.table j ≡ true → k.refers s.world j ≡ start.refs j

  pub unwound :
      (saved : List Saved) (a : ℕ → ℕ)
      → [] ≡ saved_fds saved
      → Unwinds start.spaces saved a
      → a ≡ start.spaces
  unwound [] a order u = u
  unwound (e ∷ saved) a order u = absurd (cc)

  -- The thread stands where it started, with the saved descriptors still to be closed.
  pub record Restored (todo : List ℤ) (s : State k) : Type 0 where
    pub thread : s.thread ≡ start.thread
    pub locks : s.locks ≡ start.locks - 1
    pub new : AreNew start.table todo
    pub holds : closed todo (k.fds s.world) ≡ start.table
    pub attached : k.attached s.world start.thread ≡ start.spaces
    pub refs_kept : (j : ℤ) → start.table j ≡ true → k.refers s.world j ≡ start.refs j

  -- The same after a panic: the thread keeps its lock.
  pub record Abandoned (todo : List ℤ) (s : State k) : Type 0 where
    pub thread : s.thread ≡ start.thread
    pub locks : s.locks ≡ start.locks
    pub new : AreNew start.table todo
    pub holds : closed todo (k.fds s.world) ≡ start.table

  pub Basic-world :
      (callers : List ℤ) (s : State k) (w : k.World)
      → k.fds w ≡ k.fds s.world
      → Basic k start callers s
      → Basic k start callers (record s { world = w })
  Basic-world callers s w e b = record {
    same_thread = b.same_thread;
    same_locks = b.same_locks;
    new = b.new;
    holds = e ∙ b.holds;
  }

  pub references-world :
      (w w' : k.World) (saved : List Saved)
      → k.refers w' ≡ k.refers w
      → All (λ e. k.refers w e.0 ≡ (e.1, e.2)) saved
      → All (λ e. k.refers w' e.0 ≡ (e.1, e.2)) saved
  references-world w w' [] e h = tt
  references-world w w' (x ∷ saved) e (h, hs) =
      (ap (λ t. t x.0) e ∙ h, references-world w w' saved e hs)

module _ {k : Kernel} (linux : IsLinux k) (start : Start) (callers : List ℤ) where
  pub set_ns-Basic :
      (c : ℤ) (s : State k)
      → Basic k start callers s
      → Post (λ _. Basic k start callers) (Basic k start callers) (set_ns k c 0 s)
  unfolding set_ns
  set_ns-Basic c s b =
      Post-either k _ _ (Basic-world k start callers s _ (linux.setns_fds _ _ _ _) b)

  pub set_ns_unwind :
      (c : ℤ) (todo : List ℤ) (s : State k)
      → Unwinding k start callers (c ∷ todo) s
      → Post (λ _. Unwinding k start callers todo) (Basic k start callers) (set_ns k c 0 s)
  unfolding set_ns
  set_ns_unwind c todo s u =
      go u.saved u.order u.references u.unwinds (k.setns s.thread c 0 s.world)
        (linux.setns_law _ _ _ _) (linux.setns_fds _ _ _ _) (linux.setns_refers _ _ _ _)
    where
      go :
          (saved : List Saved)
          → (c ∷ todo) ≡ saved_fds saved
          → All (λ e. k.refers s.world e.0 ≡ (e.1, e.2)) saved
          → Unwinds start.spaces saved (k.attached s.world s.thread)
          → (r : Outcome (Unit {0}) × k.World) → Entered k s.thread c s.world r
          → k.fds r.1 ≡ k.fds s.world
          → k.refers r.1 ≡ k.refers s.world
          → Post
              (λ _. Unwinding k start callers todo)
              (Basic k start callers)
              (r.0, record s { world = r.1 })
      go [] order refs unwinds r enters same_fds same_refs = absurd (cc)
      go (e ∷ saved) order refs unwinds (err m, w) stayed same_fds same_refs =
          fails (Basic-world k start callers s w same_fds u.basic)
      go ((c', typ, ns) ∷ saved) order (is, refs) (moves, unwinds) (ok _, w) enters same_fds
            same_refs =
          let same : c ≡ c' = cc in
          let entry : k.refers s.world c ≡ (typ, ns) = ap (k.refers s.world) same ∙ is in
          returns (record {
            basic = Basic-world k start callers s w same_fds u.basic;
            saved = saved;
            order = cc;
            references = references-world k start s.world w saved same_refs refs;
            unwinds =
                subst (Unwinds start.spaces saved)
                  (sym (
                    subst
                      (λ p.
                        moves_thread p.0 ≡ true
                        → k.attached w s.thread ≡ put p.0 p.1 (k.attached s.world s.thread))
                      entry enters moves))
                  unwinds;
            refs_kept = λ j h. ap (λ t. t j) same_refs ∙ u.refs_kept j h;
          })

  -- The deferred function after a return.
  pub restore_returned :
      (s : State k)
      → Unwinding k start callers (reverse callers) s
      → Post (λ _. Restored k start callers) (Basic k start callers) (restore k callers (ok tt) s)
  unfolding restore unlock_os_thread
  restore_returned s u =
      bind-Post _ _ _
        (for_each-Post (Unwinding k start callers) _
          (λ c todo s' h. expecting-Post _ _ _ (set_ns_unwind c todo s' h)) (reverse callers) s u)
        λ _ s' h. returns (record {
          thread = h.basic.same_thread;
          locks = ap (λ n. n - 1) h.basic.same_locks;
          new = h.basic.new;
          holds =
              ap (closed callers) h.basic.holds ∙ closed-with_all callers start.table h.basic.new;
          attached =
              ap (k.attached s'.world) (sym h.basic.same_thread)
              ∙ unwound k start h.saved _ h.order h.unwinds;
          refs_kept = h.refs_kept;
        })

  -- After a panic it does what it can.
  pub restore_panicked :
      (e : String) (s : State k)
      → Basic k start callers s
      → Post (λ _ _. ⊥) (Basic k start callers) (restore k callers (err e) s)
  unfolding restore
  restore_panicked e s b =
      bind-Post _ _ _
        (for_each-Post (λ _. Basic k start callers) _
          (λ c todo s' h.
            bind-Post _ _ _ (ignore-Post _ _ (set_ns-Basic c s' h)) λ _ s'' h'. returns h')
          (reverse callers) s b)
        λ _ s' h. fails h
