-- ===== src/Execute/Separate/Waits.antt =====
-- What a caller finds that waited for a go routine while it was locked to its thread.
use spacetest.Base.{ℕ, ℤ, Bool, true, ltb, Outcome, ok, err, ◌≡◌, refl, sym, ap, ◌∙◌, arith}
use spacetest.Base.Post.{Post, returns, fails}
use spacetest.Kernel.{Kernel, State}
use spacetest.Kernel.Calls.{Act, go_routine}
use spacetest.Kernel.Laws.{IsLinux}
use spacetest.Kernel.Place.{Place, Stands, everyone, Stands-everyone}

-- The place of a new go routine's thread.
abbrev pub spawned : (k : Kernel) → Place → State k → Place
spawned k p s =
    let (t, w) = k.spawn s.thread true s.world in
    record {
      thread = t;
      locks = 0;
      table = p.table;
      refs = p.refs;
      spaces = k.attached w t;
      cleanups = p.cleanups;
      others = everyone p;
    }

spawned-Stands :
    {k : Kernel} (linux : IsLinux k) (p : Place) (s : State k)
    → Stands k p s
    → let (t, w) = k.spawn s.thread true s.world in
      Stands k (spawned k p s) (record s { world = w; thread = t; locks = 0 })
spawned-Stands {k} linux p s h = record {
  thread = refl;
  locks = refl;
  fds = linux.spawn_fds s.thread true s.world ∙ h.fds;
  refers = λ j o. ap (λ r. r j) (linux.spawn_refers s.thread true s.world) ∙ h.refers j o;
  attached = refl;
  cleanups = h.cleanups;
  others =
      λ t _. ap (λ a. a t) (linux.spawn_attached s.thread true s.world) ∙ Stands-everyone p s h t;
}

-- What a caller that waited for a go routine finds.
pub record Found (k : Kernel) (p : Place) (s : State k) : Type 0 where
  pub thread : s.thread ≡ p.thread
  pub locks : s.locks ≡ p.locks
  pub fds : k.fds s.world ≡ p.table
  pub refers : (j : ℤ) → p.table j ≡ true → k.refers s.world j ≡ p.refs j
  pub attached : k.attached s.world p.thread ≡ p.spaces
  pub cleanups : s.cleanups ≡ p.cleanups

module _ {k : Kernel} (linux : IsLinux k) (p : Place) (s : State k) (h : Stands k p s)
    (locked : ltb 0 s.locks ≡ true) where
  waited-Found :
      (table : ℤ → Bool) (l : ℕ) (a : ℕ → ℕ) (s' : State k)
      → Stands k (record (spawned k p s) { locks = l; spaces = a; table = table }) s'
      → Found k (record p { table = table }) (record s' { thread = s.thread; locks = s.locks })
  waited-Found table l a s' h' = record {
    thread = h.thread;
    locks = h.locks;
    fds = h'.fds;
    refers = h'.refers;
    attached =
        h'.others p.thread (λ e. linux.spawn_other s.thread s.world (sym e ∙ sym h.thread))
        ∙ ground arith;
    cleanups = h'.cleanups;
  }

  pub waits-Found :
      (Done : k.World → Type 0) (table : ℤ → Bool) (m : Act k (Unit {0}))
      → ((s' : State k)
          → Stands k (spawned k p s) s'
          → Post
              (λ _ s''.
                ((l : ℕ) × (a : ℕ → ℕ) × Stands k
                    (record (spawned k p s) { locks = l; spaces = a; table = table })
                    s'')
                × Done s''.world)
              (λ s''.
                (l : ℕ) × (a : ℕ → ℕ) × Stands k
                  (record (spawned k p s) { locks = l; spaces = a; table = table })
                  s'')
              (m s'))
      → Post
          (λ _ s'. Found k (record p { table = table }) s' × Done s'.world)
          (Found k (record p { table = table }))
          (go_routine k m s)
  unfolding go_routine
  waits-Found Done table m runs = rw locked (go _ (runs _ (spawned-Stands linux p s h)))
    where
      go :
          (r : Outcome (Unit {0}) × State k)
          → Post
              (λ _ s''.
                ((l : ℕ) × (a : ℕ → ℕ) × Stands k
                    (record (spawned k p s) { locks = l; spaces = a; table = table })
                    s'')
                × Done s''.world)
              (λ s''.
                (l : ℕ) × (a : ℕ → ℕ) × Stands k
                  (record (spawned k p s) { locks = l; spaces = a; table = table })
                  s'')
              r
          → Post
              (λ _ s'. Found k (record p { table = table }) s' × Done s'.world)
              (Found k (record p { table = table }))
              (r.0, record (r.1) { thread = s.thread; locks = s.locks })
      go (ok _, s') (returns ((l, a, h'), done)) = returns (waited-Found table l a s' h', done)
      go (err e, s') (fails (l, a, h')) = fails (waited-Found table l a s' h')
