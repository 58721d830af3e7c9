-- ===== src/Execute/InAndOut/Saved.antt =====
-- What the loop of `goInAndOut` has saved, and where the code started.
use spacetest.Base.{ℕ, ℤ, Bool, true, List, [], ◌∷◌, ◌++◌, reverse, Outcome, ok, err, ◌≡◌, ◌∙◌, All}
use spacetest.Base.Post.{Post, returns, fails}
use spacetest.Kernel.{Kernel, State}
use spacetest.Kernel.Laws.{moves_thread, put}
use spacetest.Execute.InAndOut.{Callers}
use spacetest.Execute.InAndOut.Table.{with_all, AreNew}

-- What a saved descriptor references: its type and its namespace.
abbrev pub Saved : Type 0
Saved = ℤ × ℕ × ℕ

abbrev pub saved_fds : List Saved → List ℤ
saved_fds [] = []
saved_fds ((c, _, _) ∷ saved) = c ∷ saved_fds saved

-- Attaching to what was saved, the latest first, leads from `a` back to `a₀`.
abbrev pub Unwinds : (ℕ → ℕ) → List Saved → (ℕ → ℕ) → Type 0
Unwinds a₀ [] a = a ≡ a₀
Unwinds a₀ ((_, typ, ns) ∷ saved) a = (moves_thread typ ≡ true) × Unwinds a₀ saved (put typ ns a)

-- The namespaces after each descriptor of a list was entered in turn.
abbrev pub entered : (ℤ → ℕ × ℕ) → List ℤ → (ℕ → ℕ) → ℕ → ℕ
entered refs [] a = a
entered refs (fd ∷ fds) a = entered refs fds (put (refs fd).0 (refs fd).1 a)

-- Where the code started: thread, lock count, table, namespaces, references.
pub record Start : Type 0 where
  pub thread : ℕ
  pub locks : ℕ
  pub table : ℤ → Bool
  pub spaces : ℕ → ℕ
  pub refs : ℤ → ℕ × ℕ

module _ (k : Kernel) (start : Start) where
  -- The saved descriptors are new, and are all that was opened.
  pub record Basic (callers : List ℤ) (s : State k) : Type 0 where
    pub same_thread : s.thread ≡ start.thread
    pub same_locks : s.locks ≡ start.locks
    pub new : AreNew start.table callers
    pub holds : k.fds s.world ≡ with_all callers start.table

  -- The thread can be brought back from `a`, to which it is attached.
  pub record Full (callers : List ℤ) (a : ℕ → ℕ) (s : State k) : Type 0 where
    pub basic : Basic callers s
    pub attached : k.attached s.world s.thread ≡ a
    pub refs_kept : (j : ℤ) → start.table j ≡ true → k.refers s.world j ≡ start.refs j
    pub saved : List Saved
    pub order : reverse callers ≡ saved_fds saved
    pub references :
        All (λ e. (k.fds s.world e.0 ≡ true) × (k.refers s.world e.0 ≡ (e.1, e.2))) saved
    pub unwinds : Unwinds start.spaces saved a

  abbrev pub Loop : (ℕ → ℕ) → Callers → State k → Type 0
  Loop a (callers, ok _) s = Full callers a s
  Loop a (callers, err e) s = Basic callers s

-- A step of the world that opens descriptors, or none, keeps what open ones reference.
pub references-map :
    (k : Kernel) (w w' : k.World) (saved : List Saved)
    → ((j : ℤ) → k.fds w j ≡ true → (k.fds w' j ≡ true) × (k.refers w' j ≡ k.refers w j))
    → All (λ e. (k.fds w e.0 ≡ true) × (k.refers w e.0 ≡ (e.1, e.2))) saved
    → All (λ e. (k.fds w' e.0 ≡ true) × (k.refers w' e.0 ≡ (e.1, e.2))) saved
references-map k w w' [] keep h = tt
references-map k w w' ((c, typ, ns) ∷ saved) keep ((o, r), hs) =
    (((keep c o).0, (keep c o).1 ∙ r), references-map k w w' saved keep hs)

module _ (k : Kernel) (start : Start) where
  pub Loop-of :
      (callers : List ℤ) (a : ℕ → ℕ) (r : Outcome (Unit {0})) (s : State k)
      → Post (λ _. Full k start callers a) (Basic k start callers) (r, s)
      → Loop k start a (callers, r) s
  Loop-of callers a (ok _) s (returns full) = full
  Loop-of callers a (err e) s (fails basic) = basic

  -- Between saving the caller's namespace of a type and switching.
  pub record Half (callers : List ℤ) (a : ℕ → ℕ) (typ : ℕ) (c : ℤ) (s : State k) : Type 0 where
    pub basic : Basic k start (callers ++ c ∷ []) s
    pub attached : k.attached s.world s.thread ≡ a
    pub refs_kept : (j : ℤ) → start.table j ≡ true → k.refers s.world j ≡ start.refs j
    pub saved : List Saved
    pub order : reverse callers ≡ saved_fds saved
    pub references :
        All (λ e. (k.fds s.world e.0 ≡ true) × (k.refers s.world e.0 ≡ (e.1, e.2))) saved
    pub own : (k.fds s.world c ≡ true) × (k.refers s.world c ≡ (typ, a typ))
    pub unwinds : Unwinds start.spaces saved a
