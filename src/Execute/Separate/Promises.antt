-- ===== src/Execute/Separate/Promises.antt =====
-- What `goSeparate` promises, and what of it holds on the way.
use spacetest.Base.{ℕ, suc, ℤ, Bool, true, false, ltb, List, ◌++◌, ◌≡◌, sym, ap, ◌∙◌, All, arith}
use spacetest.Kernel.{Kernel, State}
use spacetest.Kernel.Laws.{shown}
use spacetest.Kernel.Place.{Place, Stands, place_of, Roams}
use spacetest.Execute.InAndOut.Table.{closed, closed-with_all}
use spacetest.Execute.InAndOut.Table.{AreNew-apply}
use spacetest.Execute.Separate.Pickups.{Gathered, All-map}
use spacetest.Execute.Separate.Waits.{Found}

-- The caller goes on on its thread, with its lock count and in its namespaces.
pub record IsBack (k : Kernel) (s s' : State k) : Type 0 where
  pub thread : s'.thread ≡ s.thread
  pub locks : s'.locks ≡ s.locks
  pub attached : k.attached s'.world s.thread ≡ k.attached s.world s.thread

-- Moreover the same descriptors are open and reference what they did, and what is registered
-- anew is not open.
pub record IsClean (k : Kernel) (s s' : State k) : Type 0 where
  pub back : IsBack k s s'
  pub fds : k.fds s'.world ≡ k.fds s.world
  pub refers : (j : ℤ) → k.fds s.world j ≡ true → k.refers s'.world j ≡ k.refers s.world j
  pub registered :
      (cs : List ℤ) × (s'.cleanups ≡ cs ++ s.cleanups) × All (λ c. k.fds s'.world c ≡ false) cs

-- An open descriptor of a namespace of a type that a thread can show.
abbrev pub Given : (k : Kernel) → State k → ℤ → Type 0
Given k s fd = (k.fds s.world fd ≡ true) × (shown (k.refers s.world fd).0 ≡ true)

module _ {k : Kernel} (s : State k) where
  unfoldable pub start : Place
  start = record (place_of k s) { locks = suc s.locks }

  pub still_locked :
      (types : List ℕ) (fds : List ℤ) (p' : Place) (s' : State k)
      → Gathered start types fds p'
      → Stands k p' s'
      → ltb 0 s'.locks ≡ true
  unfolding start
  still_locked types fds p' s' g h =
      let e : s'.locks ≡ suc s.locks = h.locks ∙ g.locks in ground arith

  -- The function's account of a state is one of the place at which the state stands.
  pub from_place :
      (q : Place) (t t' : State k) → Stands k q t → Roams k (place_of k t) t' → Roams k q t'
  from_place q t t' h (a, h') = (
    a,
    record {
      thread = h'.thread ∙ h.thread;
      locks = h'.locks ∙ h.locks;
      fds = h'.fds ∙ h.fds;
      refers = λ j o. h'.refers j (ap (λ f. f j) h.fds ∙ o) ∙ h.refers j o;
      attached = ap (k.attached t'.world) (sym h.thread) ∙ h'.attached;
      cleanups = h'.cleanups ∙ h.cleanups;
      others = λ x n. h'.others x (λ e. n (e ∙ h.thread)) ∙ h.others x n;
    },
  )

  pub older :
      (types : List ℕ) (fds : List ℤ) (p' : Place) (j : ℤ)
      → Gathered start types fds p'
      → k.fds s.world j ≡ true
      → p'.table j ≡ true
  unfolding start
  older types fds p' j g o = ap (λ f. f j) g.table ∙ ground arith

  -- The caller's thread is locked once more until `goSeparate` ends.
  unfoldable pub inside : State k
  inside = record s { locks = suc s.locks }

  pub Gathered-IsBack :
      (types : List ℕ) (fds : List ℤ) (p' : Place) (s' : State k)
      → Gathered start types fds p'
      → Stands k p' s'
      → IsBack k inside s'
  unfolding start inside
  Gathered-IsBack types fds p' s' g h = record {
    thread = h.thread ∙ g.thread;
    locks = h.locks ∙ g.locks;
    attached = ap (k.attached s'.world) (sym g.thread) ∙ h.attached ∙ g.spaces;
  }

  pub Found-IsBack :
      (types : List ℕ) (fds : List ℤ) (p' : Place) (table : ℤ → Bool) (s' : State k)
      → Gathered start types fds p'
      → Found k (record p' { table = table }) s'
      → IsBack k inside s'
  unfolding start inside
  Found-IsBack types fds p' table s' g h = record {
    thread = h.thread ∙ g.thread;
    locks = h.locks ∙ g.locks;
    attached = ap (k.attached s'.world) (sym g.thread) ∙ h.attached ∙ g.spaces;
  }

  pub Found-IsClean :
      (types : List ℕ) (fds : List ℤ) (p' : Place) (s' : State k)
      → Gathered start types fds p'
      → Found k (record p' { table = closed fds p'.table }) s'
      → IsClean k inside s'
  unfolding start inside
  Found-IsClean types fds p' s' g h =
      let (cs, is, within) = g.registered in
      record {
        back = Found-IsBack types fds p' (closed fds p'.table) s' g h;
        fds = table_back;
        refers = λ j o. h.refers j (ap (λ f. f j) shut ∙ o) ∙ g.kept j o;
        registered = (
          cs,
          h.cleanups ∙ is,
          All-map
              (λ c among. ap (λ f. f c) table_back ∙ AreNew-apply (k.fds s.world) fds c g.new among)
              cs within,
        );
      }
    where
      shut : closed fds p'.table ≡ k.fds s.world
      shut = ap (closed fds) g.table ∙ closed-with_all fds (k.fds s.world) g.new

      table_back : k.fds s'.world ≡ k.fds s.world
      table_back = h.fds ∙ shut
