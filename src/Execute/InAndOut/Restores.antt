-- ===== src/Execute/InAndOut/Restores.antt =====
-- `goInAndOut` brings the thread back to where it was.
use spacetest.Base.{
  ℕ, suc, ℤ, Bool, true, List, [], ◌∷◌, reverse, Outcome, ok, err, ◌≡◌, refl, sym, ap, subst, ◌∙◌,
  All, attempt, deferring, for_each, ◌>>=◌, arith, String,
}
use spacetest.Base.Post.{Post, returns, mono, bind-Post, deferring-Post, for_each-Post, never}
use spacetest.Kernel.Place.{different}
use spacetest.Kernel.{Kernel, State}
use spacetest.Kernel.Calls.{Act, close, lock_os_thread}
use spacetest.Kernel.Laws.{IsLinux}
use spacetest.Execute.InAndOut.{Callers, restore, run_attached, go_in_and_out}
use spacetest.Execute.InAndOut.Table.{with_all, closed, closed-with_all}
use spacetest.Execute.InAndOut.Saved.{Saved, Unwinds, entered, Start, Basic, Full, Loop}
use spacetest.Execute.InAndOut.Attach.{Usable, attach_all-Post}
use spacetest.Execute.InAndOut.Unwinds.{
  Unwinding, Restored, Abandoned, restore_returned, restore_panicked,
}

-- What a function run by `Execute` must leave alone: the descriptors that are open, and the thread
-- with its lock and its namespaces.
pub record Stays (k : Kernel) (s s' : State k) : Type 0 where
  pub thread : s'.thread ≡ s.thread
  pub locks : s'.locks ≡ s.locks
  pub fds : k.fds s'.world ≡ k.fds s.world
  pub refers : (j : ℤ) → k.fds s.world j ≡ true → k.refers s'.world j ≡ k.refers s.world j
  pub attached : k.attached s'.world s.thread ≡ k.attached s.world s.thread

-- The thread, the lock count, the table and the namespaces that code started from.
abbrev pub start_of : (k : Kernel) → State k → Start
start_of k s = record {
  thread = s.thread;
  locks = s.locks;
  table = k.fds s.world;
  spaces = k.attached s.world s.thread;
  refs = k.refers s.world;
}

-- Nothing is saved yet, once the thread is locked.
pub start-Full :
    (k : Kernel) (s : State k)
    → Full k
        (record (start_of k s) { locks = suc s.locks })
        []
        (k.attached s.world s.thread)
        (record s { locks = suc s.locks })
start-Full k s = record {
  basic = record { same_thread = refl; same_locks = refl; new = tt; holds = refl };
  attached = refl;
  refs_kept = λ j h. refl;
  saved = [];
  order = refl;
  references = tt;
  unwinds = refl;
}

with_all_keeps : (cs : List ℤ) (f : ℤ → Bool) (j : ℤ) → f j ≡ true → with_all cs f j ≡ true
with_all_keeps cs f j h = ground arith

module _ {k : Kernel} (linux : IsLinux k) (start : Start) where
  close-Restored :
      (callers : List ℤ) {E : State k → Type 0} (s : State k)
      → Restored k start callers s
      → Post (λ _. Restored k start []) E (for_each callers (close k) s)
  close-Restored callers s h = for_each-Post (Restored k start) (close k) step callers s h
    where
      step :
          {E : State k → Type 0} (c : ℤ) (todo : List ℤ) (s : State k)
          → Restored k start (c ∷ todo) s
          → Post (λ _. Restored k start todo) E (close k c s)
      step c todo s h =
          unfold close in
          returns (record {
            thread = h.thread;
            locks = h.locks;
            new = h.new.1;
            holds = ap (closed todo) (linux.close_law c s.world) ∙ h.holds;
            attached = ap (λ t. t start.thread) (linux.close_attached c s.world) ∙ h.attached;
            refs_kept = λ j o.
                linux.close_refers c s.world j (different start.table c j h.new.0 o)
                ∙ h.refs_kept j o;
          })

  close-Abandoned :
      (callers : List ℤ) {E : State k → Type 0} (s : State k)
      → Abandoned k start callers s
      → Post (λ _. Abandoned k start []) E (for_each callers (close k) s)
  close-Abandoned callers s h = for_each-Post (Abandoned k start) (close k) step callers s h
    where
      step :
          {E : State k → Type 0} (c : ℤ) (todo : List ℤ) (s : State k)
          → Abandoned k start (c ∷ todo) s
          → Post (λ _. Abandoned k start todo) E (close k c s)
      step c todo s h =
          unfold close in
          returns (record {
            thread = h.thread;
            locks = h.locks;
            new = h.new.1;
            holds = ap (closed todo) (linux.close_law c s.world) ∙ h.holds;
          })

  Basic-Abandoned :
      (callers : List ℤ) (s : State k) → Basic k start callers s → Abandoned k start callers s
  Basic-Abandoned callers s b = record {
    thread = b.same_thread;
    locks = b.same_locks;
    new = b.new;
    holds = ap (closed callers) b.holds ∙ closed-with_all callers start.table b.new;
  }

  abandon-Post :
      (callers : List ℤ) (e : String) (s : State k)
      → Basic k start callers s
      → Post
          (λ _ _. ⊥)
          (Abandoned k start [])
          (deferring (for_each callers (close k)) (restore k callers (err e)) s)
  abandon-Post callers e s b =
      deferring-Post _ _ _ (restore_panicked linux start callers e s b)
        (λ _ _ no_return. absurd no_return)
        (λ s' b'. close-Abandoned callers s' (Basic-Abandoned callers s' b'))

  return-Post :
      (callers : List ℤ) (s : State k)
      → Unwinding k start callers (reverse callers) s
      → Post
          (λ _. Restored k start [])
          (Abandoned k start [])
          (deferring (for_each callers (close k)) (restore k callers (ok tt)) s)
  return-Post callers s u =
      deferring-Post _ _ _ (restore_returned linux start callers s u)
        (λ _ s' r. close-Restored callers s' r)
        (λ s' b'. close-Abandoned callers s' (Basic-Abandoned callers s' b'))

  module _ (fn : Act k (Unit {0})) (a : ℕ → ℕ)
      (stays : (s : State k) → k.attached s.world s.thread ≡ a → Stays k s (fn s).1) where
    fn-Basic :
        (callers : List ℤ) (s : State k) → Full k start callers a s → Basic k start callers (fn s).1
    fn-Basic callers s full =
        let st = stays s full.attached in
        record {
          same_thread = st.thread ∙ full.basic.same_thread;
          same_locks = st.locks ∙ full.basic.same_locks;
          new = full.basic.new;
          holds = st.fds ∙ full.basic.holds;
        }

    fn_references :
        (s s' : State k)
        → Stays k s s'
        → (saved : List Saved)
        → All (λ e. (k.fds s.world e.0 ≡ true) × (k.refers s.world e.0 ≡ (e.1, e.2))) saved
        → All (λ e. k.refers s'.world e.0 ≡ (e.1, e.2)) saved
    fn_references s s' st [] h = tt
    fn_references s s' st (e ∷ saved) ((o, r), hs) =
        (st.refers e.0 o ∙ r, fn_references s s' st saved hs)

    fn-Unwinding :
        (callers : List ℤ) (s : State k)
        → Full k start callers a s
        → Unwinding k start callers (reverse callers) (fn s).1
    fn-Unwinding callers s full =
        let st = stays s full.attached in
        record {
          basic = fn-Basic callers s full;
          saved = full.saved;
          order = full.order;
          references = fn_references s (fn s).1 st full.saved full.references;
          unwinds =
              subst (Unwinds start.spaces full.saved)
                (sym (ap (k.attached (fn s).1.world) st.thread ∙ st.attached ∙ full.attached))
                full.unwinds;
          refs_kept = λ j h.
              st.refers j (ap (λ t. t j) full.basic.holds ∙ with_all_keeps callers start.table j h)
              ∙ full.refs_kept j h;
        }

    run_attached-Post :
        (p : Callers) (s : State k)
        → Loop k start a p s
        → Post (λ _. Restored k start []) (Abandoned k start []) (run_attached k fn p s)
    unfolding run_attached
    run_attached-Post (callers, err e) s b =
        mono (abandon-Post callers e s b) (λ _ _ no_return. absurd no_return) (λ _ h. h)
    run_attached-Post (callers, ok _) s full = unfold attempt ◌>>=◌ in go (fn s).0
      where
        go :
            (r : Outcome (Unit {0}))
            → Post
                (λ _. Restored k start [])
                (Abandoned k start [])
                (deferring (for_each callers (close k)) (restore k callers r) (fn s).1)
        go (ok _) = return-Post callers (fn s).1 (fn-Unwinding callers s full)
        go (err e) =
            mono (abandon-Post callers e (fn s).1 (fn-Basic callers s full))
              (λ _ _ no_return. absurd no_return) (λ _ h. h)

-- What a panic out of `goInAndOut` leaves: no descriptor of its own, and the lock on the thread,
-- so that the Go runtime throws the thread away.
pub record Tainted (k : Kernel) (s s' : State k) : Type 0 where
  pub thread : s'.thread ≡ s.thread
  pub locks : s'.locks ≡ suc s.locks
  pub fds : k.fds s'.world ≡ k.fds s.world

-- On a kernel that keeps its documented rules, let the descriptors be open and of types into which
-- a thread can move, and let the function, started where the thread is attached to the given
-- namespaces in turn, leave alone the thread, its lock, its namespaces and what is open. If
-- `goInAndOut` returns, then the thread, its lock count, its namespaces, the table of open
-- descriptors and what they reference are as before. If it panics, no descriptor of its own is
-- left open and the go routine stays locked to its thread.
pub go_in_and_out-Stays :
    {k : Kernel} (linux : IsLinux k) (s : State k) (othernsfds : List ℤ)
    → All (Usable (start_of k s)) othernsfds
    → (fn : Act k (Unit {0}))
    → ((s' : State k)
        → k.attached s'.world s'.thread
          ≡ entered (k.refers s.world) othernsfds (k.attached s.world s.thread)
        → Stays k s' (fn s').1)
    → Post (λ _. Stays k s) (Tainted k s) (go_in_and_out k fn othernsfds s)
unfolding go_in_and_out lock_os_thread
go_in_and_out-Stays {k} linux s othernsfds usable fn stays =
    bind-Post {Q = λ _ s₀. Full k start [] start.spaces s₀} _ _ _ (returns full) λ _ s₀ h.
      bind-Post _ _ _ (never (attach_all-Post linux start othernsfds [] _ s₀ usable h)) λ p s₁ loop.
        mono (run_attached-Post linux start fn _ stays p s₁ loop)
          (λ _ s₂ r. record {
            thread = r.thread;
            locks = r.locks ∙ omega arith;
            fds = r.holds;
            refers = r.refs_kept;
            attached = r.attached;
          })
          (λ s₂ r. record { thread = r.thread; locks = r.locks; fds = r.holds })
  where
    start : Start
    start = record (start_of k s) { locks = suc s.locks }

    full : Full k start [] start.spaces (record s { locks = suc s.locks })
    full = start-Full k s
