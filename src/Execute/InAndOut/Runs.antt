-- ===== src/Execute/InAndOut/Runs.antt =====
-- What `goInAndOut` (execute.go) runs: the function, with what it has done still there at the end.
use spacetest.Base.{
  ℕ, suc, ℤ, List, [], Outcome, ok, err, ◌≡◌, All, attempt, deferring, for_each, ◌>>=◌, reverse,
  String,
}
use spacetest.Base.Post.{
  Post, returns, fails, mono, bind-Post, deferring-Post, for_each-Post, expecting-Post, never,
  both-Post,
}
use spacetest.Kernel.{Kernel, State}
use spacetest.Kernel.Calls.{Act, close, set_ns, lock_os_thread, unlock_os_thread}
use spacetest.Kernel.Laws.{IsLinux}
use spacetest.Execute.InAndOut.{Callers, restore, run_attached, go_in_and_out}
use spacetest.Execute.InAndOut.Saved.{entered, Start, Full, Loop}
use spacetest.Execute.InAndOut.Attach.{Usable, attach_all-Post}
use spacetest.Execute.InAndOut.Restores.{Stays, Tainted, start_of, go_in_and_out-Stays, start-Full}

-- Every call ends in some way.
settles :
    {S A : Type 0} (r : Outcome A × S) → Post {S = S} {A = A} (λ _ _. Unit {0}) (λ _. Unit {0}) r
settles (ok a, s) = returns tt
settles (err e, s) = fails tt

module _ {k : Kernel} (linux : IsLinux k) (Done : k.World → Type 0)
    (closes : (fd : ℤ) (w : k.World) → Done w → Done (k.close_fd fd w))
    (enters : (t : ℕ) (fd : ℤ) (typ : ℕ) (w : k.World) → Done w → Done (k.setns t fd typ w).1) where
  close_all-Done :
      (callers : List ℤ) {E : State k → Type 0} (s : State k)
      → Done s.world
      → Post (λ _ s'. Done s'.world) E (for_each callers (close k) s)
  close_all-Done callers s d = for_each-Post (λ _ t. Done t.world) (close k) step callers s d
    where
      step :
          {E : State k → Type 0} (c : ℤ) (todo : List ℤ) (t : State k)
          → Done t.world
          → Post (λ _ s'. Done s'.world) E (close k c t)
      step c todo t d' = unfold close in returns (closes c t.world d')

  set_ns-Done :
      (fd : ℤ) (typ : ℕ) (s : State k)
      → Done s.world
      → Post (λ _ s'. Done s'.world) (λ _. Unit {0}) (set_ns k fd typ s)
  unfolding set_ns
  set_ns-Done fd typ s d = go (k.setns s.thread fd typ s.world) (enters s.thread fd typ s.world d)
    where
      go :
          (r : Outcome (Unit {0}) × k.World)
          → Done r.1
          → Post (λ _ s'. Done s'.world) (λ _. Unit {0}) (r.0, record s { world = r.1 })
      go (ok u, w) d' = returns d'
      go (err e, w) d' = fails tt

  restore-Done :
      (callers : List ℤ) (s : State k)
      → Done s.world
      → Post (λ _ s'. Done s'.world) (λ _. Unit {0}) (restore k callers (ok tt) s)
  unfolding restore unlock_os_thread
  restore-Done callers s d =
      bind-Post _ _ _
        (for_each-Post (λ _ t. Done t.world) _
          (λ c todo t d'. expecting-Post _ _ _ (set_ns-Done c 0 t d')) (reverse callers) s d)
        λ _ s' d'. returns d'

  -- After a panic it goes on with the panic.
  restore_fails :
      (callers : List ℤ) (e : String) (s : State k)
      → Post (λ _ _. ⊥) (λ _. Unit {0}) (restore k callers (err e) s)
  unfolding restore
  restore_fails callers e s = bind-Post _ _ _ (settles _) λ _ s' _. fails tt

  unwind_fails :
      (callers : List ℤ) (e : String) (s : State k)
      → Post
          (λ _ s'. Done s'.world)
          (λ _. Unit {0})
          (deferring (for_each callers (close k)) (restore k callers (err e)) s)
  unwind_fails callers e s =
      deferring-Post _ _ _ (restore_fails callers e s) (λ _ _ no_return. absurd no_return)
        λ s' _. mono (settles _) (λ _ _ u. u) (λ _ u. u)

  unwind-Done :
      (callers : List ℤ) (s : State k)
      → Done s.world
      → Post
          (λ _ s'. Done s'.world)
          (λ _. Unit {0})
          (deferring (for_each callers (close k)) (restore k callers (ok tt)) s)
  unwind-Done callers s d =
      deferring-Post _ _ _ (restore-Done callers s d) (λ _ s' d'. close_all-Done callers s' d')
        λ s' _. mono (settles _) (λ _ _ u. u) (λ _ u. u)

  module _ (fn : Act k (Unit {0})) (a : ℕ → ℕ)
      (does : (s : State k)
        → k.attached s.world s.thread ≡ a
        → Post (λ _ s'. Done s'.world) (λ _. Unit {0}) (fn s)) where
    run_attached-Done :
        (start : Start) (p : Callers) (s : State k)
        → Loop k start a p s
        → Post (λ _ s'. Done s'.world) (λ _. Unit {0}) (run_attached k fn p s)
    unfolding run_attached
    run_attached-Done start (callers, err e) s b = unwind_fails callers e s
    run_attached-Done start (callers, ok _) s full =
        unfold attempt ◌>>=◌ in go (fn s) (does s full.attached)
      where
        go :
            (r : Outcome (Unit {0}) × State k)
            → Post (λ _ s'. Done s'.world) (λ _. Unit {0}) r
            → Post
                (λ _ s'. Done s'.world)
                (λ _. Unit {0})
                (deferring (for_each callers (close k)) (restore k callers r.0) r.1)
        go (ok _, s') (returns d) = unwind-Done callers s' d
        go (err e, s') (fails _) = unwind_fails callers e s'

  go_in_and_out-Done :
      (s : State k) (othernsfds : List ℤ)
      → All (Usable (start_of k s)) othernsfds
      → (fn : Act k (Unit {0}))
      → ((s' : State k)
          → k.attached s'.world s'.thread
            ≡ entered (k.refers s.world) othernsfds (k.attached s.world s.thread)
          → Post (λ _ t. Done t.world) (λ _. Unit {0}) (fn s'))
      → Post (λ _ s'. Done s'.world) (λ _. Unit {0}) (go_in_and_out k fn othernsfds s)
  unfolding go_in_and_out lock_os_thread
  go_in_and_out-Done s othernsfds usable fn does =
      bind-Post {Q = λ _ s₀. Full k start [] start.spaces s₀} _ _ _ (returns full) λ _ s₀ h.
        bind-Post _ _ _ (never (attach_all-Post linux start othernsfds [] _ s₀ usable h))
          λ p s₁ loop. run_attached-Done fn _ does start p s₁ loop
    where
      start : Start
      start = record (start_of k s) { locks = suc s.locks }

      full : Full k start [] start.spaces (record s { locks = suc s.locks })
      full = start-Full k s

  -- Both what it restores and what the function has done.
  pub go_in_and_out-Runs :
      (s : State k) (othernsfds : List ℤ)
      → All (Usable (start_of k s)) othernsfds
      → (fn : Act k (Unit {0}))
      → ((s' : State k)
          → k.attached s'.world s'.thread
            ≡ entered (k.refers s.world) othernsfds (k.attached s.world s.thread)
          → Stays k s' (fn s').1 × Post (λ _ t. Done t.world) (λ _. Unit {0}) (fn s'))
      → Post (λ _ s'. Stays k s s' × Done s'.world) (Tainted k s) (go_in_and_out k fn othernsfds s)
  go_in_and_out-Runs s othernsfds usable fn runs =
      both-Post (go_in_and_out-Stays linux s othernsfds usable fn (λ s' there. (runs s' there).0))
        (go_in_and_out-Done s othernsfds usable fn (λ s' there. (runs s' there).1))
