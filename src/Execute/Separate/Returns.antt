-- ===== src/Execute/Separate/Returns.antt =====
-- `goSeparate` keeps what it promises.
use spacetest.Base.{
  ℕ, ◌-◌, ℤ, Bool, true, nonnegative, List, [], ◌∷◌, ◌++◌, ◌≡◌, ◌≢◌, refl, sym, ap, ◌∙◌, All, ◌>>=◌,
  arith,
}
use spacetest.Base.Post.{Post, returns, mono, bind-Post, deferring-Post}
use spacetest.Spaces.{clone_newns}
use spacetest.Kernel.{Kernel, State}
use spacetest.Kernel.Calls.{Act, unlock_os_thread, go_routine}
use spacetest.Kernel.Laws.{IsLinux, shown, put}
use spacetest.Kernel.Place.{Place, Stands, place_of, place_of-Stands, Roams}
use spacetest.Kernel.Place.Rules.{lock-Stands}
use spacetest.Execute.InAndOut.Saved.{entered}
use spacetest.Execute.InAndOut.Table.{closed}
use spacetest.Execute.Separate.{delete_types, pick_up, all_pickups, separate, go_separate}
use spacetest.Execute.Separate.Spaces.{Agree, Picked}
use spacetest.Execute.Separate.Pickups.{
  Left, delete_types-Left, Gathered, none-Gathered, pick_up-Gathered, All-map, All-append,
}
use spacetest.Execute.Separate.Runs.{counts, separate-Shut}
use spacetest.Execute.Separate.Waits.{spawned, Found, waits-Found}
use spacetest.Execute.Separate.Promises.{
  IsBack, IsClean, Given, start, still_locked, from_place, older, inside, Gathered-IsBack,
  Found-IsBack, Found-IsClean,
}

pickups_shown : All (λ typ. shown typ ≡ true) all_pickups
pickups_shown = (refl, (refl, (refl, (refl, (refl, (refl, tt))))))

Picked-shown :
    (refs : ℤ → ℕ × ℕ) (a : ℕ → ℕ) (table : ℤ → Bool) (types : List ℕ) (fds : List ℤ)
    → Picked refs a types fds
    → All (λ typ. shown typ ≡ true) types
    → All (λ fd. table fd ≡ true) fds
    → All (λ fd. (table fd ≡ true) × (shown (refs fd).0 ≡ true)) fds
Picked-shown refs a table [] [] _ _ _ = tt
Picked-shown refs a table [] (_ ∷ _) h _ _ = absurd h
Picked-shown refs a table (_ ∷ _) [] h _ _ = absurd h
Picked-shown refs a table (typ ∷ types) (fd ∷ fds) (e, es) (t, ts) (o, os) =
    ((o, ap (λ r. shown r.0) e ∙ t), Picked-shown refs a table types fds es ts os)

module _ {k : Kernel} (linux : IsLinux k) (s : State k) where
  module _ (Done : k.World → Type 0)
      (keeps : (fd : ℤ) (w : k.World) → Done w → Done (k.close_fd fd w)) (fn : Act k (Unit {0}))
      (mntnsfd : ℤ) (othernsfds : List ℤ) (valid : nonnegative mntnsfd ≡ true)
      (is_open : k.fds s.world mntnsfd ≡ true) (is_mnt : (k.refers s.world mntnsfd).0 ≡ clone_newns)
      (given : All (Given k s) othernsfds)
      (runs : (t : State k)
        → t.thread ≢ s.thread
        → Agree
            (k.attached t.world t.thread)
            (entered (k.refers s.world) (mntnsfd ∷ othernsfds) (k.attached s.world s.thread))
        → Post
            (λ _ t'. Roams k (place_of k t) t' × Done t'.world)
            (Roams k (place_of k t))
            (fn t)) where
    run_separately :
        (types : List ℕ) (fds : List ℤ) (p' : Place) (s' : State k)
        → Left (k.refers s.world) othernsfds all_pickups types
        → Gathered (start s) types fds p'
        → Stands k p' s'
        → Post
            (λ _ t. Found k (record p' { table = closed fds p'.table }) t × Done t.world)
            (Found k (record p' { table = closed fds p'.table }))
            (go_routine k (separate k fn mntnsfd othernsfds fds) s')
    unfolding start
    run_separately types fds p' s' left g h =
        waits-Found linux p' s' h (still_locked s types fds p' s' g h) Done (closed fds p'.table) _
          λ t h'.
            separate-Shut linux Done keeps fn mntnsfd othernsfds fds (spawned k p' s')
              (k.refers s.world mntnsfd).1 valid (older s types fds p' mntnsfd g is_open)
              (g.kept mntnsfd is_open ∙ ap (λ x. (x, (k.refers s.world mntnsfd).1)) is_mnt) usable
              there t h'
      where
        same : All (λ fd. p'.refs fd ≡ k.refers s.world fd) othernsfds
        same = All-map (λ fd o. g.kept fd o.0) othernsfds given

        usable :
            All (λ fd. (p'.table fd ≡ true) × (shown (p'.refs fd).0 ≡ true)) (othernsfds ++ fds)
        usable =
            All-append _ othernsfds fds
              (All-map
                (λ fd o. (older s types fds p' fd g o.0, ap (λ r. shown r.0) (g.kept fd o.0) ∙ o.1))
                othernsfds given)
              (Picked-shown p'.refs _ p'.table types fds g.picked left.0 g.opens)

        there :
            (a : ℕ → ℕ) (t : State k)
            → Agree a (
                entered p'.refs
                  (othernsfds ++ fds)
                  (put clone_newns (k.refers s.world mntnsfd).1 (spawned k p' s').spaces))
            → Stands k (record (spawned k p' s') { locks = 1; spaces = a }) t
            → Post
                (λ _ t'.
                  Roams k (record (spawned k p' s') { locks = 1; spaces = a }) t' × Done t'.world)
                (Roams k (record (spawned k p' s') { locks = 1; spaces = a }))
                (fn t)
        there a t agree h' =
            mono
              (runs t
                (λ e.
                  linux.spawn_other s'.thread s'.world
                    (sym h'.thread ∙ e ∙ sym g.thread ∙ sym h.thread))
                (λ typ m.
                  ap (λ f. f typ) (ap (k.attached t.world) h'.thread ∙ h'.attached)
                  ∙ agree typ m
                  ∙ counts (k.refers s.world) p'.refs othernsfds types fds
                      (k.attached s.world s.thread) (spawned k p' s').spaces
                      (k.refers s.world mntnsfd) is_mnt same left g.picked typ m))
              (λ _ t' (r, done). (from_place s _ t t' h' r, done))
              (λ t' r. from_place s _ t t' h' r)

    released-IsBack :
        (s' : State k)
        → IsBack k (inside s) s'
        → Post (λ _. IsBack k s) (IsBack k s) (unlock_os_thread k s')
    unfolding inside unlock_os_thread
    released-IsBack s' b = returns (record {
      thread = b.thread;
      locks = ap (λ n. n - 1) b.locks ∙ ground arith;
      attached = b.attached;
    })

    released-IsClean :
        (s' : State k)
        → IsClean k (inside s) s'
        → Done s'.world
        → Post (λ _ s''. IsClean k s s'' × Done s''.world) (IsBack k s) (unlock_os_thread k s')
    unfolding inside unlock_os_thread
    released-IsClean s' c done = returns (
      record {
        back = record {
          thread = c.back.thread;
          locks = ap (λ n. n - 1) c.back.locks ∙ ground arith;
          attached = c.back.attached;
        };
        fds = c.fds;
        refers = c.refers;
        registered = c.registered;
      },
      done,
    )

    locked-IsClean :
        (s₁ : State k)
        → Stands k (start s) s₁
        → Post
            (λ _ s'. IsClean k (inside s) s' × Done s'.world)
            (IsBack k (inside s))
            ((delete_types k othernsfds all_pickups >>= λ pickups.
                pick_up k pickups [] >>= λ pickupfds.
                go_routine k (separate k fn mntnsfd othernsfds pickupfds))
              s₁)
    locked-IsClean s₁ h =
        bind-Post _ _ s₁
          (mono
            (delete_types-Left linux othernsfds all_pickups (start s) s₁ (unfold start in opens)
              pickups_shown h)
            (λ _ _ q. q)
            (λ s' h'. Gathered-IsBack s [] [] (start s) s' (none-Gathered (start s)) h'))
          λ pickups s₂ (left, h₂).
            bind-Post _ _ s₂
              (mono
                (pick_up-Gathered linux (start s) pickups [] [] (start s) s₂ left.0
                  (none-Gathered (start s)) h₂)
                (λ _ _ q. q) (λ s' (types, fds, p', g, h'). Gathered-IsBack s types fds p' s' g h'))
              λ pickupfds s₃ (p', g, h₃).
                mono (run_separately pickups pickupfds p' s₃ (unfold start in left) g h₃)
                  (λ _ s' (f, done). (Found-IsClean s pickups pickupfds p' s' g f, done))
                  (λ s' f. Found-IsBack s pickups pickupfds p' _ s' g f)
      where
        opens : All (λ fd. k.fds s.world fd ≡ true) othernsfds
        opens = All-map (λ fd o. o.0) othernsfds given

    pub go_separate-IsClean :
        Post
          (λ _ s'. IsClean k s s' × Done s'.world)
          (IsBack k s)
          (go_separate k fn mntnsfd othernsfds s)
    unfolding go_separate
    go_separate-IsClean =
        bind-Post _ _ s (lock-Stands linux (place_of k s) s (place_of-Stands k s)) λ _ s₁ h₁.
          deferring-Post _ _ s₁ (locked-IsClean s₁ (unfold start in h₁))
            (λ _ s' (c, done). released-IsClean s' c done) (λ s' b. released-IsBack s' b)
