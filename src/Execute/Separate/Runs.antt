-- ===== src/Execute/Separate/Runs.antt =====
-- `goSeparate` runs its function on another thread, in the namespaces that `Execute` promises.
use spacetest.Base.{
  ℕ, suc, ℤ, true, false, not, ◌==◌, nonnegative, List, [], ◌∷◌, ◌++◌, ◌≡◌, sym, ap, ◌∙◌, All,
  for_each, when, ◌>>◌, arith, if◌then◌else◌, Bool-cases, inl, inr,
}
use spacetest.Base.Post.{Post, returns, mono, bind-Post, deferring-Post, with-Post}
use spacetest.Spaces.{clone_newns}
use spacetest.Kernel.{Kernel, State}
use spacetest.Kernel.Calls.{Act, close, lock_os_thread}
use spacetest.Kernel.Laws.{IsLinux, moves_thread, shown, put}
use spacetest.Kernel.Place.{Place, Stands, shut_fd, Roams}
use spacetest.Kernel.Place.Rules.{lock-Stands, close-Stands}
use spacetest.Execute.InAndOut.Saved.{entered}
use spacetest.Execute.InAndOut.Table.{closed}
use spacetest.Execute.Separate.{all_pickups, separate, enter, enter_mnt}
use spacetest.Execute.Separate.Spaces.{
  Agree, mentions, has, Picked, entered-append, entered-same, entered-skip, entered-over,
  entered-Picked,
}
use spacetest.Execute.Separate.Enter.{enter_all-Stands, enter_mnt-Stands}
use spacetest.Execute.Separate.Pickups.{Left}

has_pickup : (typ : ℕ) → moves_thread typ ≡ true → has typ all_pickups ≡ not (typ == clone_newns)
has_pickup typ moves = ground arith

-- The namespaces that count, whatever the separate thread was attached to at first.
pub counts :
    (refs refs' : ℤ → ℕ × ℕ) (others : List ℤ) (types : List ℕ) (fds : List ℤ) (a b : ℕ → ℕ)
    (mnt : ℕ × ℕ)
    → mnt.0 ≡ clone_newns
    → All (λ fd. refs' fd ≡ refs fd) others
    → Left refs others all_pickups types
    → Picked refs' a types fds
    → Agree
        (entered refs' (others ++ fds) (put clone_newns mnt.1 b))
        (entered refs others (put mnt.0 mnt.1 a))
counts refs refs' others types fds a b mnt is same left picked typ moves =
    ap (λ f. f typ) (entered-append refs' others fds x)
    ∙ entered-Picked refs' a (entered refs' others x) types fds typ picked
    ∙ ap (λ f. if has typ types then a typ else f typ) (entered-same refs' refs others x same)
    ∙ elim (Bool-cases (mentions refs others typ)) [
      | inl given ↦
          ap (λ c. if c then a typ else entered refs others x typ) (none_left given)
          ∙ entered-over refs others x y typ given
      | inr taken ↦
          ap (λ v. if has typ types then a typ else v) (entered-skip refs others x typ taken)
          ∙ ap (λ c. if c then a typ else x typ) (all_left taken)
          ∙ ground (arith, is)
          ∙ sym (entered-skip refs others y typ taken)
    ]
  where
    x : ℕ → ℕ
    x = put clone_newns mnt.1 b

    y : ℕ → ℕ
    y = put mnt.0 mnt.1 a

    none_left : mentions refs others typ ≡ true → has typ types ≡ false
    none_left given = left.1 typ ∙ ground arith

    all_left : mentions refs others typ ≡ false → has typ types ≡ not (typ == clone_newns)
    all_left taken = left.1 typ ∙ ground (arith, has_pickup typ moves)

-- Closing the descriptors of a list in turn. `Done` is any fact that closing leaves alone.
close_all-Stands :
    {k : Kernel} (linux : IsLinux k) (Done : k.World → Type 0)
    → ((fd : ℤ) (w : k.World) → Done w → Done (k.close_fd fd w))
    → (fds : List ℤ) (p : Place) (s : State k) → Stands k p s
    → Done s.world
    → Post
        (λ _ s'. Stands k (record p { table = closed fds p.table }) s' × Done s'.world)
        (λ _. ⊥)
        (for_each fds (close k) s)
unfolding for_each
close_all-Stands linux Done keeps [] p s h done = returns (h, done)
close_all-Stands {k} linux Done keeps (fd ∷ fds) p s h done =
    bind-Post _ _ s (close_one fd s h done)
      λ _ s₁ (h₁, done₁). close_all-Stands linux Done keeps fds (shut_fd fd p) s₁ h₁ done₁
  where
    close_one :
        (fd : ℤ) (s : State k)
        → Stands k p s
        → Done s.world
        → Post (λ _ s'. Stands k (shut_fd fd p) s' × Done s'.world) (λ _. ⊥) (close k fd s)
    close_one fd s h done =
        mono
          (with-Post (λ s'. Done s'.world) (close-Stands linux p s h fd {E = λ _. ⊥})
            (unfold close in keeps fd s.world done))
          (λ _ _ r. r) (λ _ e. absurd e.0)

module _ {k : Kernel} (linux : IsLinux k) (Done : k.World → Type 0)
    (keeps : (fd : ℤ) (w : k.World) → Done w → Done (k.close_fd fd w)) (fn : Act k (Unit {0}))
    (mntnsfd : ℤ) (othernsfds pickupfds : List ℤ) (q : Place) (ns : ℕ)
    (valid : nonnegative mntnsfd ≡ true) (is_open : q.table mntnsfd ≡ true)
    (refs : q.refs mntnsfd ≡ (clone_newns, ns))
    (usable : All
      (λ fd. (q.table fd ≡ true) × (shown (q.refs fd).0 ≡ true))
      (othernsfds ++ pickupfds)) where
  -- where the function starts
  abbrev pub ready : (ℕ → ℕ) → Place
  ready a = record q { locks = suc q.locks; spaces = a }

  -- anywhere on the way
  abbrev OnTheWay : State k → Type 0
  OnTheWay s = (l : ℕ) × (a : ℕ → ℕ) × Stands k (record q { locks = l; spaces = a }) s

  abbrev pub Shut : State k → Type 0
  Shut s =
      (l : ℕ) × (a : ℕ → ℕ) × Stands k
        (record q { locks = l; spaces = a; table = closed pickupfds q.table }) s

  module _
      (runs : (a : ℕ → ℕ) (s : State k)
        → Agree a (entered q.refs (othernsfds ++ pickupfds) (put clone_newns ns q.spaces))
        → Stands k (ready a) s
        → Post (λ _ s'. Roams k (ready a) s' × Done s'.world) (Roams k (ready a)) (fn s)) where
    body-OnTheWay :
        (s : State k)
        → Stands k q s
        → Post
            (λ _ s'. OnTheWay s' × Done s'.world)
            OnTheWay
            ((lock_os_thread k
                >> (when (nonnegative mntnsfd) (enter_mnt k mntnsfd)
                    >> (for_each (othernsfds ++ pickupfds) (enter k) >> fn)))
              s)
    unfolding when
    body-OnTheWay s h = bind-Post _ _ s (lock-Stands linux q s h) λ _ s₁ h₁.
        bind-Post {Q = λ _. Stands k (ready (put clone_newns ns q.spaces))} _ _ s₁
          (rw valid (
            mono (enter_mnt-Stands linux _ s₁ mntnsfd ns is_open refs h₁) (λ _ _ h'. h')
              (λ _ h'. (suc q.locks, q.spaces, h'))))
          λ _ s₂ h₂.
            bind-Post _ _ s₂
              (mono (enter_all-Stands linux (othernsfds ++ pickupfds) _ s₂ usable h₂) (λ _ _ h'. h')
                (λ _ (a, h'). (suc q.locks, a, h')))
              λ _ s₃ (a, agree, h₃).
                mono (runs a s₃ agree h₃) (λ _ s' ((b, h'), done). ((suc q.locks, b, h'), done))
                  (λ s' (b, h'). (suc q.locks, b, h'))

    pub separate-Shut :
        (s : State k)
        → Stands k q s
        → Post (λ _ s'. Shut s' × Done s'.world) Shut (separate k fn mntnsfd othernsfds pickupfds s)
    unfolding separate
    separate-Shut s h =
        deferring-Post _ _ s (body-OnTheWay s h)
          (λ _ s₁ ((l, a, h₁), done).
            mono (close_all-Stands linux Done keeps pickupfds _ s₁ h₁ done)
              (λ _ s' (h', done'). ((l, a, h'), done')) (λ _ e. absurd e))
          (λ s₁ (l, a, h₁).
            mono (close_all-Stands linux (λ _. Unit {0}) (λ _ _ u. u) pickupfds _ s₁ h₁ tt)
              (λ _ s' (h', _). (l, a, h')) (λ _ e. absurd e))
