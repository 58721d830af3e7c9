-- ===== src/Execute/InAndOut/Attach.antt =====
-- The loop of `goInAndOut`.
use spacetest.Base.{
  ℕ, ℤ, Bool, true, List, [], ◌∷◌, ◌++◌, Outcome, ok, err, ◌≡◌, refl, sym, ap, subst, ◌∙◌, All,
  arith, ==ℤ_refl, pure,
}
use spacetest.Base.Post.{Post, returns, fails, bind-Post, attempt-Post, expecting-Post}
use spacetest.Kernel.Place.{put_again}
use spacetest.Kernel.{Kernel, State}
use spacetest.Kernel.Calls.{self_path, open_ro, set_ns}
use spacetest.Kernel.Laws.{IsLinux, Opened, Entered, with_fd, moves_thread, put}
use spacetest.Execute.InAndOut.{Callers, switch_to, save_and_switch, attach_one, attach_all}
use spacetest.Execute.InAndOut.Table.{with_all, with_all-append, AreNew-append}
use mathlib.Core.List.{reverse-append}
use spacetest.Space.Rules.{type_of_fd-Post}
use spacetest.Execute.InAndOut.Saved.{
  Unwinds, entered, Start, Basic, Full, Loop, references-map, Loop-of, Half,
}

-- What is open in the table at the start is open in the loop.
open_in_loop : (cs : List ℤ) (f g : ℤ → Bool) (j : ℤ) → g ≡ with_all cs f → f j ≡ true → g j ≡ true
open_in_loop cs f g j e h = ap (λ t. t j) e ∙ ground arith

with_fd_self : (c : ℤ) (f g : ℤ → Bool) → g ≡ with_fd c f → g c ≡ true
with_fd_self c f g e = ap (λ t. t c) e ∙ ground (arith, ==ℤ_refl c)

with_fd_keeps : (c : ℤ) (f g : ℤ → Bool) (j : ℤ) → g ≡ with_fd c f → f j ≡ true → g j ≡ true
with_fd_keeps c f g j e h = ap (λ t. t j) e ∙ ground arith

module _ {k : Kernel} (linux : IsLinux k) (start : Start) (callers : List ℤ) (a : ℕ → ℕ) where
  open-Half :
      (typ : ℕ) (s : State k)
      → moves_thread typ ≡ true
      → Full k start callers a s
      → Post (Half k start callers a typ) (Basic k start callers) (open_ro k (self_path typ) s)
  unfolding open_ro
  open-Half typ s m full =
      go (k.open_path s.thread (self_path typ) s.world) (linux.open_law _ _ _)
        (λ j h. linux.open_refers _ _ _ j h) (λ fd e. linux.open_self _ typ _ fd m e)
        (linux.open_attached _ _ _)
    where
      go :
          (r : Outcome ℤ × k.World)
          → Opened k s.world r
          → ((j : ℤ) → k.fds s.world j ≡ true → k.refers r.1 j ≡ k.refers s.world j)
          → ((fd : ℤ) → r.0 ≡ ok fd → k.refers r.1 fd ≡ (typ, k.attached s.world s.thread typ))
          → k.attached r.1 ≡ k.attached s.world
          → Post
              (Half k start callers a typ)
              (Basic k start callers)
              (r.0, record s { world = r.1 })
      go (ok c, w) (n, fresh, e) same self att = returns (record {
        basic = record {
          same_thread = full.basic.same_thread;
          same_locks = full.basic.same_locks;
          new =
              AreNew-append start.table callers c full.basic.new
                (sym (ap (λ t. t c) full.basic.holds) ∙ fresh);
          holds = e ∙ ap (with_fd c) full.basic.holds ∙ with_all-append callers c start.table;
        };
        attached = ap (λ t. t s.thread) att ∙ full.attached;
        refs_kept = λ j h.
            same j (open_in_loop callers start.table _ j full.basic.holds h) ∙ full.refs_kept j h;
        saved = full.saved;
        order = full.order;
        references =
            references-map k s.world w full.saved (λ j h. (with_fd_keeps c _ _ j e h, same j h))
              full.references;
        own = (with_fd_self c _ _ e, self c refl ∙ ap (λ t. (typ, t typ)) full.attached);
        unwinds = full.unwinds;
      })
      go (err m, w) e same self att = fails (record {
        same_thread = full.basic.same_thread;
        same_locks = full.basic.same_locks;
        new = full.basic.new;
        holds = e ∙ full.basic.holds;
      })

  module _ (nsfd : ℤ) (given : start.table nsfd ≡ true)
      (moves : moves_thread (start.refs nsfd).0 ≡ true) where
    -- The namespaces once this descriptor was entered.
    abbrev next : ℕ → ℕ
    next = put (start.refs nsfd).0 (start.refs nsfd).1 a

    set_ns-Half :
        (c : ℤ) (s : State k)
        → Half k start callers a (start.refs nsfd).0 c s
        → Post
            (λ _. Full k start (callers ++ c ∷ []) next)
            (Basic k start (callers ++ c ∷ []))
            (set_ns k nsfd (start.refs nsfd).0 s)
    unfolding set_ns
    set_ns-Half c s half =
        go (k.setns s.thread nsfd (start.refs nsfd).0 s.world) (linux.setns_law _ _ _ _)
          (linux.setns_fds _ _ _ _) (linux.setns_refers _ _ _ _)
      where
        left :
            (w : k.World)
            → k.fds w ≡ k.fds s.world
            → Basic k start (callers ++ c ∷ []) (record s { world = w })
        left w same_fds = record {
          same_thread = half.basic.same_thread;
          same_locks = half.basic.same_locks;
          new = half.basic.new;
          holds = same_fds ∙ half.basic.holds;
        }

        go :
            (r : Outcome (Unit {0}) × k.World)
            → Entered k s.thread nsfd s.world r
            → k.fds r.1 ≡ k.fds s.world
            → k.refers r.1 ≡ k.refers s.world
            → Post
                (λ _. Full k start (callers ++ c ∷ []) next)
                (Basic k start (callers ++ c ∷ []))
                (r.0, record s { world = r.1 })
        go (ok _, w) enters same_fds same_refs = returns (record {
          basic = left w same_fds;
          attached =
              subst
                (λ p.
                  moves_thread p.0 ≡ true
                  → k.attached w s.thread ≡ put p.0 p.1 (k.attached s.world s.thread))
                (half.refs_kept nsfd given) enters moves
              ∙ ap (put _ _) half.attached;
          refs_kept = λ j h. ap (λ t. t j) same_refs ∙ half.refs_kept j h;
          saved = (c, (start.refs nsfd).0, a (start.refs nsfd).0) ∷ half.saved;
          order = reverse-append callers (c ∷ []) ∙ ap (λ l. c ∷ l) half.order;
          references = (
            (ap (λ t. t c) same_fds ∙ half.own.0, ap (λ t. t c) same_refs ∙ half.own.1),
            references-map k s.world w half.saved
                (λ j h. (ap (λ t. t j) same_fds ∙ h, ap (λ t. t j) same_refs)) half.references,
          );
          unwinds =
              (moves, subst (Unwinds start.spaces half.saved) (sym (put_again _ a _)) half.unwinds);
        })
        go (err m, w) stayed same_fds same_refs = fails (left w same_fds)

    switch_to-Post :
        (c : ℤ) (s : State k)
        → Half k start callers a (start.refs nsfd).0 c s
        → Post (Loop k start next) (λ _. ⊥) (switch_to k nsfd (start.refs nsfd).0 callers c s)
    unfolding switch_to
    switch_to-Post c s half =
        bind-Post _ _ _ (attempt-Post _ _ (expecting-Post _ _ _ (set_ns-Half c s half)))
          λ r s' p. returns (Loop-of k start (callers ++ c ∷ []) next r s' p)

    save_and_switch-Post :
        (s : State k)
        → Full k start callers a s
        → Post (Loop k start next) (λ _. ⊥) (save_and_switch k nsfd callers (start.refs nsfd).0 s)
    unfolding save_and_switch
    save_and_switch-Post s full =
        bind-Post _ _ _
          (attempt-Post _ _ (expecting-Post _ _ _ (open-Half (start.refs nsfd).0 s moves full)))
          λ r s' p. go r s' p
      where
        go :
            (r : Outcome ℤ) (s' : State k)
            → Post (Half k start callers a (start.refs nsfd).0) (Basic k start callers) (r, s')
            → Post
                (Loop k start next)
                (λ _. ⊥)
                (let m : State k → Outcome Callers × State k = elim r [
                  | err e ↦ pure (callers, err e)
                  | ok c ↦ switch_to k nsfd (start.refs nsfd).0 callers c
                ] in
                  m s')
        go (ok c) s' (returns half) = switch_to-Post c s' half
        go (err e) s' (fails basic) = returns basic

    attach_one-Post :
        (s : State k)
        → Full k start callers a s
        → Post (Loop k start next) (λ _. ⊥) (attach_one k nsfd callers s)
    unfolding attach_one
    attach_one-Post s full =
        bind-Post _ _ _
          (attempt-Post _ _ (type_of_fd-Post linux {P = Full k start callers a} nsfd s full))
          λ r s' p. go r s' p
      where
        go :
            (r : Outcome ℕ) (s' : State k)
            → Post
                (λ typ t. ((k.refers t.world nsfd).0 ≡ typ) × Full k start callers a t)
                (Full k start callers a)
                (r, s')
            → Post
                (Loop k start next)
                (λ _. ⊥)
                (let m : State k → Outcome Callers × State k = elim r [
                  | err e ↦ pure (callers, err e)
                  | ok typ ↦ save_and_switch k nsfd callers typ
                ] in
                  m s')
        go (ok typ) s' (returns (is_typ, full')) =
            subst (λ t. Post (Loop k start next) (λ _. ⊥) (save_and_switch k nsfd callers t s'))
              (sym (ap (λ p. p.0) (full'.refs_kept nsfd given)) ∙ is_typ)
              (save_and_switch-Post s' full')
        go (err e) s' (fails full') = returns full'.basic

-- A namespace descriptor that the caller may pass in: open, and of a type that moves a thread.
abbrev pub Usable : Start → ℤ → Type 0
Usable start nsfd = (start.table nsfd ≡ true) × (moves_thread (start.refs nsfd).0 ≡ true)

module _ {k : Kernel} (linux : IsLinux k) (start : Start) where
  pub attach_all-Post :
      (nsfds : List ℤ) (callers : List ℤ) (a : ℕ → ℕ) (s : State k)
      → All (Usable start) nsfds
      → Full k start callers a s
      → Post (Loop k start (entered start.refs nsfds a)) (λ _. ⊥) (attach_all k nsfds callers s)
  unfolding attach_all
  attach_all-Post [] callers a s _ full = returns full
  attach_all-Post (nsfd ∷ nsfds) callers a s (u, us) full =
      bind-Post _ _ _ (attach_one-Post linux start callers a nsfd u.0 u.1 s full)
        λ p s' loop. go p s' loop (λ callers' full'. attach_all-Post nsfds callers' _ s' us full')
    where
      go :
          (p : Callers) (s' : State k)
          → Loop k start (put (start.refs nsfd).0 (start.refs nsfd).1 a) p s'
          → ((callers' : List ℤ)
              → Full k start callers' (put (start.refs nsfd).0 (start.refs nsfd).1 a) s'
              → Post
                  (Loop k start (entered start.refs (nsfd ∷ nsfds) a))
                  (λ _. ⊥)
                  (attach_all k nsfds callers' s'))
          → Post
              (Loop k start (entered start.refs (nsfd ∷ nsfds) a))
              (λ _. ⊥)
              (let m : State k → Outcome Callers × State k = elim (p.1) [
                | err e ↦ pure (p.0, err e)
                | ok _ ↦ attach_all k nsfds (p.0)
              ] in
                m s')
      go (callers', ok _) s' full' next = next callers' full'
      go (callers', err e) s' basic next = returns basic
