-- ===== src/Service/NewNamespace/Makes.antt =====
-- What the descriptor of `newNamespace` references, for each type that the service accepts.
use spacetest.Base.{
  ℕ, suc, ℤ, Bool, true, false, ◌==◌, ◌==ℤ◌, ==ℤ_iff, ==ℤ_refl, ◌≡◌, ◌≢◌, refl, ap, subst,
  Bool-cases, inl, inr, ◌∙◌, fun_ext, nonnegative, arith, if◌then◌else◌,
}
use spacetest.Base.Post.{Post, mono, bind-Post, when-Post, ignore-Post, deferring-Post}
use spacetest.Spaces.{clone_newns, clone_newtime}
use spacetest.Kernel.{Kernel, State}
use spacetest.Kernel.Calls.{self_path, open_ro, set_ns, unshare}
use spacetest.Kernel.Laws.{IsLinux, moves_thread, put, with_fd}
use spacetest.Kernel.Table.{with_fd-fresh, without_fd-with_fd, without_fd-with_fd-with_fd, Has}
use spacetest.Kernel.Place.{
  Place, Stands, place_of, place_of-Stands, opened, moved, shut_fd, everyone, Stands-everyone,
  Loose, Stands-Loose, moved-Loose, different,
}
use spacetest.Kernel.Place.Rules.{
  lock-Stands, close-Stands, open_self-Stands, open_time-Stands, unshare-Stands, unshare_fs-Stands,
  unshare_time-Stands, mount-Stands, set_ns-Stands, set_ns_still-Stands,
}
use spacetest.Service.NewNamespace.{leave, create, new_namespace}

-- The namespaces of every thread, those of the thread itself, and the namespace that it gets.
abbrev pub View : Type 1
View = (ℕ → ℕ → ℕ) → (ℕ → ℕ) → ℕ → Type 0

-- What the kernel does for a type: `Gets` says which namespace the thread gets by unshare(2).
record Makes (k : Kernel) (typ : ℕ) (Gets : View) : Type 0 where
  opens :
      (p : Place) (s : State k)
      → Stands k p s
      → Post
          (λ fd s'. (nonnegative fd ≡ true) × (p.table fd ≡ false) × Stands k (opened fd typ p) s')
          (Stands k p)
          (open_ro k (self_path typ) s)
  renews :
      (p : Place) (s : State k)
      → Stands k p s
      → Post
          (λ _ s'. (ns : ℕ) × Gets (everyone p) p.spaces ns × Stands k (moved typ ns p) s')
          (Stands k p)
          (unshare k typ s)
  resets :
      (p : Place) (fd : ℤ) (ns : ℕ) (s : State k)
      → p.table fd ≡ true
      → p.refs fd ≡ (typ, ns)
      → Stands k p s
      → Post (λ _. Loose k typ p) (Loose k typ p) (set_ns k fd 0 s)

-- a namespace of the type that no thread is attached to
abbrev pub New : ℕ → View
New typ all own ns = (t : ℕ) → all t typ ≢ ns

moves-Makes :
    {k : Kernel} (linux : IsLinux k) (typ : ℕ) → moves_thread typ ≡ true → Makes k typ (New typ)
moves-Makes {k} linux typ moves = record {
  opens = λ p s h. open_self-Stands linux p s h typ moves;
  renews = λ p s h.
      mono (unshare-Stands linux p s h typ moves)
        (λ _ s' (ns, new, h').
          (ns, (λ t e. new t (ap (λ a. a typ) (Stands-everyone p s h t) ∙ e)), h'))
        (λ _ h'. h');
  resets = λ p fd ns s is_open refs h.
      mono (set_ns-Stands linux p s h fd 0 typ ns is_open refs moves)
        (λ _ s' h'. moved-Loose typ ns p s' h') (λ s' h'. Stands-Loose typ p s' h');
}

-- the thread's own namespace
abbrev pub Own : ℕ → View
Own typ all own ns = ns ≡ own typ

put_own : (typ : ℕ) (a : ℕ → ℕ) → a ≡ put typ (a typ) a
put_own typ a = fun_ext λ x. ground arith

time-Makes : {k : Kernel} (linux : IsLinux k) → Makes k clone_newtime (Own clone_newtime)
time-Makes {k} linux = record {
  opens = open_time-Stands linux;
  renews = λ p s h.
      mono (unshare_time-Stands linux p s h)
        (λ _ s' h'. (
          p.spaces clone_newtime,
          refl,
          subst (λ a. Stands k (record p { spaces = a }) s') (put_own clone_newtime p.spaces) h',
        ))
        (λ _ h'. h');
  resets = λ p fd ns s is_open refs h.
      mono (set_ns_still-Stands linux p s h fd 0 clone_newtime ns is_open refs refl)
        (λ _ s' h'. Stands-Loose clone_newtime p s' h')
        (λ s' h'. Stands-Loose clone_newtime p s' h');
}

module _ {k : Kernel} (linux : IsLinux k) (typ : ℕ) {Gets : View} (makes : Makes k typ Gets) where
  leave-Loose :
      (p : Place) (fd : ℤ) (ns : ℕ) {E : State k → Type 0} (s : State k)
      → p.table fd ≡ true
      → p.refs fd ≡ (typ, ns)
      → Loose k typ p s
      → Post (λ _. Loose k typ (shut_fd fd p)) E (leave k fd s)
  unfolding leave
  leave-Loose p fd ns s is_open refs (a, same, h) =
      bind-Post _ _ _
        (ignore-Post _ _ (makes.resets (record p { spaces = a }) fd ns s is_open refs h))
        λ _ s₁ (b, same', h₁).
          mono (close-Stands linux _ s₁ h₁ fd) (λ _ s₂ h₂. (b, (λ x n. same' x n ∙ same x n), h₂))
            (λ _ e. e)

  create-Gets :
      (p : Place) (s : State k)
      → Stands k p s
      → Post
          (λ fd s'.
            (nonnegative fd ≡ true)
            × (p.table fd ≡ false)
            × (ns : ℕ) × Gets (everyone p) p.spaces ns
            × Stands k (opened fd typ (moved typ ns p)) s')
          (Loose k typ p)
          (create k typ s)
  unfolding create
  create-Gets p s h =
      bind-Post _ _ _
        (mono (when-Post (typ == clone_newns) _ s h (unshare_fs-Stands linux p s h)) (λ _ _ h'. h')
          (λ s' h'. Stands-Loose typ p s' h'))
        λ _ s₁ h₁.
          bind-Post _ _ _
            (mono (makes.renews p s₁ h₁) (λ _ _ h'. h') (λ s' h'. Stands-Loose typ p s' h'))
            λ _ s₂ (ns, gets, h₂).
              bind-Post _ _ _
                (mono (when-Post (typ == clone_newns) _ s₂ h₂ (mount-Stands linux _ s₂ h₂ _ _ _ _))
                  (λ _ _ h'. h') (λ s' h'. moved-Loose typ ns p s' h'))
                λ _ s₃ h₃.
                  mono (makes.opens _ s₃ h₃) (λ fd s' (n, fresh, h'). (n, fresh, ns, gets, h'))
                    (λ s' h'. moved-Loose typ ns p s' h')

-- What a call leaves alone: what was open and what it references, and the namespaces of all
-- threads, but for those of one type.
pub record Keeps (k : Kernel) (typ : ℕ) (s s' : State k) : Type 0 where
  pub refers : (j : ℤ) → k.fds s.world j ≡ true → k.refers s'.world j ≡ k.refers s.world j
  pub apart : (t x : ℕ) → x ≢ typ → k.attached s'.world t x ≡ k.attached s.world t x

Loose-Keeps :
    (k : Kernel) (typ : ℕ) (s s' : State k) (q : Place)
    → q.thread ≡ s.thread
    → q.others ≡ k.attached s.world
    → ((x : ℕ) → x ≢ typ → q.spaces x ≡ k.attached s.world s.thread x)
    → ((j : ℤ) → k.fds s.world j ≡ true → (q.table j ≡ true) × (q.refs j ≡ k.refers s.world j))
    → Loose k typ q s'
    → Keeps k typ s s'
Loose-Keeps k typ s s' q thread others spaces refs (a, same, h) = record {
  refers = λ j o. let (is_open, is) = refs j o in h.refers j is_open ∙ is;
  apart = λ t x n. ap (λ b. b x) (Stands-everyone (record q { spaces = a }) s' h t) ∙ each t x n;
}
  where
    each :
        (t x : ℕ) → x ≢ typ → (if t == q.thread then a else q.others t) x ≡ k.attached s.world t x
    each t x n = elim (Bool-cases (t == q.thread)) [
      | inl e ↦
          let t_is : s.thread ≡ t = ground (arith, thread) in
          rw e (same x n ∙ spaces x n ∙ ap (λ y. k.attached s.world y x) t_is)
      | inr n' ↦ rw n' (ap (λ b. b t x) others)
    ]

-- A descriptor of a namespace that the thread got.
pub record Made (k : Kernel) (typ : ℕ) (Gets : View) (s : State k) (fd : ℤ) (s' : State k)
    : Type 0 where
  pub valid : nonnegative fd ≡ true
  pub new : k.fds s.world fd ≡ false
  pub fds : k.fds s'.world ≡ with_fd fd (k.fds s.world)
  pub gets :
      (ns : ℕ) × Gets (everyone (place_of k s)) (k.attached s.world s.thread) ns
      × (k.refers s'.world fd ≡ (typ, ns))
  pub keeps : Keeps k typ s s'

-- where the thread stands with the descriptor of its namespace opened
abbrev begun : (k : Kernel) → ℕ → State k → ℤ → Place
begun k typ s callers = opened callers typ (record (place_of k s) { locks = suc s.locks })

begun-Keeps :
    (k : Kernel) (typ : ℕ) (s s' : State k) (callers : ℤ)
    → k.fds s.world callers ≡ false
    → Loose k typ (shut_fd callers (begun k typ s callers)) s'
    → Has k (k.fds s.world) s' × Keeps k typ s s'
begun-Keeps k typ s s' callers fresh h = (
  h.2.fds ∙ without_fd-with_fd callers (k.fds s.world) fresh,
  Loose-Keeps k typ s s' _ refl refl (λ x n. refl)
      (λ j o.
        let other : (j ==ℤ callers) ≡ false = different (k.fds s.world) callers j fresh o in
        (rw other o, rw other refl))
      h,
)

begun-Made :
    (k : Kernel) (typ : ℕ) (Gets : View) (s s' : State k) (callers fd : ℤ) (ns : ℕ)
    → k.fds s.world callers ≡ false
    → nonnegative fd ≡ true
    → with_fd callers (k.fds s.world) fd ≡ false
    → Gets (everyone (place_of k s)) (k.attached s.world s.thread) ns
    → Loose k typ (shut_fd callers (opened fd typ (moved typ ns (begun k typ s callers)))) s'
    → Made k typ Gets s fd s'
begun-Made k typ Gets s s' callers fd ns fresh n fresh' gets h =
    let f : ℤ → Bool = k.fds s.world in
    let new : f fd ≡ false = with_fd-fresh callers fd f fresh' in
    let apart : (fd ==ℤ callers) ≡ false = ground (arith, ==ℤ_iff fd callers) in
    record {
      valid = n;
      new = new;
      fds = h.2.fds ∙ without_fd-with_fd-with_fd callers fd f fresh fresh';
      gets = (ns, gets, h.2.refers fd (rw (apart, ==ℤ_refl fd)) ∙ ground (arith, ==ℤ_refl fd));
      keeps =
          Loose-Keeps k typ s s' _ refl refl (λ x n'. ground arith)
            (λ j o.
              let a : (j ==ℤ callers) ≡ false = different f callers j fresh o in
              let b : (j ==ℤ fd) ≡ false = different f fd j new o in (rw (a, b) o, rw (a, b) refl))
            h;
    }

module _ {k : Kernel} (linux : IsLinux k) (typ : ℕ) {Gets : View} (makes : Makes k typ Gets) where
  new_namespace_gets :
      (s : State k)
      → Post
          (Made k typ Gets s)
          (λ s'. Has k (k.fds s.world) s' × Keeps k typ s s')
          (new_namespace k typ s)
  unfolding new_namespace
  new_namespace_gets s = bind-Post _ _ _ (lock-Stands linux _ s (place_of-Stands k s)) λ _ s₁ h₁.
      bind-Post _ _ _
        (mono (makes.opens _ s₁ h₁) (λ _ _ h'. h')
          (λ s' h'. (
            h'.fds,
            Loose-Keeps k typ s s' _ refl refl (λ x n. refl) (λ j o. (o, refl))
                (Stands-Loose typ _ s' h'),
          )))
        λ callers s₂ (n, fresh, h₂).
          deferring-Post _ _ _ (create-Gets linux typ makes _ s₂ h₂)
            (λ fd s₃ (m, fresh', ns, gets, h₃).
              let other : (callers ==ℤ fd) ≡ false =
                different (with_fd callers (k.fds s.world)) fd callers fresh'
                  (rw (==ℤ_refl callers)) in
              mono
                (leave-Loose linux typ makes _ callers (k.attached s.world s.thread typ) s₃
                  (rw (other, ==ℤ_refl callers)) (rw (other, ==ℤ_refl callers))
                  (Stands-Loose typ _ s₃ h₃))
                (λ _ s₄ h₄. begun-Made k typ Gets s s₄ callers fd ns fresh m fresh' gets h₄)
                (λ _ e. e))
            (λ s₃ h₃.
              mono
                (leave-Loose linux typ makes _ callers (k.attached s.world s.thread typ) s₃
                  (rw (==ℤ_refl callers)) (rw (==ℤ_refl callers)) h₃)
                (λ _ s₄ h₄. begun-Keeps k typ s s₄ callers fresh h₄) (λ _ e. e))

-- On a kernel that keeps its documented rules, for a type into whose namespaces a thread can move:
-- what `newNamespace` returns is one new descriptor, of a namespace of that type to which no thread
-- was attached before. Whether it returns or fails, the descriptors that were open reference what
-- they did, and no thread has changed its namespace of any other type; after a failure the same
-- descriptors are open as before.
pub new_namespace-New :
    {k : Kernel} (linux : IsLinux k) (s : State k) (typ : ℕ)
    → moves_thread typ ≡ true
    → Post
        (Made k typ (New typ) s)
        (λ s'. Has k (k.fds s.world) s' × Keeps k typ s s')
        (new_namespace k typ s)
new_namespace-New linux s typ moves = new_namespace_gets linux typ (moves-Makes linux typ moves) s

-- On a kernel that keeps its documented rules, what `newNamespace` returns for a time namespace is
-- not a new namespace: the new descriptor references the time namespace to which its thread was
-- attached before, since unshare(2) gives a new one to the thread's later children only.
pub new_namespace-Own :
    {k : Kernel} (linux : IsLinux k) (s : State k)
    → Post
        (Made k clone_newtime (Own clone_newtime) s)
        (λ s'. Has k (k.fds s.world) s' × Keeps k clone_newtime s s')
        (new_namespace k clone_newtime s)
new_namespace-Own linux s = new_namespace_gets linux clone_newtime (time-Makes linux) s
