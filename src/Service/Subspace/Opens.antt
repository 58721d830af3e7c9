-- ===== src/Service/Subspace/Opens.antt =====
-- What `Subspace` opens once its child runs.
use spacetest.Base.{
  ℕ, ℤ, pos, String, Bool, true, false, List, [], ◌∷◌, Outcome, ok, err, ◌≡◌, ◌∙◌, sym, ap, ==ℤ_iff,
  positive, nonnegative, contains, deferring, ◌>>◌, arith, ◌++◌, fun_ext,
}
use spacetest.Base.Post.{Post, returns, fails, mono, bind-Post, attempt-Post, deferring-Post}
use spacetest.Kernel.{Kernel, State}
use spacetest.Kernel.Calls.{Act, close}
use spacetest.Kernel.Laws.{IsLinux, with_fd, without_fd}
use spacetest.Kernel.Table.{Has, Gains, close-Post, open_ro-Post, dup-Post, pidfd_open-Post}
use spacetest.Kernel.Held.{
  held, held-set, held-nil, shut, shut-held_of_same, AreNew, AreNew-set, positive_of_new, Acquires,
  close-Acquires,
}
use spacetest.Api.{Response, error_response, subspace_response, rooms_response}
use spacetest.Service.Room.{close_open}
use spacetest.Service.Room.Leaks.{fields, close_open-Post}
use spacetest.Service.Subspace.{or_answer, refuse, open_if, answer_child, open_child, fetch_client}

pub stays_open : (fd : ℤ) (f : ℤ → Bool) → f (pos 0) ≡ true → with_fd fd f (pos 0) ≡ true
stays_open fd f h = ground arith

-- The descriptors that a response carries.
abbrev pub fds_of : Response → List ℤ
fds_of (error_response reason) = []
fds_of (rooms_response r) = fields r
fds_of (subspace_response r) = r.conn ∷ r.pid_fd ∷ r.user ∷ r.pid ∷ []

-- All that is open is from before, or in the response, where it is new.
abbrev pub Holds : (k : Kernel) → (ℤ → Bool) → Response → State k → Type 0
Holds k f resp = Acquires k f (fds_of resp)

pub or_answer-Post :
    {k : Kernel} {A : Type 0} {Q : A → State k → Type 0} {E : State k → Type 0}
    {R : Response → State k → Type 0} {F : State k → Type 0} (m : Act k A)
    (no_answer : String → Act k Response) (next : A → Act k Response) (s : State k)
    → Post Q E (m s)
    → ((e : String) (s' : State k) → E s' → Post R F (no_answer e s'))
    → ((a : A) (s' : State k) → Q a s' → Post R F (next a s'))
    → Post R F (or_answer k m no_answer next s)
unfolding or_answer
or_answer-Post {k} {A} {Q} {E} {R} {F} m no_answer next s h bad good =
    bind-Post _ _ _ (attempt-Post _ _ h) λ r s' p. go r s' p
  where
    go :
        (r : Outcome A) (s' : State k)
        → Post Q E (r, s')
        → Post R F (let n : Act k Response = elim r [ err e ↦ no_answer e | ok a ↦ next a ] in n s')
    go (ok a) s' (returns q) = good a s' q
    go (err e) s' (fails p) = bad e s' p

module _ {k : Kernel} (linux : IsLinux k) (f : ℤ → Bool) (stdin : f (pos 0) ≡ true) where
  pub refuse-Holds :
      (what e : String) (s : State k) → Has k f s → Post (Holds k f) (λ _. ⊥) (refuse k what e s)
  unfolding refuse
  refuse-Holds what e s h = returns (tt, h ∙ sym (held-nil f))

  gained_positive :
      (xs : List ℤ) (fd : ℤ)
      → nonnegative fd ≡ true
      → held xs f fd ≡ false
      → (f fd ≡ false) × (positive fd ≡ true)
  gained_positive xs fd n e =
      let fresh : f fd ≡ false = ground arith in (fresh, positive_of_new f fd stdin n fresh)

  -- A gained descriptor in a place of the list that was blank.
  place :
      (xs ys : List ℤ) (fd : ℤ) (s : State k)
      → AreNew f (xs ++ pos 0 ∷ ys)
      → Gains k (held (xs ++ pos 0 ∷ ys) f) fd s
      → Acquires k f (xs ++ fd ∷ ys) s
  place xs ys fd s new (n, e, h) =
      let (fresh, p) = gained_positive (xs ++ pos 0 ∷ ys) fd n e in
      (AreNew-set f xs ys fd fresh new, h ∙ sym (held-set xs ys fd f p))

  close_positive : (fd : ℤ) (g : ℤ → Bool) → positive fd ≡ true → shut (fd ∷ []) g ≡ without_fd fd g
  close_positive fd g p = rw p

  -- Closing the three descriptors that `Subspace` may hold gives the table back.
  same_three :
      (conn user pid j : ℤ)
      → positive j ≡ true
      → contains j (pid ∷ user ∷ conn ∷ []) ≡ contains j (conn ∷ pos 0 ∷ user ∷ pid ∷ [])
  same_three conn user pid j p = ground (arith, ==ℤ_iff j (pos 0))

  close_three :
      (conn user pid : ℤ) (what e : String) (s : State k)
      → positive conn ≡ true
      → Acquires k f (conn ∷ pos 0 ∷ user ∷ pid ∷ []) s
      → Post
          (Holds k f)
          (λ _. ⊥)
          ((close_open k pid >> (close_open k user >> (close k conn >> refuse k what e))) s)
  close_three conn user pid what e s p (new, h) =
      bind-Post _ _ _ (close_open-Post linux f stdin pid _ s h) λ _ s₁ h₁.
        bind-Post _ _ _ (close_open-Post linux f stdin user _ s₁ h₁) λ _ s₂ h₂.
          bind-Post _ _ _ (close-Post linux s₂ h₂ conn) λ _ s₃ h₃. refuse-Holds what e s₃ (
            h₃
            ∙ sym (close_positive conn _ p)
            ∙ shut-held_of_same (pid ∷ user ∷ conn ∷ []) (conn ∷ pos 0 ∷ user ∷ pid ∷ []) f
                (same_three conn user pid) new)

  answer_child-Holds :
      (n : ℕ) (conn user pid : ℤ) (s : State k)
      → positive conn ≡ true
      → Acquires k f (conn ∷ pos 0 ∷ user ∷ pid ∷ []) s
      → Post (Holds k f) (λ _. ⊥) (answer_child k n conn user pid s)
  unfolding answer_child
  answer_child-Holds n conn user pid s p (new, h) =
      or_answer-Post _ _ _ _ (pidfd_open-Post linux s h n)
        (λ e s' h'. close_three conn user pid _ e s' p (new, h'))
        λ procid s' gains. returns (place (conn ∷ []) (user ∷ pid ∷ []) procid s' new gains)

  -- Opening a namespace only if it was requested.
  open_if-Post :
      (b : Bool) (path : String) (xs ys : List ℤ) (s : State k)
      → Acquires k f (xs ++ pos 0 ∷ ys) s
      → Post
          (λ fd. Acquires k f (xs ++ fd ∷ ys))
          (Has k (held (xs ++ pos 0 ∷ ys) f))
          (open_if k b path s)
  unfolding open_if
  open_if-Post true path xs ys s (new, h) =
      mono (open_ro-Post linux s h path) (λ fd s' gains. place xs ys fd s' new gains) (λ _ e. e)
  open_if-Post false path xs ys s acq = returns acq

  same_one :
      (conn j : ℤ)
      → positive j ≡ true
      → contains j (conn ∷ []) ≡ contains j (conn ∷ pos 0 ∷ pos 0 ∷ pos 0 ∷ [])
  same_one conn j p = ground (arith, ==ℤ_iff j (pos 0))

  same_two :
      (conn user j : ℤ)
      → positive j ≡ true
      → contains j (user ∷ conn ∷ []) ≡ contains j (conn ∷ pos 0 ∷ user ∷ pos 0 ∷ [])
  same_two conn user j p = ground (arith, ==ℤ_iff j (pos 0))

  close_one :
      (conn : ℤ) (what e : String) (s : State k)
      → positive conn ≡ true
      → Acquires k f (conn ∷ pos 0 ∷ pos 0 ∷ pos 0 ∷ []) s
      → Post (Holds k f) (λ _. ⊥) ((close k conn >> refuse k what e) s)
  close_one conn what e s p (new, h) = bind-Post _ _ _ (close-Post linux s h conn) λ _ s₁ h₁.
      refuse-Holds what e s₁ (
        h₁
        ∙ sym (close_positive conn _ p)
        ∙ shut-held_of_same (conn ∷ []) (conn ∷ pos 0 ∷ pos 0 ∷ pos 0 ∷ []) f (same_one conn) new)

  close_two :
      (conn user : ℤ) (what e : String) (s : State k)
      → positive conn ≡ true
      → Acquires k f (conn ∷ pos 0 ∷ user ∷ pos 0 ∷ []) s
      → Post (Holds k f) (λ _. ⊥) ((close_open k user >> (close k conn >> refuse k what e)) s)
  close_two conn user what e s p (new, h) =
      bind-Post _ _ _ (close_open-Post linux f stdin user _ s h) λ _ s₁ h₁.
        bind-Post _ _ _ (close-Post linux s₁ h₁ conn) λ _ s₂ h₂. refuse-Holds what e s₂ (
          h₂
          ∙ sym (close_positive conn _ p)
          ∙ shut-held_of_same (user ∷ conn ∷ []) (conn ∷ pos 0 ∷ user ∷ pos 0 ∷ []) f
              (same_two conn user) new)

  open_child-Holds :
      (spaces n : ℕ) (conn : ℤ) (s : State k)
      → positive conn ≡ true
      → Acquires k f (conn ∷ pos 0 ∷ pos 0 ∷ pos 0 ∷ []) s
      → Post (Holds k f) (λ _. ⊥) (open_child k spaces n conn s)
  unfolding open_child
  open_child-Holds spaces n conn s p acq =
      or_answer-Post _ _ _ _ (open_if-Post _ _ (conn ∷ pos 0 ∷ []) (pos 0 ∷ []) s acq)
        (λ e s₁ h₁. close_one conn _ e s₁ p (acq.0, h₁))
        λ user s₁ acq₁.
          or_answer-Post _ _ _ _ (open_if-Post _ _ (conn ∷ pos 0 ∷ user ∷ []) [] s₁ acq₁)
            (λ e s₂ h₂. close_two conn user _ e s₂ p (acq₁.0, h₂))
            λ pid s₂ acq₂. answer_child-Holds n conn user pid s₂ p acq₂

-- A descriptor that is closed when the call ends, around one that answers.
pub within :
    {k : Kernel} (linux : IsLinux k) (f : ℤ → Bool) (stdin : f (pos 0) ≡ true) (fd : ℤ)
    (m : Act k Response) (s : State k)
    → nonnegative fd ≡ true
    → f fd ≡ false
    → Post (Holds k (with_fd fd f)) (λ _. ⊥) (m s)
    → Post (Holds k f) (λ _. ⊥) (deferring (close k fd) m s)
within linux f stdin fd m s n fresh h =
    deferring-Post _ _ _ h
      (λ resp s' acq.
        close-Acquires linux fd f (positive_of_new f fd stdin n fresh) fresh (fds_of resp) s' acq)
      (λ s' never_so. absurd never_so)

module _ {k : Kernel} (linux : IsLinux k) (f : ℤ → Bool) (stdin : f (pos 0) ≡ true) where
  fetched :
      (spaces n : ℕ) (conn : ℤ) (s : State k)
      → Gains k f conn s
      → Post (Holds k f) (λ _. ⊥) (open_child k spaces n conn s)
  fetched spaces n conn s (m, fresh, h) =
      open_child-Holds linux f stdin spaces n conn s (positive_of_new f conn stdin m fresh) (
        place linux f stdin [] (pos 0 ∷ pos 0 ∷ pos 0 ∷ []) conn s
          (λ e. cc, (λ e. cc, (λ e. cc, (λ e. cc, tt))))
          (m, ap (λ t. t conn) blank ∙ fresh, h ∙ ap (with_fd conn) (sym blank)))
    where
      blank : held (pos 0 ∷ pos 0 ∷ pos 0 ∷ pos 0 ∷ []) f ≡ f
      blank = fun_ext λ j. ground (arith, ==ℤ_iff j (pos 0))

module _ {k : Kernel} (linux : IsLinux k) (f : ℤ → Bool) (stdin : f (pos 0) ≡ true) where
  pub fetch_client-Holds :
      (spaces n : ℕ) (dupond : ℤ) (s : State k)
      → Has k f s
      → Post (Holds k f) (λ _. ⊥) (fetch_client k spaces n dupond s)
  unfolding fetch_client
  fetch_client-Holds spaces n dupond s h =
      or_answer-Post _ _ _ _ (dup-Post linux s h dupond)
        (λ e s₁ h₁. refuse-Holds linux f stdin _ e s₁ h₁)
        λ dupondf s₁ (m, fresh, h₁). within linux f stdin dupondf _ s₁ m fresh (
          or_answer-Post _ _ _ _ (dup-Post linux s₁ h₁ dupondf)
            (λ e s₂ h₂.
              refuse-Holds linux (with_fd dupondf f) (stays_open dupondf f stdin) _ e s₂ h₂)
            λ conn s₂ gains.
              fetched linux (with_fd dupondf f) (stays_open dupondf f stdin) spaces n conn s₂ gains)
