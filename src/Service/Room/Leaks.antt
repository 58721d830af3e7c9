-- ===== src/Service/Room/Leaks.antt =====
-- What `Room` does to the table of open descriptors.
use spacetest.Base.{
  fun_ext, ==ℤ_iff, str_eq, ℕ, ℤ, pos, String, Bool, true, false, List, [], ◌∷◌, ◌++◌, Outcome, ok,
  err, ◌≡◌, sym, subst, ◌∙◌, refl, ap, positive, nonnegative, Bool-cases, inl, inr, bit_and, ◌==◌,
  attempt, pure, when, arith,
}
use spacetest.Base.Post.{Post, returns, fails, mono, bind-Post, attempt-Post}
use spacetest.Kernel.{Kernel, State}
use spacetest.Kernel.Laws.{IsLinux, with_fd}
use spacetest.Kernel.Table.{Has, Gains, close-Post, go_routine-Post}
use spacetest.Api.{Response, error_response, subspace_response, rooms_response}
use spacetest.Api.Rooms.{RoomsResponse, no_rooms}
use spacetest.Service.NewNamespace.{new_namespace, new_namespace-Gains}
use spacetest.Service.Room.{
  Progress, record_result, unshare_room, unshare_rooms, close_open, close_rooms, answer, room,
  complement, valid_spaces,
}
use spacetest.Kernel.Held.{held, held-set, shut, shut-held, AreNew, positive_of_new, AreNew-set}

abbrev pub fields : RoomsResponse → List ℤ
fields r = r.cgroup ∷ r.ipc ∷ r.mnt ∷ r.net ∷ r.time ∷ r.uts ∷ []

module _ (k : Kernel) (f : ℤ → Bool) where
  -- The response's descriptors are new, and are all that was opened.
  abbrev pub Holds : RoomsResponse → State k → Type 0
  Holds r s = AreNew f (fields r) × Has k (held (fields r) f) s

  -- The result of one go routine.
  abbrev Gained : Outcome ℤ → k.World → Type 0
  Gained (ok fd) w = (nonnegative fd ≡ true) × (f fd ≡ false) × (k.fds w ≡ with_fd fd f)
  Gained (err e) w = k.fds w ≡ f

  Gained-of : (o : Outcome ℤ) (t : State k) → Post (Gains k f) (Has k f) (o, t) → Gained o t.world
  Gained-of (ok fd) t (returns q) = q
  Gained-of (err e) t (fails q) = q

attempt_new :
    {k : Kernel} (linux : IsLinux k) (f : ℤ → Bool) (typ : ℕ) (s : State k)
    → Has k f s
    → Post (λ o t. Gained k f o t.world) (λ _. ⊥) (attempt (new_namespace k typ) s)
attempt_new {k} linux f typ s h =
    mono (attempt-Post _ s (new_namespace-Gains linux s h typ)) (Gained-of k f) (λ _ e. e)

module _ {k : Kernel} (linux : IsLinux k) (f : ℤ → Bool) (stdin : f (pos 0) ≡ true) where
  module _ (put : ℤ → RoomsResponse → RoomsResponse) (r : RoomsResponse) (xs ys : List ℤ)
      (before : fields r ≡ xs ++ pos 0 ∷ ys)
      (after : (fd : ℤ) → fields (put fd r) ≡ xs ++ fd ∷ ys) where
    put-Holds :
        (fd : ℤ) (s : State k)
        → Holds k f r s
        → (w : k.World) → Gained k (held (fields r) f) (ok fd) w
        → AreNew f (fields (put fd r)) × (k.fds w ≡ held (fields (put fd r)) f)
    put-Holds fd s (new, _) w (n, fresh, e) =
        let fresh' : f fd ≡ false = ground arith in
        let p : positive fd ≡ true = positive_of_new f fd stdin n fresh' in
        subst (λ l. AreNew f l × (k.fds w ≡ held l f)) (sym (after fd))
          (
            AreNew-set f xs ys fd fresh' (subst (AreNew f) before new),
            e ∙ ap (λ l. with_fd fd (held l f)) before ∙ sym (held-set xs ys fd f p),
          )

    unshare_room-Post :
        (spaces typ : ℕ) (Z : RoomsResponse → Type 0) (msg : String) (s : State k)
        → Z r
        → ((fd : ℤ) → Z (put fd r))
        → Holds k f r s
        → Post
            (λ p s'. Z p.0 × Holds k f p.0 s')
            (λ _. ⊥)
            (unshare_room k spaces typ put (r, msg) s)
    unfolding unshare_room record_result
    unshare_room-Post spaces typ Z msg s z zs h = elim (Bool-cases (bit_and spaces typ == 0)) [
      | inl skip ↦ rw skip (returns (z, h))
      | inr go ↦ rw go (
          bind-Post _ _ _
            (go_routine-Post linux (Gained k (held (fields r) f)) (λ _. ⊥) _ s h.1
              (attempt_new linux (held (fields r) f) typ))
            (λ o s'. settle o s'))
    ]
      where
        settle :
            (o : Outcome ℤ) (s' : State k)
            → Gained k (held (fields r) f) o s'.world
            → Post
                (λ p s'. Z p.0 × Holds k f p.0 s')
                (λ _. ⊥)
                (pure (record_result typ put (r, msg) o) s')
        settle (ok fd) s' g = returns (zs fd, put-Holds fd s h s'.world g)
        settle (err e) s' g = returns (z, (h.0, g))

-- The fields from the n-th on hold no descriptor yet.
abbrev Blank₁ : RoomsResponse → Type 0
Blank₁ r = (r.ipc ≡ pos 0) × (r.mnt ≡ pos 0) × (r.net ≡ pos 0) × (r.time ≡ pos 0) × (r.uts ≡ pos 0)

abbrev Blank₂ : RoomsResponse → Type 0
Blank₂ r = (r.mnt ≡ pos 0) × (r.net ≡ pos 0) × (r.time ≡ pos 0) × (r.uts ≡ pos 0)

abbrev Blank₃ : RoomsResponse → Type 0
Blank₃ r = (r.net ≡ pos 0) × (r.time ≡ pos 0) × (r.uts ≡ pos 0)

abbrev Blank₄ : RoomsResponse → Type 0
Blank₄ r = (r.time ≡ pos 0) × (r.uts ≡ pos 0)

abbrev Blank₅ : RoomsResponse → Type 0
Blank₅ r = r.uts ≡ pos 0

module _ {k : Kernel} (linux : IsLinux k) (f : ℤ → Bool) (stdin : f (pos 0) ≡ true) where
  no_rooms-Holds : (s : State k) → Has k f s → Holds k f no_rooms s
  no_rooms-Holds s h = (
    (λ e. cc, (λ e. cc, (λ e. cc, (λ e. cc, (λ e. cc, (λ e. cc, tt)))))),
    h ∙ fun_ext λ j. ground (arith, ==ℤ_iff j (pos 0)),
  )

  unshare_rooms-Post :
      (spaces : ℕ) (s : State k)
      → Has k f s
      → Post (λ p s'. Holds k f p.0 s') (λ _. ⊥) (unshare_rooms k spaces s)
  unfolding unshare_rooms
  unshare_rooms-Post spaces s h =
      bind-Post _ _ _
        (unshare_room-Post linux f stdin _ no_rooms [] _ refl (λ _. refl) spaces _ Blank₁ "" s
          (refl, refl, refl, refl, refl) (λ _. (refl, refl, refl, refl, refl)) (no_rooms-Holds s h))
        λ (r₁, m₁) s₁ (z₁, h₁).
          bind-Post _ _ _
            (unshare_room-Post linux f stdin _ r₁ (r₁.cgroup ∷ []) _
              (ap (λ x. r₁.cgroup ∷ x ∷ r₁.mnt ∷ r₁.net ∷ r₁.time ∷ r₁.uts ∷ []) z₁.0) (λ _. refl)
              spaces _ Blank₂ m₁ s₁ (z₁.1, z₁.2, z₁.3, z₁.4) (λ _. (z₁.1, z₁.2, z₁.3, z₁.4)) h₁)
            λ (r₂, m₂) s₂ (z₂, h₂).
              bind-Post _ _ _
                (unshare_room-Post linux f stdin _ r₂ (r₂.cgroup ∷ r₂.ipc ∷ []) _
                  (ap (λ x. r₂.cgroup ∷ r₂.ipc ∷ x ∷ r₂.net ∷ r₂.time ∷ r₂.uts ∷ []) z₂.0)
                  (λ _. refl) spaces _ Blank₃ m₂ s₂ (z₂.1, z₂.2, z₂.3) (λ _. (z₂.1, z₂.2, z₂.3)) h₂)
                λ (r₃, m₃) s₃ (z₃, h₃).
                  bind-Post _ _ _
                    (unshare_room-Post linux f stdin _ r₃ (r₃.cgroup ∷ r₃.ipc ∷ r₃.mnt ∷ []) _
                      (ap (λ x. r₃.cgroup ∷ r₃.ipc ∷ r₃.mnt ∷ x ∷ r₃.time ∷ r₃.uts ∷ []) z₃.0)
                      (λ _. refl) spaces _ Blank₄ m₃ s₃ (z₃.1, z₃.2) (λ _. (z₃.1, z₃.2)) h₃)
                    λ (r₄, m₄) s₄ (z₄, h₄).
                      bind-Post _ _ _
                        (unshare_room-Post linux f stdin _ r₄
                          (r₄.cgroup ∷ r₄.ipc ∷ r₄.mnt ∷ r₄.net ∷ []) _
                          (ap (λ x. r₄.cgroup ∷ r₄.ipc ∷ r₄.mnt ∷ r₄.net ∷ x ∷ r₄.uts ∷ []) z₄.0)
                          (λ _. refl) spaces _ Blank₅ m₄ s₄ z₄.1 (λ _. z₄.1) h₄)
                        λ (r₅, m₅) s₅ (z₅, h₅).
                          mono
                            (unshare_room-Post linux f stdin _ r₅
                              (r₅.cgroup ∷ r₅.ipc ∷ r₅.mnt ∷ r₅.net ∷ r₅.time ∷ []) []
                              (ap (λ x. r₅.cgroup ∷ r₅.ipc ∷ r₅.mnt ∷ r₅.net ∷ r₅.time ∷ x ∷ []) z₅)
                              (λ _. refl) spaces _ (λ _. Unit {0}) m₅ s₅ tt (λ _. tt) h₅)
                            (λ p s' q. q.1) (λ _ e. e)

  pub close_open-Post :
      (fd : ℤ) (g : ℤ → Bool) {E : State k → Type 0} (s : State k)
      → Has k g s
      → Post (λ _. Has k (shut (fd ∷ []) g)) E (close_open k fd s)
  unfolding close_open when
  close_open-Post fd g s h = elim (Bool-cases (positive fd)) [
    | inl p ↦ rw p (close-Post linux s h fd)
    | inr n ↦ rw n (returns h)
  ]

  pub close_rooms-Post :
      (r : RoomsResponse) (g : ℤ → Bool) {E : State k → Type 0} (s : State k)
      → Has k g s
      → Post (λ _. Has k (shut (fields r) g)) E (close_rooms k r s)
  unfolding close_rooms
  close_rooms-Post r g s h = bind-Post _ _ _ (close_open-Post r.cgroup _ s h) λ _ s₁ h₁.
      bind-Post _ _ _ (close_open-Post r.ipc _ s₁ h₁) λ _ s₂ h₂.
        bind-Post _ _ _ (close_open-Post r.mnt _ s₂ h₂) λ _ s₃ h₃.
          bind-Post _ _ _ (close_open-Post r.net _ s₃ h₃) λ _ s₄ h₄.
            bind-Post _ _ _ (close_open-Post r.time _ s₄ h₄)
              λ _ s₅ h₅. close_open-Post r.uts _ s₅ h₅

-- What a response may hold: nothing of what the process has open, and nothing else was opened.
abbrev pub Answers : (k : Kernel) → (ℤ → Bool) → Response → State k → Type 0
Answers k f (error_response reason) s = Has k f s
Answers k f (rooms_response r) s = Holds k f r s
Answers k f (subspace_response r) s = ⊥

module _ {k : Kernel} (linux : IsLinux k) (f : ℤ → Bool) (stdin : f (pos 0) ≡ true) where
  answer-Post :
      (p : Progress) (s : State k) → Holds k f p.0 s → Post (Answers k f) (λ _. ⊥) (answer k p s)
  unfolding answer
  answer-Post (r, msg) s (new, h) = elim (Bool-cases (str_eq msg "")) [
    | inl none_failed ↦ rw none_failed (returns (new, h))
    | inr failed ↦ rw failed (
        bind-Post _ _ _ (close_rooms-Post linux f stdin r _ s h)
          λ _ s' h'. returns (h' ∙ shut-held (fields r) f new))
  ]

  -- On a kernel that keeps its documented rules, with descriptor 0 (standard input) open, `Room`
  -- always returns a response, whatever is requested and whichever call fails. With an error
  -- response the open descriptors are those from before the call: what was created is closed. With
  -- a rooms response each positive descriptor in it was not open before, and the open descriptors
  -- are those from before and these.
  pub room-Answers :
      (spaces : ℕ) (s : State k) → Has k f s → Post (Answers k f) (λ _. ⊥) (room k spaces s)
  unfolding room
  room-Answers spaces s h = elim (Bool-cases (bit_and spaces (complement valid_spaces) == 0)) [
    | inr outside ↦ rw outside (returns h)
    | inl inside ↦ rw inside (elim (Bool-cases (bit_and spaces valid_spaces == 0)) [
      | inl nothing ↦ rw nothing (returns h)
      | inr some_space ↦
          rw some_space
            (bind-Post _ _ _ (unshare_rooms-Post linux f stdin spaces s h) (answer-Post))
    ])
  ]
