-- ===== src/Kernel/Place.antt =====
-- Where a go routine's code stands.
pub mod Rules
use spacetest.Base.{
  ◌⊎◌, ◌==◌, ℕ, suc, ℤ, List, Bool, true, false, ◌≡◌, ◌≢◌, refl, ap, ◌∙◌, fun_ext, ◌==ℤ◌, ==ℤ_iff,
  if◌then◌else◌, arith, Bool-cases, inl, inr,
}
use spacetest.Kernel.{Kernel, State}
use spacetest.Kernel.Laws.{with_fd, without_fd, put}

-- The thread, how often it is locked, the open descriptors with what they reference, and the
-- namespaces of the thread, what is to be closed when the test ends, and the namespaces of the
-- other threads.
pub record Place : Type 0 where
  pub thread : ℕ
  pub locks : ℕ
  pub table : ℤ → Bool
  pub refs : ℤ → ℕ × ℕ
  pub spaces : ℕ → ℕ
  pub cleanups : List ℤ
  pub others : ℕ → ℕ → ℕ

pub record Stands (k : Kernel) (p : Place) (s : State k) : Type 0 where
  pub thread : s.thread ≡ p.thread
  pub locks : s.locks ≡ p.locks
  pub fds : k.fds s.world ≡ p.table
  pub refers : (j : ℤ) → p.table j ≡ true → k.refers s.world j ≡ p.refs j
  pub attached : k.attached s.world p.thread ≡ p.spaces
  pub cleanups : s.cleanups ≡ p.cleanups
  pub others : (t : ℕ) → t ≢ p.thread → k.attached s.world t ≡ p.others t

-- The place of a state.
abbrev pub place_of : (k : Kernel) → State k → Place
place_of k s = record {
  thread = s.thread;
  locks = s.locks;
  table = k.fds s.world;
  refs = k.refers s.world;
  spaces = k.attached s.world s.thread;
  cleanups = s.cleanups;
  others = k.attached s.world;
}

pub place_of-Stands : (k : Kernel) (s : State k) → Stands k (place_of k s) s
place_of-Stands k s = record {
  thread = refl;
  locks = refl;
  fds = refl;
  refers = λ j h. refl;
  attached = refl;
  cleanups = refl;
  others = λ t n. refl;
}

-- with a descriptor opened that references something
abbrev pub opened_as : ℤ → ℕ × ℕ → Place → Place
opened_as fd r p = record p {
  table = with_fd fd p.table;
  refs = λ j. if j ==ℤ fd then r else p.refs j;
}

-- with a descriptor opened that references the thread's namespace of a type
abbrev pub opened : ℤ → ℕ → Place → Place
opened fd typ p = opened_as fd (typ, p.spaces typ) p

abbrev pub moved : ℕ → ℕ → Place → Place
moved typ ns p = record p { spaces = put typ ns p.spaces }

abbrev pub shut_fd : ℤ → Place → Place
shut_fd fd p = record p { table = without_fd fd p.table }

-- The thread is where it started, or it is locked and will be thrown away.
abbrev pub BackOrLocked : (k : Kernel) → Place → State k → Type 0
BackOrLocked k p s =
    (s.thread ≡ p.thread) × ((k.attached s.world p.thread ≡ p.spaces) ⊎ (s.locks ≡ suc p.locks))

pub different : (f : ℤ → Bool) (fd j : ℤ) → f fd ≡ false → f j ≡ true → (j ==ℤ fd) ≡ false
different f fd j e h = ground (arith, ==ℤ_iff j fd)

pub put_again : (typ : ℕ) (a : ℕ → ℕ) (ns : ℕ) → put typ (a typ) (put typ ns a) ≡ a
put_again typ a ns = fun_ext λ x. ground arith

-- The namespaces of every thread.
abbrev pub everyone : Place → ℕ → ℕ → ℕ
everyone p t = if t == p.thread then p.spaces else p.others t

pub Stands-everyone :
    {k : Kernel} (p : Place) (s : State k)
    → Stands k p s
    → (t : ℕ) → k.attached s.world t ≡ everyone p t
Stands-everyone {k} p s h t = elim (Bool-cases (t == p.thread)) [
  | inl e ↦ rw e (ap (k.attached s.world) (ground (arith)) ∙ h.attached)
  | inr n ↦ rw n (h.others t (ground arith))
]

-- A place, but for the thread's own namespace of one type.
abbrev pub Loose : (k : Kernel) → ℕ → Place → State k → Type 0
Loose k typ p s =
    (a : ℕ → ℕ) × ((x : ℕ) → x ≢ typ → a x ≡ p.spaces x) × Stands k (record p { spaces = a }) s

pub Stands-Loose : {k : Kernel} (typ : ℕ) (p : Place) (s : State k) → Stands k p s → Loose k typ p s
Stands-Loose typ p s h = (p.spaces, λ x n. refl, h)

pub moved-Loose :
    {k : Kernel} (typ ns : ℕ) (p : Place) (s : State k)
    → Stands k (moved typ ns p) s
    → Loose k typ p s
moved-Loose typ ns p s h = (put typ ns p.spaces, λ x n. ground arith, h)

-- A place, but for the thread's own namespaces.
abbrev pub Roams : (k : Kernel) → Place → State k → Type 0
Roams k p s = (a : ℕ → ℕ) × Stands k (record p { spaces = a }) s

pub Stands-Roams : {k : Kernel} (p : Place) (s : State k) → Stands k p s → Roams k p s
Stands-Roams p s h = (p.spaces, h)
