-- ===== src/Service/Room/Fills.antt =====
-- One request of `Room` for a namespace: what ends up in its field.
use spacetest.Base.{
  ℕ, ℤ, pos, ◌<>◌, str_eq, Bool, true, false, ◌||◌, ◌==◌, ==ℤ_refl, ltb, bit_and, Outcome, ok, err,
  ◌≡◌, ◌≢◌, sym, ap, subst, ◌∙◌, attempt, pure, arith, Bool-cases, inl, inr, if◌then◌else◌,
}
use spacetest.Base.Post.{Post, returns, fails, bind-Post}
use spacetest.Spaces.{name}
use spacetest.Kernel.{Kernel, State}
use spacetest.Kernel.Calls.{go_routine}
use spacetest.Kernel.Laws.{IsLinux, with_fd}
use spacetest.Kernel.Table.{Has}
use spacetest.Kernel.Place.{place_of, everyone}
use spacetest.Api.Rooms.{RoomsResponse}
use spacetest.Service.NewNamespace.{new_namespace}
use spacetest.Service.NewNamespace.Makes.{Keeps, Made, View}
use spacetest.Service.Room.{Progress, record_result, unshare_room}
use spacetest.Service.Room.Messages.{colon_nonempty}

-- What of a world the theorems speak of.
pub record Look : Type 0 where
  pub fds : ℤ → Bool
  pub refs : ℤ → ℕ × ℕ
  pub all : ℕ → ℕ → ℕ

abbrev pub look : (k : Kernel) → k.World → Look
look k w = record { fds = k.fds w; refs = k.refers w; all = k.attached w }

-- Where a namespace comes from, by the namespaces of all threads at the call.
abbrev pub Origin : Type 1
Origin = (ℕ → ℕ → ℕ) → ℕ → Type 0

abbrev pub Unused : ℕ → Origin
Unused typ all ns = (t : ℕ) → all t typ ≢ ns

abbrev pub InUse : ℕ → Origin
InUse typ all ns = (t : ℕ) × (ns ≡ all t typ)

-- What was open stays, and no namespaces of other types change.
pub record Later (k : Kernel) (typ : ℕ) (l : Look) (w' : k.World) : Type 0 where
  pub kept : (j : ℤ) → l.fds j ≡ true → (k.fds w' j ≡ true) × (k.refers w' j ≡ l.refs j)
  pub apart : (t x : ℕ) → x ≢ typ → k.attached w' t x ≡ l.all t x

-- An open descriptor of a namespace.
abbrev pub Holding : (k : Kernel) → ℕ → Origin → (ℕ → ℕ → ℕ) → ℤ → k.World → Type 0
Holding k typ from all fd w =
    (k.fds w fd ≡ true) × (ns : ℕ) × from all ns × (k.refers w fd ≡ (typ, ns))

abbrev pub Settled : (k : Kernel) → ℕ → Origin → Look → Outcome ℤ → k.World → Type 0
Settled k typ from l (ok fd) w' = Later k typ l w' × Holding k typ from l.all fd w'
Settled k typ from l (err e) w' = Later k typ l w'

Keeps-Later :
    (k : Kernel) (typ : ℕ) (s s' : State k)
    → ((j : ℤ) → k.fds s.world j ≡ true → k.fds s'.world j ≡ true)
    → Keeps k typ s s'
    → Later k typ (look k s.world) s'.world
Keeps-Later k typ s s' more keeps = record {
  kept = λ j o. (more j o, keeps.refers j o);
  apart = keeps.apart;
}

-- the state in which a go routine starts
abbrev started : (k : Kernel) → State k → State k
started k s =
    let (t, w) = k.spawn s.thread (ltb 0 s.locks) s.world in
    record s { world = w; thread = t; locks = 0 }

with_keeps : (fd : ℤ) (f : ℤ → Bool) (j : ℤ) → f j ≡ true → with_fd fd f j ≡ true
with_keeps fd f j o = ground arith

module _ {k : Kernel} (typ : ℕ) (Gets : View) (from : Origin)
    (origin : (s : State k) (ns : ℕ)
      → Gets (everyone (place_of k s)) (k.attached s.world s.thread) ns
      → from (k.attached s.world) ns) where
  settle :
      (s : State k) (r : Outcome ℤ × State k)
      → Post (Made k typ Gets s) (λ s'. Has k (k.fds s.world) s' × Keeps k typ s s') r
      → Settled k typ from (look k s.world) r.0 r.1.world
  settle s (ok fd, s') (returns made) =
      let (ns, gets, is) = made.gets in
      (
        Keeps-Later k typ s s' (λ j o. ap (λ f. f j) made.fds ∙ with_keeps fd (k.fds s.world) j o)
            made.keeps,
        (ap (λ f. f fd) made.fds ∙ rw (==ℤ_refl fd), ns, origin s ns gets, is),
      )
  settle s (err e, s') (fails (same, keeps)) =
      Keeps-Later k typ s s' (λ j o. ap (λ f. f j) same ∙ o) keeps

  pub settles_of :
      IsLinux k
      → ((s : State k)
          → Post
              (Made k typ Gets s)
              (λ s'. Has k (k.fds s.world) s' × Keeps k typ s s')
              (new_namespace k typ s))
      → (s : State k)
      → Post
          (λ o s'. Settled k typ from (look k s.world) o s'.world)
          (λ _. ⊥)
          (go_routine k (attempt (new_namespace k typ)) s)
  unfolding go_routine attempt
  settles_of linux law s = returns (
      subst
        (λ l.
          Settled k typ from l (new_namespace k typ (started k s)).0
            (new_namespace k typ (started k s)).1.world)
        spawned (settle (started k s) _ (law (started k s))))
    where
      spawned : look k (k.spawn s.thread (ltb 0 s.locks) s.world).1 ≡ look k s.world
      spawned = λ i. record {
        fds = linux.spawn_fds s.thread (ltb 0 s.locks) s.world i;
        refs = linux.spawn_refers s.thread (ltb 0 s.locks) s.world i;
        all = linux.spawn_attached s.thread (ltb 0 s.locks) s.world i;
      }

-- A field of the response, with what the kernel does for its type.
pub record Field (k : Kernel) : Type 1 where
  pub typ : ℕ
  pub from : Origin
  pub from_same : (a b : ℕ → ℕ → ℕ) (ns : ℕ) → ((t : ℕ) → a t typ ≡ b t typ) → from a ns → from b ns
  pub settles :
      (s : State k)
      → Post
          (λ o s'. Settled k typ from (look k s.world) o s'.world)
          (λ _. ⊥)
          (go_routine k (attempt (new_namespace k typ)) s)
  pub put : ℤ → RoomsResponse → RoomsResponse
  pub get : RoomsResponse → ℤ
  pub get-put : (fd : ℤ) (r : RoomsResponse) → get (put fd r) ≡ fd

-- What the field holds: an open descriptor if it was requested, else 0.
abbrev pub Filled : (k : Kernel) → (ℕ → ℕ → ℕ) → ℕ → Origin → ℕ → ℤ → k.World → Type 0
Filled k all typ from spaces fd w =
    ((bit_and spaces typ == 0) ≡ false → Holding k typ from all fd w)
    × ((bit_and spaces typ == 0) ≡ true → fd ≡ pos 0)

-- The namespaces of the types that were not made yet are as they were.
abbrev pub Stay : (k : Kernel) → (ℕ → ℕ → ℕ) → (ℕ → Bool) → k.World → Type 0
Stay k all made w = (t x : ℕ) → made x ≡ false → k.attached w t x ≡ all t x

pub Filled-Later :
    (k : Kernel) (all : ℕ → ℕ → ℕ) (typ : ℕ) (from : Origin) (spaces : ℕ) (fd : ℤ) (made : ℕ)
    (w w' : k.World)
    → Later k made (look k w) w'
    → Filled k all typ from spaces fd w
    → Filled k all typ from spaces fd w'
Filled-Later k all typ from spaces fd made w w' later (holds, empty) = (
  (λ b.
      let (o, ns, origin, is) = holds b in
      let (o', same) = later.kept fd o in (o', ns, origin, same ∙ is)),
  empty,
)

module _ {k : Kernel} (spaces : ℕ) (all : ℕ → ℕ → ℕ) (field : Field k) (made : ℕ → Bool)
    (E : RoomsResponse → k.World → Type 0) (fresh : made field.typ ≡ false)
    (put_E : (fd : ℤ) (r : RoomsResponse) (w : k.World) → E r w → E (field.put fd r) w)
    (later_E : (r : RoomsResponse) (typ : ℕ) (w w' : k.World)
      → Later k typ (look k w) w'
      → E r w
      → E r w') where
  abbrev pub Before : Progress → State k → Type 0
  Before (r, msg) s =
      Stay k all made s.world × (str_eq msg "" ≡ true → E r s.world × (field.get r ≡ pos 0))

  abbrev pub After : Progress → State k → Type 0
  After (r, msg) s =
      Stay k all (λ x. x == field.typ || made x) s.world
      × (str_eq msg "" ≡ true
          → E r s.world × Filled k all field.typ field.from spaces (field.get r) s.world)

  Later-Stay :
      (w w' : k.World)
      → Later k field.typ (look k w) w'
      → Stay k all made w
      → Stay k all (λ x. x == field.typ || made x) w'
  Later-Stay w w' later stay t x n = later.apart t x (ground arith) ∙ stay t x (ground arith)

  pub unshare_room-Filled :
      (p : Progress) (s : State k)
      → Before p s
      → Post After (λ _. ⊥) (unshare_room k spaces field.typ field.put p s)
  unfolding unshare_room record_result
  unshare_room-Filled (r, msg) s (stay, known) = elim (Bool-cases (bit_and spaces field.typ == 0)) [
    | inl skip ↦ rw skip (
        returns
          ((λ t x n. stay t x (ground arith)), λ m. ((known m).0, ((λ b. cc), (λ _. (known m).1)))))
    | inr go ↦ rw go (bind-Post _ _ _ (field.settles s) (λ o s'. finish go o s'))
  ]
    where
      finish :
          (bit_and spaces field.typ == 0) ≡ false
          → (o : Outcome ℤ) (s' : State k)
          → Settled k field.typ field.from (look k s.world) o s'.world
          → Post After (λ _. ⊥) (pure (record_result field.typ field.put (r, msg) o) s')
      finish go (ok fd) s' (later, (o, ns, from, is)) = returns (
        Later-Stay s.world s'.world later stay,
        λ m. (
          put_E fd r s'.world (later_E r field.typ s.world s'.world later (known m).0),
          (
            (λ _.
                subst (λ x. Holding k field.typ field.from all x s'.world)
                  (sym (field.get-put fd r))
                  (o, ns, field.from_same _ _ ns (λ t. stay t field.typ fresh) from, is)),
            λ b. cc,
          ),
        ),
      )
      finish go (err e) s' later = returns (
        Later-Stay s.world s'.world later stay,
        λ m.
            absurd (
              cc
                (m, colon_nonempty (if str_eq msg "" then msg else msg <> ",") (name field.typ) e)),
      )
