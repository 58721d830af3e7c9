-- ===== src/Execute/Separate/Pickups.antt =====
-- The namespaces that `goSeparate` picks up from the caller.
use spacetest.Base.{
  ℕ, ℤ, Bool, true, false, ◌&&◌, not, ◌==◌, ◌==ℤ◌, ==ℤ_refl, List, [], ◌∷◌, ◌++◌, ◌≡◌, refl, sym,
  ap, subst, ◌∙◌, All, arith, if◌then◌else◌, Bool-cases, inl, inr, contains,
}
use mathlib.Core.List.{append-nil, append_assoc}
use spacetest.Base.Post.{Post, returns, mono, bind-Post}
use spacetest.Kernel.{Kernel, State}
use spacetest.Kernel.Laws.{IsLinux, shown, with_fd}
use spacetest.Kernel.Place.{Place, Stands, opened, different}
use spacetest.Space.Current.{current-Stands_from}
use spacetest.Execute.InAndOut.Table.{
  with_all, AreNew, with_all-append, AreNew-append, contains-append,
}
use spacetest.Execute.Separate.{delete_type, delete_types, pick_up}
use spacetest.Execute.Separate.Spaces.{mentions, has, Picked}
use spacetest.Space.Inodes.{type_of_fd-Stands}

has-delete_type :
    (typ x : ℕ) (types : List ℕ) → has x (delete_type typ types) ≡ (has x types && not (x == typ))
unfolding delete_type
has-delete_type typ x [] = refl
has-delete_type typ x (t ∷ types) = ground (arith, has-delete_type typ x types)

delete_type-All :
    (P : ℕ → Type 0) (typ : ℕ) (types : List ℕ) → All P types → All P (delete_type typ types)
unfolding delete_type
delete_type-All P typ [] _ = tt
delete_type-All P typ (t ∷ types) (h, hs) = elim (Bool-cases (t == typ)) [
  | inl same ↦ rw same (delete_type-All P typ types hs)
  | inr other ↦ rw other (h, delete_type-All P typ types hs)
]

-- What is left of the types: those of which no descriptor is given.
abbrev pub Left : (ℤ → ℕ × ℕ) → List ℤ → List ℕ → List ℕ → Type 0
Left refs fds types out =
    All (λ typ. shown typ ≡ true) out
    × ((typ : ℕ) → has typ out ≡ (has typ types && not (mentions refs fds typ)))

module _ {k : Kernel} (linux : IsLinux k) where
  pub delete_types-Left :
      (fds : List ℤ) (types : List ℕ) (p : Place) (s : State k)
      → All (λ fd. p.table fd ≡ true) fds
      → All (λ typ. shown typ ≡ true) types
      → Stands k p s
      → Post
          (λ out s'. Left p.refs fds types out × Stands k p s')
          (Stands k p)
          (delete_types k fds types s)
  unfolding delete_types
  delete_types-Left [] types p s _ all_shown h = returns ((all_shown, λ typ. ground arith), h)
  delete_types-Left (fd ∷ fds) types p s (is_open, opens) all_shown h =
      bind-Post _ _ s (type_of_fd-Stands linux p fd s is_open h) λ typ s₁ (is, h₁).
        mono
          (delete_types-Left fds (delete_type typ types) p s₁ opens
            (delete_type-All (λ t. shown t ≡ true) typ types all_shown) h₁)
          (λ out s₂ ((out_shown, out_has), h₂). (
            (
              out_shown,
              λ x.
                  out_has x
                  ∙ ap (λ b. b && not (mentions p.refs fds x)) (has-delete_type typ x types)
                  ∙ ground (arith, is),
            ),
            h₂,
          ))
          (λ _ h₂. h₂)

-- Descriptors that were picked up from a place, for some types.
pub record Gathered (p : Place) (types : List ℕ) (fds : List ℤ) (p' : Place) : Type 0 where
  pub thread : p'.thread ≡ p.thread
  pub locks : p'.locks ≡ p.locks
  pub spaces : p'.spaces ≡ p.spaces
  pub others : p'.others ≡ p.others
  pub new : AreNew p.table fds
  pub table : p'.table ≡ with_all fds p.table
  pub kept : (j : ℤ) → p.table j ≡ true → p'.refs j ≡ p.refs j
  pub picked : Picked p'.refs p.spaces types fds
  pub opens : All (λ fd. p'.table fd ≡ true) fds
  pub registered :
      (cs : List ℤ) × (p'.cleanups ≡ cs ++ p.cleanups) × All (λ c. contains c fds ≡ true) cs

pub none-Gathered : (p : Place) → Gathered p [] [] p
none-Gathered p = record {
  thread = refl;
  locks = refl;
  spaces = refl;
  others = refl;
  new = tt;
  table = refl;
  kept = λ j o. refl;
  picked = tt;
  opens = tt;
  registered = ([], refl, tt);
}

pub All-map :
    {A : Type 0} {P Q : A → Type 0} → ((x : A) → P x → Q x) → (xs : List A) → All P xs → All Q xs
All-map f [] _ = tt
All-map f (x ∷ xs) (h, hs) = (f x h, All-map f xs hs)

pub All-append :
    {A : Type 0} (P : A → Type 0) (xs ys : List A) → All P xs → All P ys → All P (xs ++ ys)
All-append P [] ys _ h = h
All-append P (x ∷ xs) ys (h, hs) h' = (h, All-append P xs ys hs h')

Picked-append :
    (refs : ℤ → ℕ × ℕ) (a : ℕ → ℕ) (table : ℤ → Bool) (fd : ℤ) (typ : ℕ) (types : List ℕ)
    (fds : List ℤ)
    → table fd ≡ false
    → All (λ x. table x ≡ true) fds
    → Picked refs a types fds
    → Picked (λ j. if j ==ℤ fd then (typ, a typ) else refs j) a (types ++ typ ∷ []) (fds ++ fd ∷ [])
Picked-append refs a table fd typ [] [] fresh _ _ = (rw (==ℤ_refl fd) refl, tt)
Picked-append refs a table fd typ [] (_ ∷ _) fresh _ h = absurd h
Picked-append refs a table fd typ (_ ∷ _) [] fresh _ h = absurd h
Picked-append refs a table fd typ (t ∷ types) (x ∷ fds) fresh (o, os) (e, es) =
    (rw (different table fd x fresh o) e, Picked-append refs a table fd typ types fds fresh os es)

more-Gathered :
    (p p₀ : Place) (types : List ℕ) (fds : List ℤ) (fd : ℤ) (typ : ℕ)
    → p₀.table fd ≡ false
    → Gathered p types fds p₀
    → Gathered p
        (types ++ typ ∷ [])
        (fds ++ fd ∷ [])
        (record (opened fd typ p₀) { cleanups = fd ∷ p₀.cleanups })
more-Gathered p p₀ types fds fd typ fresh g =
    let (cs, is, within) = g.registered in
    record {
      thread = g.thread;
      locks = g.locks;
      spaces = g.spaces;
      others = g.others;
      new = AreNew-append p.table fds fd g.new (ap (λ t. t fd) (sym g.table) ∙ fresh);
      table = ap (with_fd fd) g.table ∙ with_all-append fds fd p.table;
      kept = λ j o.
          let older : p₀.table j ≡ true = ap (λ t. t j) g.table ∙ ground arith in
          rw (different p₀.table fd j fresh older) (g.kept j o);
      picked =
          rw g.spaces
            (Picked-append p₀.refs p.spaces p₀.table fd typ types fds fresh g.opens g.picked);
      opens =
          All-append _ fds (fd ∷ []) (All-map (λ x o. ground arith) fds g.opens)
            (ground (arith, ==ℤ_refl fd), tt);
      registered = (
        fd ∷ cs,
        ap (λ l. fd ∷ l) is,
        (
          contains-append fds (fd ∷ []) fd ∙ ground (arith, ==ℤ_refl fd),
          All-map (λ c o. contains-append fds (fd ∷ []) c ∙ ground (arith, o)) cs within,
        ),
      );
    }

pub pick_up-Gathered :
    {k : Kernel} (linux : IsLinux k) (p : Place) (types : List ℕ) (done : List ℕ) (fds : List ℤ)
    (p₀ : Place) (s : State k)
    → All (λ typ. shown typ ≡ true) types
    → Gathered p done fds p₀
    → Stands k p₀ s
    → Post
        (λ out s'. (p' : Place) × Gathered p (done ++ types) out p' × Stands k p' s')
        (λ s'.
          (done' : List ℕ) × (fds' : List ℤ) × (p' : Place) × Gathered p done' fds' p'
          × Stands k p' s')
        (pick_up k types fds s)
unfolding pick_up
pick_up-Gathered linux p [] done fds p₀ s _ g h =
    returns (p₀, subst (λ d. Gathered p d fds p₀) (sym (append-nil done)) g, h)
pick_up-Gathered linux p (typ ∷ types) done fds p₀ s (is_shown, all_shown) g h =
    bind-Post _ _ s
      (mono (current-Stands_from linux p₀ s typ is_shown h) (λ _ _ q. q)
        (λ s' h'. (done, fds, p₀, g, h')))
      λ fd s₁ (_, fresh, h₁).
        mono
          (pick_up-Gathered linux p types (done ++ typ ∷ []) (fds ++ fd ∷ []) _ s₁ all_shown
            (more-Gathered p p₀ done fds fd typ fresh g) h₁)
          (λ out s₂ (p', g', h₂).
            (p', subst (λ d. Gathered p d out p') (append_assoc done (typ ∷ []) types) g', h₂))
          (λ _ q. q)
