-- ===== src/Spacer/Client/Binary/Finishes.antt =====
-- Every caller of `spacerServicePath` can finish.
use spacetest.Base.{
  ℕ, String, Bool, true, false, List, [], Outcome, ok, ◌≡◌, refl, sym, ap, subst, ◌∙◌, str_eq, ◌==◌,
  arith, Bool-cases, inl, inr, ◌⊎◌,
}
use spacetest.Spacer.Client.Binary.{
  Shared, Caller, waiting, inside, building, leaving, finished, Moved, Build, service_package,
  build_env, build_args, built, advance, Program, init, after, Run, start, later,
}
use spacetest.Spacer.Client.Binary.Once.{
  HonestBuild, Holds, Outside, Inv, free, held, Run-Inv, updated,
}

built-leaving :
    {W : Type 0} (r : (String × Bool) × W) (s : Shared W)
    → (o : Outcome String) × ((built r s).0 ≡ leaving o)
unfolding built
built-leaving ((path, true), w) s = (_, refl)
built-leaving ((path, false), w) s = (_, refl)

module _ {W : Type 0} (build : Build W) (p : Program W) where
  -- A run from here in which the caller finishes and the mutex is free, and after which the others
  -- stand where they did.
  abbrev Leaves : (ℕ → Caller) → ℕ → Type 0
  Leaves callers h =
      (paths : List String) × (q : Program W) × (r : Outcome String) × Run build p paths q
      × (q.callers h ≡ finished r)
      × (q.shared.locked ≡ false)
      × ((j : ℕ) → (j == h) ≡ false → q.callers j ≡ callers j)

  module _ (callers : ℕ → Caller) (h : ℕ) where
    abbrev Same : Program W → Type 0
    Same q = (j : ℕ) → (j == h) ≡ false → q.callers j ≡ callers j

    moved-Same : (q : Program W) (m : Moved W) → Same q → Same (after q h m)
    moved-Same q m same j n = rw n (same j n)

    leaving-Leaves :
        (paths : List String) (q : Program W) (r : Outcome String)
        → Run build p paths q
        → q.callers h ≡ leaving r
        → Same q
        → Leaves callers h
    unfolding advance
    leaving-Leaves paths q r run e same =
        let m : Moved W = (finished r, [], record (q.shared) { locked = false }) in
        (
          _,
          after q h m,
          r,
          later h m run (rw e refl),
          updated q.callers h (finished r),
          refl,
          moved-Same q m same,
        )

    building-Leaves :
        (paths : List String) (q : Program W)
        → Run build p paths q
        → q.callers h ≡ building
        → Same q
        → Leaves callers h
    unfolding advance
    building-Leaves paths q run e same =
        let m : Moved W =
          built (build service_package build_env build_args q.shared.world) q.shared in
        let (o, is) =
          built-leaving (build service_package build_env build_args q.shared.world) q.shared in
        leaving-Leaves _ (after q h m) o (later h m run (rw e refl)) (updated q.callers h m.0 ∙ is)
          (moved-Same q m same)

    inside-Leaves :
        (paths : List String) (q : Program W)
        → Run build p paths q
        → q.callers h ≡ inside
        → Same q
        → Leaves callers h
    unfolding advance
    inside-Leaves paths q run e same = elim (Bool-cases (str_eq q.shared.binary "")) [
      | inl unset ↦
          let m : Moved W = (building, [], q.shared) in
          building-Leaves _ (after q h m) (later h m run (rw (e, unset) refl))
            (updated q.callers h building) (moved-Same q m same)
      | inr set ↦
          let m : Moved W = (leaving (ok q.shared.binary), [], q.shared) in
          leaving-Leaves _ (after q h m) (ok q.shared.binary) (later h m run (rw (e, set) refl))
            (updated q.callers h m.0) (moved-Same q m same)
    ]

    waiting-Leaves :
        (paths : List String) (q : Program W)
        → Run build p paths q
        → q.callers h ≡ waiting
        → q.shared.locked ≡ false
        → Same q
        → Leaves callers h
    unfolding advance
    waiting-Leaves paths q run e unlocked same =
        let m : Moved W = (inside, [], record (q.shared) { locked = true }) in
        inside-Leaves _ (after q h m) (later h m run (rw (e, unlocked) refl))
          (updated q.callers h inside) (moved-Same q m same)

    Holds-Leaves :
        (done : List String) (c : Caller)
        → Holds done c
        → p.callers h ≡ c
        → Same p
        → Leaves callers h
    Holds-Leaves done inside _ e same = inside-Leaves [] p start e same
    Holds-Leaves done building _ e same = building-Leaves [] p start e same
    Holds-Leaves done (leaving r) _ e same = leaving-Leaves [] p r start e same
    Holds-Leaves done waiting holds e same = absurd holds
    Holds-Leaves done (finished r) holds e same = absurd holds

Outside-cases :
    (paths : List String) (c : Caller)
    → Outside paths c
    → (c ≡ waiting) ⊎ ((r : Outcome String) × (c ≡ finished r))
Outside-cases paths waiting _ = inl refl
Outside-cases paths (finished r) _ = inr (r, refl)
Outside-cases paths inside h = absurd h
Outside-cases paths building h = absurd h
Outside-cases paths (leaving r) h = absurd h

module _ {W : Type 0} (build : Build W) where
  -- a run in which a caller finishes
  abbrev pub CanFinish : Program W → ℕ → Type 0
  CanFinish p i =
      (paths : List String) × (q : Program W) × (r : Outcome String) × Run build p paths q
      × (q.callers i ≡ finished r)

  unlocked-CanFinish :
      (p : Program W) (i : ℕ) (done paths : List String) (q : Program W)
      → Run build p paths q
      → q.shared.locked ≡ false
      → Outside done (q.callers i)
      → CanFinish p i
  unlocked-CanFinish p i done paths q run unlocked outside =
      elim (Outside-cases done (q.callers i) outside) [
        | inl e ↦
            let (paths', q', r, run', is, _, _) =
              waiting-Leaves build p q.callers i paths q run e unlocked (λ j n. refl) in
            (paths', q', r, run', is)
        | inr (r, e) ↦ (paths, q, r, run, e)
      ]

  Inv-CanFinish : (done : List String) (p : Program W) (i : ℕ) → Inv done p → CanFinish p i
  Inv-CanFinish done p i (free unlocked outside known) =
      unlocked-CanFinish p i done [] p start unlocked (outside i)
  Inv-CanFinish done p i (held h locked holds others known) =
      let (paths, q, r, run, is, unlocked, same) =
        Holds-Leaves build p p.callers h done (p.callers h) holds refl (λ j n. refl) in
      elim (Bool-cases (i == h)) [
        | inl own ↦ (paths, q, r, run, ap q.callers (ground arith) ∙ is)
        | inr other ↦
            unlocked-CanFinish p i done paths q run unlocked
              (subst (Outside done) (sym (same i other)) (others i other))
      ]

  -- Let building give a path if and only if it gives no error. From wherever any number of callers of
  -- `spacerServicePath` got to in any interleaving, also after building failed, there is a run in
  -- which a given one of them finishes: the mutex is never kept for good.
  pub waiting-finished :
      (w : W) (paths : List String) (p : Program W) (i : ℕ)
      → HonestBuild build
      → Run build (init w) paths p
      → CanFinish p i
  waiting-finished w paths p i honest run =
      Inv-CanFinish paths p i (Run-Inv build honest w paths p run)
