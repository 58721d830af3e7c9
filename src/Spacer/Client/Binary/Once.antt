-- ===== src/Spacer/Client/Binary/Once.antt =====
-- The binary is built once.
use spacetest.Base.{
  ℕ, String, Bool, true, false, Option, none, some, List, [], ◌∷◌, ◌++◌, Outcome, ok, err, ◌≡◌,
  refl, sym, ap, subst, ◌∙◌, str_eq, ◌==◌, if◌then◌else◌, arith, Bool-cases, inl, inr,
}
use mathlib.Core.List.{append-nil}
use spacetest.Spacer.Client.Binary.{
  Shared, Caller, waiting, inside, building, leaving, finished, Moved, Build, service_package,
  build_env, build_args, built, advance, update, Program, init, after, Run, start, later,
}

-- The documented behaviour of building: an error comes without a path, and a binary with one.
abbrev pub HonestBuild : {W : Type 0} → Build W → Type 0
HonestBuild {W} build =
    (p : String) (env args : List String) (w : W)
    → str_eq (build p env args w).0.0 "" ≡ (build p env args w).0.1

-- The variable holds the one path that was built, if there is one.
pub data Known : List String → String → Type 0 where
  nothing : {b : String} → str_eq b "" ≡ true → Known [] b
  one : {b : String} → str_eq b "" ≡ false → Known (b ∷ []) b

-- A result is the path that was built.
abbrev pub Gave : List String → Outcome String → Type 0
Gave paths (ok p) = paths ≡ p ∷ []
Gave paths (err e) = Unit

-- What is so of a caller without the mutex, and with it.
abbrev pub Outside : List String → Caller → Type 0
Outside paths waiting = Unit
Outside paths (finished r) = Gave paths r
Outside paths _ = ⊥

abbrev pub Holds : List String → Caller → Type 0
Holds paths inside = Unit
Holds paths building = paths ≡ []
Holds paths (leaving r) = Gave paths r
Holds paths _ = ⊥

-- At most one caller has the mutex.
pub data Inv {W : Type 0} (paths : List String) (p : Program W) : Type 0 where
  free :
      p.shared.locked ≡ false
      → ((j : ℕ) → Outside paths (p.callers j))
      → Known paths p.shared.binary
      → Inv paths p
  held :
      (i : ℕ)
      → p.shared.locked ≡ true
      → Holds paths (p.callers i)
      → ((j : ℕ) → (j == i) ≡ false → Outside paths (p.callers j))
      → Known paths p.shared.binary
      → Inv paths p

pub updated : (callers : ℕ → Caller) (i : ℕ) (c : Caller) → update callers i c i ≡ c
updated callers i c = ground arith

module _ {W : Type 0} (build : Build W) (honest : HonestBuild build) where
  -- What a step of the caller with the mutex leads to.
  data Next (paths : List String) : Moved W → Type 0 where
    stays :
        {c : Caller} {new : List String} {s : Shared W}
        → s.locked ≡ true
        → Holds (paths ++ new) c
        → Known (paths ++ new) s.binary
        → ((d : Caller) → Outside paths d → Outside (paths ++ new) d)
        → Next paths (c, new, s)
    leaves :
        {r : Outcome String} {s : Shared W}
        → s.locked ≡ false
        → Gave paths r
        → Known paths s.binary
        → Next paths (finished r, [], s)

  Gave-none : (new : List String) (d : Caller) → Outside [] d → Outside new d
  Gave-none new waiting h = tt
  Gave-none new (finished (ok p)) h = absurd cc
  Gave-none new (finished (err e)) h = tt
  Gave-none new inside h = absurd h
  Gave-none new building h = absurd h
  Gave-none new (leaving r) h = absurd h

  abbrev Leads : List String → Option (Moved W) → Type 0
  Leads paths none = Unit
  Leads paths (some m) = Next paths m

  built-Next :
      (r : (String × Bool) × W) (s : Shared W)
      → str_eq r.0.0 "" ≡ r.0.1
      → s.locked ≡ true
      → Next [] (built r s)
  unfolding built
  built-Next ((path, true), w) s honest_path locked =
      stays locked tt (nothing honest_path) (λ d h. Gave-none [] d h)
  built-Next ((path, false), w) s honest_path locked =
      stays locked refl (one honest_path) (λ d h. Gave-none (path ∷ []) d h)

  same_paths : (paths : List String) (c : Caller) → Outside paths c → Outside (paths ++ []) c
  same_paths paths c h = subst (λ l. Outside l c) (sym (append-nil paths)) h

  checked-Leads :
      (paths : List String) (s : Shared W)
      → s.locked ≡ true
      → Known paths s.binary
      → Leads paths (
          if str_eq s.binary ""
          then some (building, [], s)
          else some (leaving (ok s.binary), [], s))
  checked-Leads paths s locked (nothing e) = rw e (stays locked refl (nothing e) (λ d h. h))
  checked-Leads paths s locked (one e) = rw e (stays locked refl (one e) (λ d h. h))

  step-Leads :
      (paths : List String) (c : Caller) (s : Shared W)
      → s.locked ≡ true
      → Holds paths c
      → Known paths s.binary
      → Leads paths (advance build c s)
  unfolding advance
  step-Leads paths inside s locked h known = checked-Leads paths s locked known
  step-Leads paths building s locked h known =
      subst (λ l. Next l (built (build service_package build_env build_args s.world) s)) (sym h)
        (built-Next (build service_package build_env build_args s.world) s
          (honest service_package build_env build_args s.world) locked)
  step-Leads paths (leaving r) s locked h known = leaves refl h known
  step-Leads paths waiting s locked h known = absurd h
  step-Leads paths (finished r) s locked h known = absurd h

  -- A caller without the mutex takes it, if it can go on.
  Outside-Leads :
      (paths : List String) (c : Caller) (s : Shared W) (m : Moved W)
      → Outside paths c
      → advance build c s ≡ some m
      → (s.locked ≡ false) × (m ≡ (inside, [], record s { locked = true }))
  unfolding advance
  Outside-Leads paths waiting s m h e = elim (Bool-cases s.locked) [
    | inl locked ↦ absurd (stuck locked)
    | inr free_now ↦ (free_now, goes free_now)
  ]
    where
      taken : Moved W
      taken = (inside, [], record s { locked = true })

      stuck : s.locked ≡ true → ⊥
      stuck locked =
          let e' : none ≡ some m = ap (λ b. if b then none else some taken) (sym locked) ∙ e in cc

      goes : s.locked ≡ false → m ≡ taken
      goes free_now =
          let e' : some taken ≡ some m =
            ap (λ b. if b then none else some taken) (sym free_now) ∙ e in
          cc
  Outside-Leads paths (finished r) s m h e = absurd cc
  Outside-Leads paths inside s m h e = absurd h
  Outside-Leads paths building s m h e = absurd h
  Outside-Leads paths (leaving r) s m h e = absurd h

  others_stay :
      (paths new : List String) (p : Program W) (i : ℕ) (c : Caller)
      → ((d : Caller) → Outside paths d → Outside (paths ++ new) d)
      → ((j : ℕ) → (j == i) ≡ false → Outside paths (p.callers j))
      → (j : ℕ) → (j == i) ≡ false
      → Outside (paths ++ new) (update p.callers i c j)
  others_stay paths new p i c keep others j n = rw n (keep _ (others j n))

  moved-Inv :
      (paths : List String) (p : Program W) (i : ℕ) (m : Moved W)
      → Next paths m
      → ((j : ℕ) → (j == i) ≡ false → Outside paths (p.callers j))
      → Inv (paths ++ m.1) (after p i m)
  moved-Inv paths p i _ (stays {c = c} {new = new} locked h known keep) others =
      held i locked (subst (Holds (paths ++ new)) (sym (updated p.callers i c)) h)
        (others_stay paths new p i c keep others) known
  moved-Inv paths p i _ (leaves {r = r} {s = s} unlocked gave known) others =
      free unlocked
        (λ j. elim (Bool-cases (j == i)) [
          | inl own ↦ rw own (subst (λ l. Gave l r) (sym (append-nil paths)) gave)
          | inr other ↦ rw other (same_paths paths (p.callers j) (others j other))
        ])
        (subst (λ l. Known l s.binary) (sym (append-nil paths)) known)

  step-Inv :
      (paths : List String) (p : Program W) (i : ℕ) (m : Moved W)
      → Inv paths p
      → advance build (p.callers i) p.shared ≡ some m
      → Inv (paths ++ m.1) (after p i m)
  step-Inv paths p i m (free unlocked outside known) e =
      let (_, is) = Outside-Leads paths (p.callers i) p.shared m (outside i) e in
      rw is (
        held i refl (subst (Holds (paths ++ [])) (sym (updated p.callers i inside)) tt)
          (others_stay paths [] p i inside (same_paths paths) (λ j n. outside j))
          (subst (λ l. Known l p.shared.binary) (sym (append-nil paths)) known))
  step-Inv paths p i m (held h locked holds others known) e = elim (Bool-cases (i == h)) [
    | inl same ↦
        let eq : i ≡ h = ground arith in
        moved-Inv paths p i m
          (subst (Leads paths) e (
            step-Leads paths (p.callers i) p.shared locked
              (subst (λ x. Holds paths (p.callers x)) (sym eq) holds) known))
          (subst (λ x. (j : ℕ) → (j == x) ≡ false → Outside paths (p.callers j)) (sym eq) others)
    | inr other ↦
        let (unlocked, _) = Outside-Leads paths (p.callers i) p.shared m (others i other) e in
        absurd cc
  ]

  pub Run-Inv :
      (w : W) (paths : List String) (p : Program W) → Run build (init w) paths p → Inv paths p
  Run-Inv w _ _ start = free refl (λ j. tt) (nothing refl)
  Run-Inv w _ _ (later {paths = paths} {q = q} i m run e) =
      step-Inv paths q i m (Run-Inv w paths q run) e

  Known-is : (path : String) (b : String) → Known (path ∷ []) b → b ≡ path
  Known-is path _ (one e) = refl

  Inv-is :
      (paths : List String) (p : Program W) (i : ℕ) (path : String)
      → Inv paths p
      → p.callers i ≡ finished (ok path)
      → (paths ≡ path ∷ []) × Known paths p.shared.binary
  Inv-is paths p i path (free unlocked outside known) e =
      (subst (Outside paths) e (outside i), known)
  Inv-is paths p i path (held h locked holds others known) e = elim (Bool-cases (i == h)) [
    | inl same ↦
        let eq : h ≡ i = ground arith in absurd (subst (Holds paths) (ap p.callers eq ∙ e) holds)
    | inr other ↦ (subst (Outside paths) e (others i other), known)
  ]

  -- Let any number of callers call `spacerServicePath`, interleaved in any way, and let building
  -- give a path if and only if it gives no error. When a call has returned a path, then that is the
  -- path of the one binary that was built in all of the run, and the path that is kept.
  pub finished-built_once :
      (w : W) (paths : List String) (p : Program W) (i : ℕ) (path : String)
      → Run build (init w) paths p
      → p.callers i ≡ finished (ok path)
      → (paths ≡ path ∷ []) × (p.shared.binary ≡ path)
  finished-built_once w paths p i path run e =
      let (is, known) = Inv-is paths p i path (Run-Inv w paths p run) e in
      (is, Known-is path p.shared.binary (subst (λ l. Known l p.shared.binary) is known))
