-- ===== src/Base/Post.antt =====
-- What a call leaves behind, by how it ended, with one rule for each way of putting calls together.
use Prim.Native.String.{String}
use mathlib.Core.Bool.{Bool, true, false}
use mathlib.Core.Path.{◌≡◌, refl}
use spacetest.Base.Effects.{
  Outcome, ok, err, Sys, attempt, deferring, ◌>>=◌, when, expecting, expect, for_each,
}
use mathlib.Core.List.{List, [], ◌∷◌}

-- `Q` holds of the value and the state after a return, `E` of the state after an early end.
pub data Post {S A : Type 0} (Q : A → S → Type 0) (E : S → Type 0) : Outcome A × S → Type 0 where
  returns : {a : A} {s : S} → Q a s → Post Q E (ok a, s)
  fails : {e : String} {s : S} → E s → Post Q E (err e, s)

module _ {S A : Type 0} {Q : A → S → Type 0} {E : S → Type 0} where
  pub mono :
      {Q' : A → S → Type 0} {E' : S → Type 0} {r : Outcome A × S}
      → Post Q E r
      → ((a : A) (s : S) → Q a s → Q' a s)
      → ((s : S) → E s → E' s)
      → Post Q' E' r
  mono (returns q) f g = returns (f _ _ q)
  mono (fails p) f g = fails (g _ p)

  -- What is known of the state after the call, however it ended.
  pub with-Post :
      (P : S → Type 0) {r : Outcome A × S}
      → Post Q E r
      → P r.1
      → Post (λ a s. Q a s × P s) (λ s. E s × P s) r
  with-Post P (returns q) p = returns (q, p)
  with-Post P (fails e) p = fails (e, p)

  -- What never ends early meets any postcondition of an early end.
  pub never : {r : Outcome A × S} → Post Q (λ _. ⊥) r → Post Q E r
  never (returns q) = returns q
  never (fails p) = absurd p

  pub bind-Post :
      {B : Type 0} {R : B → S → Type 0} (m : Sys S A) (f : A → Sys S B) (s : S)
      → Post Q E (m s)
      → ((a : A) (s' : S) → Q a s' → Post R E (f a s'))
      → Post R E ((m >>= f) s)
  unfolding ◌>>=◌
  bind-Post {R = R} m f s = go (m s)
    where
      go :
          (r : Outcome A × S)
          → Post Q E r
          → ((a : A) (s' : S) → Q a s' → Post R E (f a s'))
          → Post R E (elim r.0 [ ok a ↦ f a r.1 | err e ↦ (err e, r.1) ])
      go _ (returns q) next = next _ _ q
      go _ (fails p) next = fails p

  -- The cleanup runs after a return and after an early end.
  pub deferring-Post :
      {Q' : A → S → Type 0} {E' : S → Type 0} (c : Sys S (Unit {0})) (m : Sys S A) (s : S)
      → Post Q E (m s)
      → ((a : A) (s' : S) → Q a s' → Post (λ _. Q' a) E' (c s'))
      → ((s' : S) → E s' → Post (λ _. E') E' (c s'))
      → Post Q' E' (deferring c m s)
  unfolding deferring
  deferring-Post {Q' = Q'} {E' = E'} c m s h good bad = go (m s) h
    where
      end :
          (P : S → Type 0) (x : Outcome A) (d : Outcome (Unit {0}) × S)
          → ((s' : S) → P s' → Post Q' E' (x, s'))
          → Post (λ _. P) E' d
          → Post Q' E' (elim d.0 [ ok _ ↦ (x, d.1) | err e ↦ (err e, d.1) ])
      end P x _ keep (returns q) = keep _ q
      end P x _ keep (fails p) = fails p

      go :
          (r : Outcome A × S)
          → Post Q E r
          → Post Q' E' (elim (c r.1).0 [ ok _ ↦ (r.0, (c r.1).1) | err e ↦ (err e, (c r.1).1) ])
      go _ (returns {a = a} {s = s'} q) = end (Q' a) (ok a) (c s') (λ _. returns) (good a s' q)
      go _ (fails {e = e} {s = s'} p) = end E' (err e) (c s') (λ _. fails) (bad s' p)

  pub attempt-Post :
      {E' : S → Type 0} (m : Sys S A) (s : S)
      → Post Q E (m s)
      → Post (λ o s'. Post Q E (o, s')) E' (attempt m s)
  unfolding attempt
  attempt-Post m s h = returns h

  -- A failed expectation leaves what the failed call left.
  pub expecting-Post :
      (m : Sys S A) (message : String) (s : S) → Post Q E (m s) → Post Q E (expecting m message s)
  unfolding expecting
  expecting-Post m message s h = go (m s) h
    where
      go :
          (r : Outcome A × S)
          → Post Q E r
          → Post Q E (elim r.0 [ ok a ↦ (ok a, r.1) | err e ↦ (err message, r.1) ])
      go _ (returns q) = returns q
      go _ (fails p) = fails p

module _ {S : Type 0} {P : S → Type 0} where
  -- A call whose result is dropped: `_ = f()`.
  pub ignore-Post :
      {A : Type 0} {E' : S → Type 0} (m : Sys S A) (s : S)
      → Post (λ _. P) P (m s)
      → Post (λ _. P) E' (attempt m s)
  unfolding attempt
  ignore-Post {A} {E' = E'} m s h = go (m s) h
    where
      go :
          (r : Outcome A × S)
          → Post (λ _. P) P r
          → Post (λ _. P) E' (let x : Outcome (Outcome A) × S = (ok r.0, r.1) in x)
      go _ (returns q) = returns q
      go _ (fails p) = returns p

  pub when-Post :
      (b : Bool) (m : Sys S (Unit {0})) (s : S)
      → P s
      → Post (λ _. P) P (m s)
      → Post (λ _. P) P (when b m s)
  unfolding when
  when-Post true m s h p = p
  when-Post false m s h p = returns h

  pub expect-Post :
      (b : Bool) (message : String) (s : S) → P s → Post (λ _. P) P (expect b message s)
  unfolding expect
  expect-Post true message s h = returns h
  expect-Post false message s h = fails h

-- A call whose result is looked at.
pub attempt_cases-Post :
    {S A B : Type 0} {Q : A → S → Type 0} {E : S → Type 0} {R : B → S → Type 0} {F : S → Type 0}
    (m : Sys S A) (good : A → Sys S B) (bad : String → Sys S B) (s : S)
    → Post Q E (m s)
    → ((a : A) (s' : S) → Q a s' → Post R F (good a s'))
    → ((e : String) (s' : S) → E s' → Post R F (bad e s'))
    → Post R F ((attempt m >>= λ r. elim r [ err e ↦ bad e | ok a ↦ good a ]) s)
unfolding attempt ◌>>=◌
attempt_cases-Post {S} {A} {B} {Q} {E} {R} {F} m good bad s h if_good if_bad = go (m s) h
  where
    go :
        (r : Outcome A × S)
        → Post Q E r
        → Post R F (let next : Sys S B = elim r.0 [ err e ↦ bad e | ok a ↦ good a ] in next r.1)
    go _ (returns q) = if_good _ _ q
    go _ (fails p) = if_bad _ _ p

-- The same read as a function of the result.
abbrev pub Ends : {S A : Type 0} → (A → S → Type 0) → (S → Type 0) → Outcome A × S → Type 0
Ends Q E (ok a, s) = Q a s
Ends Q E (err e, s) = E s

module _ {S A : Type 0} {Q : A → S → Type 0} {E : S → Type 0} where
  -- The end of a call that was shown to meet both.
  pub Post-Ends : {r : Outcome A × S} → Post Q E r → Ends Q E r
  Post-Ends (returns q) = q
  Post-Ends (fails p) = p

  pub Ends-Post : (r : Outcome A × S) → Ends Q E r → Post Q E r
  Ends-Post (ok a, s) h = returns h
  Ends-Post (err e, s) h = fails h

-- What two proofs say of the same call.
pub both-Post :
    {S A : Type 0} {Q Q' : A → S → Type 0} {E E' : S → Type 0} {r : Outcome A × S}
    → Post Q E r
    → Post Q' E' r
    → Post (λ a s. Q a s × Q' a s) E r
both-Post (returns q) h = returns (q, Post-Ends h)
both-Post (fails e) h = fails e

pub for_each-Post :
    {S A : Type 0} {E : S → Type 0} (P : List A → S → Type 0) (body : A → Sys S (Unit {0}))
    → ((x : A) (xs : List A) (s : S) → P (x ∷ xs) s → Post (λ _. P xs) E (body x s))
    → (xs : List A) (s : S) → P xs s
    → Post (λ _. P []) E (for_each xs body s)
unfolding for_each
for_each-Post P body step [] s h = returns h
for_each-Post P body step (x ∷ xs) s h =
    bind-Post _ _ _ (step x xs s h) λ _ s' h'. for_each-Post P body step xs s' h'

pub bind-ok :
    {S A B : Type 0} (m : Sys S A) (f : A → Sys S B) (s s' : S) (a : A)
    → m s ≡ (ok a, s')
    → (m >>= f) s ≡ f a s'
unfolding ◌>>=◌
bind-ok m f s s' a h = rw (h, ◌>>=◌) (rw h refl)

pub expecting-ok :
    {S A : Type 0} (m : Sys S A) (message : String) (s s' : S) (a : A)
    → m s ≡ (ok a, s')
    → expecting m message s ≡ (ok a, s')
unfolding expecting
expecting-ok m message s s' a h = rw (h, expecting) (rw h refl)

-- An expectation that is met, in front of the rest.
pub expecting-bind :
    {S A B : Type 0} (m : Sys S A) (message : String) (f : A → Sys S B) (s s' : S) (a : A)
    → m s ≡ (ok a, s')
    → (expecting m message >>= f) s ≡ f a s'
expecting-bind m message f s s' a h =
    bind-ok (expecting m message) f s s' a (expecting-ok m message s s' a h)
