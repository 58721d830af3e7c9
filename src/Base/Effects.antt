-- ===== src/Base/Effects.antt =====
-- Go code as a function of a state: a call returns a value, or ends early. The early end stands
-- for a returned error and for a panic (which is how a Gomega expectation fails); either way what
-- was done to the state stays done, and deferred calls run.
use Prim.Native.String.{String}
use mathlib.Core.Bool.{Bool, true, false}
use mathlib.Core.List.{List, [], ◌∷◌}

-- The text is that of the error, or of the failed expectation.
pub data Outcome {ℓ} (A : Type ℓ) : Type ℓ where
  ok : A → Outcome A
  err : String → Outcome A

abbrev pub Sys : Type 0 → Type 0 → Type 0
Sys S A = S → Outcome A × S

module _ {S A : Type 0} where
  abbrev pub pure : A → Sys S A
  pure a s = (ok a, s)

  abbrev pub raise : String → Sys S A
  raise e s = (err e, s)

  -- The result of a call as a value: `res, err := f()`, or `recover()`.
  unfoldable pub attempt : Sys S A → Sys S (Outcome A)
  attempt m s = let (r, s') = m s in (ok r, s')

  -- `defer cleanup()` in front of the rest of a body. A cleanup that ends early overrides.
  unfoldable pub deferring : Sys S (Unit {0}) → Sys S A → Sys S A
  deferring cleanup m s =
      let (r, s') = m s in
      let (c, s'') = cleanup s' in elim c [ ok _ ↦ (r, s'') | err e ↦ (err e, s'') ]

infixl 5 ◌>>=◌ ◌>>◌
unfoldable pub ◌>>=◌ : {S A B : Type 0} → Sys S A → (A → Sys S B) → Sys S B
◌>>=◌ m f s = let (r, s') = m s in elim r [ ok a ↦ f a s' | err e ↦ (err e, s') ]

abbrev pub ◌>>◌ : {S A B : Type 0} → Sys S A → Sys S B → Sys S B
m >> k = m >>= λ _. k

-- `if b { m }`
unfoldable pub when : {S : Type 0} → Bool → Sys S (Unit {0}) → Sys S (Unit {0})
when true m = m
when false m = pure tt

-- `Expect(err).NotTo(HaveOccurred(), message)` and `Expect(f()).To(Succeed(), message)`: an error
-- fails the test, which ends the code as a panic does.
unfoldable pub expecting : {S A : Type 0} → Sys S A → String → Sys S A
expecting m message s =
    let (r, s') = m s in elim r [ ok a ↦ (ok a, s') | err e ↦ (err message, s') ]

-- `Expect(b).To(BeTrue(), message)`
unfoldable pub expect : {S : Type 0} → Bool → String → Sys S (Unit {0})
expect true message = pure tt
expect false message = raise message

-- `for _, x := range xs { body(x) }`
unfoldable pub for_each : {S A : Type 0} → List A → (A → Sys S (Unit {0})) → Sys S (Unit {0})
for_each [] body = pure tt
for_each (x ∷ xs) body = body x >> for_each xs body
