-- ===== src/Kernel/Held.antt =====
-- The descriptors that a response holds, in the table of open descriptors.
use spacetest.Base.{
  zero, suc, negsuc, ◌==ℤ◌, ℤ, pos, Bool, true, false, ◌&&◌, ◌||◌, List, [], ◌∷◌, ◌++◌, ◌≡◌,
  fun_ext, ==ℤ_iff, positive, nonnegative, contains, All, if◌then◌else◌, arith, ==ℤ_refl, ◌∙◌,
}
use spacetest.Kernel.Laws.{with_fd, without_fd, IsLinux}
use spacetest.Base.Post.{Post, mono}
use spacetest.Kernel.{Kernel, State}
use spacetest.Kernel.Calls.{close}
use spacetest.Kernel.Table.{Has, close-Post, with_fd-fresh}

-- The table with the open ones of a list of descriptors.
abbrev pub held : List ℤ → (ℤ → Bool) → ℤ → Bool
held xs f j = positive j && contains j xs || f j

-- The table after the open ones of a list were closed in turn.
abbrev pub shut : List ℤ → (ℤ → Bool) → ℤ → Bool
shut [] g = g
shut (x ∷ xs) g = shut xs (if positive x then without_fd x g else g)

-- The open ones of a list are not in a table.
abbrev pub AreNew : (ℤ → Bool) → List ℤ → Type 0
AreNew f = All (λ x. positive x ≡ true → f x ≡ false)

contains-set :
    (xs ys : List ℤ) (fd j : ℤ)
    → positive j ≡ true
    → contains j (xs ++ fd ∷ ys) ≡ (j ==ℤ fd || contains j (xs ++ pos 0 ∷ ys))
contains-set [] ys fd j h = ground arith
contains-set (x ∷ xs) ys fd j h = ground (arith, contains-set xs ys fd j h)

pub held-set :
    (xs ys : List ℤ) (fd : ℤ) (f : ℤ → Bool)
    → positive fd ≡ true
    → held (xs ++ fd ∷ ys) f ≡ with_fd fd (held (xs ++ pos 0 ∷ ys) f)
held-set xs ys fd f h = fun_ext λ j. ground (arith, ==ℤ_iff j fd, contains-set xs ys fd j)

shut-apply :
    (xs : List ℤ) (g : ℤ → Bool) (j : ℤ)
    → shut xs g j ≡ (if positive j && contains j xs then false else g j)
shut-apply [] g j = ground arith
shut-apply (x ∷ xs) g j =
    ground (arith, ==ℤ_iff j x, shut-apply xs (without_fd x g) j, shut-apply xs g j)

pub AreNew-apply :
    (f : ℤ → Bool) (xs : List ℤ) (j : ℤ)
    → AreNew f xs
    → (positive j && contains j xs) ≡ true
    → f j ≡ false
AreNew-apply f [] j h e = ground arith
AreNew-apply f (x ∷ xs) j (h, hs) e = ground (arith, ==ℤ_iff j x, h, AreNew-apply f xs j hs)

pub shut-held : (xs : List ℤ) (f : ℤ → Bool) → AreNew f xs → shut xs (held xs f) ≡ f
shut-held xs f h = fun_ext λ j. ground (arith, shut-apply xs (held xs f) j, AreNew-apply f xs j h)

pub positive_of_new :
    (f : ℤ → Bool) (fd : ℤ)
    → f (pos 0) ≡ true
    → nonnegative fd ≡ true
    → f fd ≡ false
    → positive fd ≡ true
positive_of_new f (pos zero) h p e = cc
positive_of_new f (pos (suc n)) h p e = ground arith
positive_of_new f (negsuc n) h p e = cc

pub AreNew-set :
    (f : ℤ → Bool) (xs ys : List ℤ) (fd : ℤ)
    → f fd ≡ false
    → AreNew f (xs ++ pos 0 ∷ ys)
    → AreNew f (xs ++ fd ∷ ys)
AreNew-set f [] ys fd e (_, h) = (λ _. e, h)
AreNew-set f (x ∷ xs) ys fd e (h, hs) = (h, AreNew-set f xs ys fd e hs)

-- Closing the same descriptors in another order, with some that are not open among them.
pub shut-held_of_same :
    (xs ys : List ℤ) (f : ℤ → Bool)
    → ((j : ℤ) → positive j ≡ true → contains j xs ≡ contains j ys)
    → AreNew f ys
    → shut xs (held ys f) ≡ f
shut-held_of_same xs ys f same h =
    fun_ext λ j. ground (arith, same j, shut-apply xs (held ys f) j, AreNew-apply f ys j h)

pub held-nil : (f : ℤ → Bool) → held [] f ≡ f
held-nil f = fun_ext λ j. ground arith

-- A descriptor that is not of the list goes from the table.
pub without_fd-held :
    (fd : ℤ) (xs : List ℤ) (f : ℤ → Bool)
    → positive fd ≡ true
    → f fd ≡ false
    → AreNew (with_fd fd f) xs
    → without_fd fd (held xs (with_fd fd f)) ≡ held xs f
without_fd-held fd xs f p fresh h =
    fun_ext λ j. ground (arith, ==ℤ_iff j fd, ==ℤ_refl fd, AreNew-apply (with_fd fd f) xs fd h)

pub AreNew-with_fd : (fd : ℤ) (f : ℤ → Bool) (xs : List ℤ) → AreNew (with_fd fd f) xs → AreNew f xs
AreNew-with_fd fd f [] h = tt
AreNew-with_fd fd f (x ∷ xs) (h, hs) = (λ p. with_fd-fresh fd x f (h p), AreNew-with_fd fd f xs hs)

-- A call that leaves open the descriptors of a list, all of them new, and nothing else.
abbrev pub Acquires : (k : Kernel) → (ℤ → Bool) → List ℤ → State k → Type 0
Acquires k f xs s = AreNew f xs × Has k (held xs f) s

module _ {k : Kernel} (linux : IsLinux k) (fd : ℤ) (f : ℤ → Bool) (p : positive fd ≡ true)
    (fresh : f fd ≡ false) where
  -- `defer` the close of a descriptor around a call that acquires others.
  pub close-Acquires :
      (xs : List ℤ) {E : State k → Type 0} (s : State k)
      → Acquires k (with_fd fd f) xs s
      → Post (λ _. Acquires k f xs) E (close k fd s)
  close-Acquires xs s (new, h) =
      mono (close-Post linux s h fd)
        (λ _ s' h'. (AreNew-with_fd fd f xs new, h' ∙ without_fd-held fd xs f p fresh new))
        (λ _ e. e)
