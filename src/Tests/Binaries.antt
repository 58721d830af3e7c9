-- ===== src/Tests/Binaries.antt =====
-- Callers of `spacerServicePath` at a concrete input: the first build fails, and the second does not.
use spacetest.Base.{
  ℕ, suc, zero, String, true, false, List, [], ◌∷◌, ◌++◌, ◌≡◌, refl, some, none, Option,
}
use mathlib.Core.List.{foldl}
use spacetest.Spacer.Client.Binary.{
  Moved, Program, Build, Run, start, later, init, advance, built, after,
}
use spacetest.Spacer.Client.Binary.Once.{HonestBuild, finished-built_once}
use spacetest.Spacer.Client.Binary.Finishes.{CanFinish, waiting-finished}

-- `W` counts the attempts.
abbrev second_try : Build ℕ
second_try p env args zero = (("", true), 1)
second_try p env args (suc n) = (("/tmp/spacer-service", false), suc (suc n))

second_try-HonestBuild : HonestBuild second_try
second_try-HonestBuild p env args zero = refl
second_try-HonestBuild p env args (suc n) = refl

-- a run, with where it leads to
record To : Type 0 where
  paths : List String
  last : Program ℕ
  run : Run second_try (init 0) paths last

-- a turn of a caller, if it can go on
unfoldable turn : To → ℕ → To
turn r i = go (advance second_try (r.last.callers i) r.last.shared) refl
  where
    go : (o : Option (Moved ℕ)) → advance second_try (r.last.callers i) r.last.shared ≡ o → To
    go none e = r
    go (some m) e = record {
      paths = r.paths ++ m.1;
      last = after r.last i m;
      run = later i m r.run e;
    }

-- Caller 0 fails to build while caller 1 waits, caller 1 builds, and caller 2 has the mutex.
abbrev contended : To
contended =
    foldl turn (record { paths = []; last = init 0; run = start })
      (0 ∷ 1 ∷ 0 ∷ 0 ∷ 1 ∷ 0 ∷ 1 ∷ 2 ∷ 1 ∷ 1 ∷ 1 ∷ 2 ∷ [])

finished-built_once_example :
    (contended.paths ≡ "/tmp/spacer-service" ∷ [])
    × (contended.last.shared.binary ≡ "/tmp/spacer-service")
unfolding advance built turn
finished-built_once_example =
    finished-built_once second_try second_try-HonestBuild 0 contended.paths contended.last 1
      "/tmp/spacer-service" contended.run refl

-- Caller 3 can finish while caller 2 has the mutex.
waiting-finished_example : CanFinish second_try contended.last 3
unfolding advance built turn
waiting-finished_example =
    waiting-finished second_try 0 contended.paths contended.last 3 second_try-HonestBuild
      contended.run
