-- ===== src/Spacer/Client/Registers.antt =====
-- What `Rooms` registers to be closed.
use spacetest.Base.{
  ℕ, sym, ℤ, List, [], ◌∷◌, ◌++◌, Bool, ok, ◌≡◌, refl, ap, ◌∙◌, positive, Bool-cases, inl, inr, Sys,
  when, for_each, ◌>>=◌,
}
use mathlib.Core.List.{append_assoc}
use spacetest.Base.Post.{bind-ok}
use spacetest.Kernel.{Kernel, State}
use spacetest.Kernel.Calls.{Act, close_at_end}
use spacetest.Api.Rooms.{RoomsResponse}
use spacetest.Api.Fds.Laws.{piece, open_ones}
use spacetest.Spacer.Client.{rooms_spaces, close_open_at_end, rooms}

abbrev pub registered : (k : Kernel) → List ℤ → State k → State k
registered k fds s = record s { cleanups = fds ++ s.cleanups }

close_open_at_end_lem :
    (k : Kernel) (fd : ℤ) (s : State k)
    → close_open_at_end k fd s ≡ (ok tt, registered k (piece fd) s)
unfolding close_open_at_end when close_at_end
close_open_at_end_lem k fd s = elim (Bool-cases (positive fd)) [ inl p ↦ rw p | inr n ↦ rw n ]

-- A step of a loop that never ends early.
for_each-step :
    {S A : Type 0} (body : A → Sys S (Unit {0})) (x : A) (xs : List A) (s s' : S)
    → body x s ≡ (ok tt, s')
    → for_each (x ∷ xs) body s ≡ for_each xs body s'
unfolding for_each ◌>>=◌
for_each-step body x xs s s' h = rw (h, for_each, ◌>>=◌) (rw h refl)

abbrev pub all_open : RoomsResponse → List ℤ
all_open r = open_ones (r.cgroup ∷ r.ipc ∷ r.mnt ∷ r.net ∷ r.time ∷ r.uts ∷ [])

module _ (k : Kernel) where
  pub registers :
      (fds : List ℤ) (fd : ℤ) (rest : List ℤ) (s : State k)
      → for_each (fd ∷ rest) (close_open_at_end k) (registered k fds s)
        ≡ for_each rest (close_open_at_end k) (registered k (piece fd ++ fds) s)
  registers fds fd rest s =
      for_each-step _ fd rest _ _ (close_open_at_end_lem k fd (registered k fds s))
      ∙ ap (λ c. for_each rest (close_open_at_end k) (record s { cleanups = c }))
          (sym (append_assoc (piece fd) fds s.cleanups))

module _ (k : Kernel) (do_rooms : ℕ → Act k RoomsResponse) where
  -- When the service answers a `Rooms` request, `Rooms` returns the answer, and has registered each
  -- open descriptor in it, and nothing else, to be closed when the test ends.
  pub rooms-open_ones :
      (cgroup ipc mnt net time uts : Bool) (s s' : State k) (resp : RoomsResponse)
      → do_rooms (rooms_spaces cgroup ipc mnt net time uts) s ≡ (ok resp, s')
      → rooms k do_rooms cgroup ipc mnt net time uts s ≡ (ok resp, registered k (all_open resp) s')
  unfolding rooms
  rooms-open_ones cgroup ipc mnt net time uts s s' resp h =
      bind-ok _ _ _ _ _ h
      ∙ bind-ok _ _ s' (registered k (all_open resp) s') tt (
          registers k [] resp.uts _ s'
          ∙ registers k _ resp.time _ s'
          ∙ registers k _ resp.net _ s'
          ∙ registers k _ resp.mnt _ s'
          ∙ registers k _ resp.ipc _ s'
          ∙ registers k _ resp.cgroup [] s'
          ∙ unfold for_each in refl)
