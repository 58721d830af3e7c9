-- ===== src/Service/Command/Serves.antt =====
-- What `main` serves.
use spacetest.Base.{
  ℕ, ℤ, pos, ◌==◌, ◌++◌, [], ◌∷◌, Bool, true, false, Outcome, ok, err, ◌≡◌, refl, pure, attempt,
  when, ◌>>◌, Bool-cases, inl, inr,
}
use spacetest.Base.Decimal.{Bytes}
use spacetest.Base.Post.{Post, returns, fails, mono, bind-Post, attempt-Post}
use spacetest.Kernel.{Kernel, State}
use spacetest.Kernel.Laws.{IsLinux, with_fd}
use spacetest.Kernel.Table.{Has, Gains, mount-Post}
use spacetest.Spacer.PidFd.{same_bytes}
use spacetest.Uds.Leaks.{new_unix_conn-Gains}
use spacetest.Base.{List, arith}
use spacetest.Base.Post.{never}
use spacetest.Api.{Response}
use spacetest.Uds.Messages.{Messages}
use spacetest.Spacer.Gobmsg.{Gob, Encoder, encode}
use spacetest.Service.Serve.{Received, serve}
use spacetest.Service.Serve.Children.{Grown}
use spacetest.Service.Serve.Leaks.{serve-Grown}
use spacetest.Service.Command.{remount_for, remount, main, no_fields}

-- `Serve` ran on a connection that is the one new descriptor beside those of a table, and left the
-- state; what is open then is the connection, the table, and what os/exec keeps for children.
abbrev pub Served :
    (k : Kernel) (m : Messages k) (g : Gob Response) → List Received → (ℤ → Bool) → State k → Type 0
Served k m g rounds f s' =
    (conn : ℤ) × (t : State k) × Gains k f conn t
    × ((serve k m g no_fields conn rounds t).1 ≡ s')
    × Grown k no_fields (with_fd conn f) s'

-- Served, or refused, with the table.
abbrev pub Ended :
    (k : Kernel) (m : Messages k) (g : Gob Response)
    → List Received
    → (ℤ → Bool)
    → Bool
    → State k
    → Type 0
Ended k m g rounds f true s = Served k m g rounds f s
Ended k m g rounds f false s = Has k f s

module _ {k : Kernel} (linux : IsLinux k) (pid : ℕ) (arg0 : Bytes)
    (read_file : k.World → Bytes → Outcome Bytes) where
  remount_for-Has :
      (g : ℤ → Bool) (cmdline : Outcome Bytes) (s : State k)
      → Has k g s
      → Post (λ _. Has k g) (λ _. ⊥) (remount_for k pid arg0 read_file cmdline s)
  unfolding remount_for
  remount_for-Has g (err e) s h = returns h
  remount_for-Has g (ok cmdline) s h = elim (Bool-cases (same_bytes cmdline (arg0 ++ 0 ∷ []))) [
    | inl same ↦ rw same (returns h)
    | inr other ↦ rw other (
        mono
          (attempt-Post _ s (
            bind-Post _ _ s (mount-Post linux s h _ _ _ _)
              λ _ s₁ h₁. mount-Post linux s₁ h₁ _ _ _ _))
          (λ o s' p. settled o s' p) (λ _ e. e))
  ]
    where
      settled :
          (o : Outcome (Unit {0})) (s' : State k)
          → Post (λ _. Has k g) (Has k g) (o, s')
          → Has k g s'
      settled (ok _) s' (returns h') = h'
      settled (err e) s' (fails h') = h'

  remount-Has :
      (g : ℤ → Bool) (s : State k)
      → Has k g s
      → Post (λ _. Has k g) (λ _. ⊥) (remount k pid arg0 read_file s)
  unfolding remount attempt
  remount-Has g s h =
      bind-Post {Q = λ _ s'. Has k g s'} _ _ s (returns h)
        λ cmdline s₁ h₁. bind-Post _ _ s₁ (remount_for-Has g cmdline s₁ h₁) λ _ s₂ h₂. returns h₂

  -- On a kernel that keeps its documented rules, let the command be started with descriptor 3 open
  -- beside a table of others, among them descriptor 0 (standard input), let every response be encoded,
  -- and let sending keep the sender's descriptors open. Whatever PID the process has, however the
  -- remounting of /proc ends and whatever the rounds of `Serve` meet: `main` gets a connection with
  -- one new descriptor in place of descriptor 3, runs `Serve` with these rounds on it, and ends in the
  -- state that this leaves, also if a panic ends `Serve`; what is open then is the connection, the
  -- others, and what os/exec keeps for children that were started. Or it ends with an exit status of
  -- 1, and open are the others.
  pub main-Ended :
      (m : Messages k) (g : Gob Response) (rounds : List Received) (f : ℤ → Bool) (s : State k)
      → f (pos 0) ≡ true
      → f (pos 3) ≡ false
      → Has k (with_fd (pos 3) f) s
      → ((resp : Response) (enc : Encoder g)
          → (msg : Bytes) × (enc' : Encoder g) × (encode g resp enc ≡ (ok msg, enc')))
      → ((conn : ℤ) (b oob : Bytes) (w : k.World) → k.fds (m.write_msg conn b oob w).1 ≡ k.fds w)
      → Post (Ended k m g rounds f) (Served k m g rounds f) (main k pid arg0 read_file m g rounds s)
  unfolding main
  main-Ended m g rounds f s stdin fresh h encodes sends =
      bind-Post _ _ s (first (pid == 1)) λ _ s₁ h₁.
        bind-Post _ _ s₁ (attempt-Post _ s₁ (new_unix_conn-Gains linux (pos 3) f s₁ refl fresh h₁))
          λ r s₂ p. go r s₂ p
    where
      first :
          (b : Bool)
          → Post
              (λ _. Has k (with_fd (pos 3) f))
              (Served k m g rounds f)
              (when b (remount k pid arg0 read_file) s)
      first true = unfold when in never (remount-Has (with_fd (pos 3) f) s h)
      first false = unfold when in returns h

      serves :
          (conn : ℤ) (s₂ : State k)
          → Gains k f conn s₂
          → Post
              (λ _. Served k m g rounds f)
              (Served k m g rounds f)
              (serve k m g no_fields conn rounds s₂)
      serves conn s₂ (valid, new, has) = ran (serve k m g no_fields conn rounds s₂) refl (
          serve-Grown linux m g no_fields conn encodes (sends conn) (with_fd conn f) (ground arith)
            rounds s₂ has)
        where
          ran :
              (r : Outcome (Unit {0}) × State k)
              → (serve k m g no_fields conn rounds s₂).1 ≡ r.1
              → Post
                  (λ _. Grown k no_fields (with_fd conn f))
                  (Grown k no_fields (with_fd conn f))
                  r
              → Post (λ _. Served k m g rounds f) (Served k m g rounds f) r
          ran (ok u, s') is (returns q) = returns (conn, s₂, (valid, new, has), is, q)
          ran (err e, s') is (fails q) = fails (conn, s₂, (valid, new, has), is, q)

      go :
          (r : Outcome ℤ) (s₂ : State k)
          → Post (Gains k f) (Has k f) (r, s₂)
          → Post (Ended k m g rounds f) (Served k m g rounds f) (
              let n : State k → Outcome Bool × State k = elim r [
                | err e ↦ pure false
                | ok dupont ↦ serve k m g no_fields dupont rounds >> pure true
              ] in
              n s₂)
      go (ok conn) s₂ (returns gains) = bind-Post _ _ s₂ (serves conn s₂ gains) λ _ s₃ e. returns e
      go (err e) s₂ (fails h₂) = returns h₂
