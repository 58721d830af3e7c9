-- ===== src/Service/Serve/Leaks.antt =====
-- `Serve` closes what it sends.
use spacetest.Service.Subspace.{Spacemaker}
use spacetest.Base.{
  ℕ, ℤ, pos, Bool, true, false, List, [], ◌∷◌, Outcome, ok, err, ◌≡◌, ◌∙◌, ap, fun_ext, arith, pure,
}
use spacetest.Base.Post.{Post, returns, fails, bind-Post, attempt-Post, for_each-Post, never}
use spacetest.Kernel.{Kernel, State}
use spacetest.Kernel.Calls.{Act, close}
use spacetest.Kernel.Laws.{IsLinux}
use spacetest.Kernel.Table.{Has, Post-either}
use spacetest.Base.Decimal.{Bytes}
use spacetest.Uds.Messages.{Messages, write, send_with_fds}
use spacetest.Spacer.Gobmsg.{Gob, Encoder, new_encoder, encode}
use spacetest.Kernel.Held.{held, held-nil, AreNew, AreNew-apply, Acquires}
use spacetest.Execute.InAndOut.Table.{closed, closed-apply}
use spacetest.Api.{
  Request, subspace_request, rooms_request, unhandlebar_request, Response, error_response,
  subspace_response, rooms_response,
}
use spacetest.Api.Fds.Laws.{open_ones, contains-open_ones}
use spacetest.Api.Rooms.Transfer as SentRooms
use spacetest.Api.Subspace.Transfer as SentSubspace
use spacetest.Service.Room.Leaks.{fields, Answers, room-Answers}
use spacetest.Service.Subspace.Opens.{fds_of}
use spacetest.Service.Subspace.Leaks.{Answered, subspace-Answered}
use spacetest.Service.Serve.Children.{with_children, Grown, stays_open, Grown-more}
use spacetest.Base.{inl, inr, subst}
use spacetest.Base.Post.{mono}
use spacetest.Execute.InAndOut.Table.{with_all}
use spacetest.Service.Serve.{
  Received, cancelled, no_deadline, deadline_exceeded, disconnected, undecodable, got_request,
  fds_to_send, send_response, respond, handle, serve_round, serve, serve_from,
}

closed-open_ones :
    (xs : List ℤ) (f : ℤ → Bool) → AreNew f xs → closed (open_ones xs) (held xs f) ≡ f
closed-open_ones xs f h = fun_ext λ j. ground (
  arith,
  closed-apply (open_ones xs) (held xs f) j,
  contains-open_ones xs j,
  AreNew-apply f xs j h,
)

closed-sent :
    (k : Kernel) (f : ℤ → Bool) (fds xs : List ℤ) (s : State k)
    → fds ≡ open_ones xs
    → Acquires k f xs s
    → closed fds (k.fds s.world) ≡ f
closed-sent k f fds xs s e (new, h) =
    ap (λ x. closed x (k.fds s.world)) e ∙ ap (closed (open_ones xs)) h ∙ closed-open_ones xs f new

-- Closing what is to be sent gives back the table from before the response.
Owed : (k : Kernel) → (ℤ → Bool) → Response → State k → Type 0
Owed k f resp s = closed (fds_to_send resp) (k.fds s.world) ≡ f

Answers-Owed :
    {k : Kernel} (f : ℤ → Bool) (resp : Response) (s : State k)
    → Answers k f resp s
    → Owed k f resp s
unfolding Owed fds_to_send
Answers-Owed f (error_response reason) s h = h
Answers-Owed f (rooms_response r) s h =
    closed-sent _ f _ (fields r) s (ap (λ p. p.0) (SentRooms.encode_fds_lem r)) h
Answers-Owed f (subspace_response r) s h = absurd h

Acquired-Owed :
    {k : Kernel} (f : ℤ → Bool) (resp : Response) (s : State k)
    → Acquires k f (fds_of resp) s
    → Owed k f resp s
unfolding Owed fds_to_send
Acquired-Owed f (error_response reason) s (_, h) = h ∙ held-nil f
Acquired-Owed f (rooms_response r) s h =
    closed-sent _ f _ (fields r) s (ap (λ p. p.0) (SentRooms.encode_fds_lem r)) h
Acquired-Owed f (subspace_response r) s h =
    closed-sent _ f _ (fds_of (subspace_response r)) s
      (ap (λ p. p.0) (SentSubspace.encode_fds_lem r)) h

module _ {k : Kernel} (linux : IsLinux k) (m : Messages k) (g : Gob Response) (sm : Spacemaker)
    (conn : ℤ)
    (encodes : (resp : Response) (enc : Encoder g)
      → (msg : Bytes) × (enc' : Encoder g) × (encode g resp enc ≡ (ok msg, enc')))
    (sends : (b oob : Bytes) (w : k.World) → k.fds (m.write_msg conn b oob w).1 ≡ k.fds w) where
  send_response-Post :
      (f : ℤ → Bool) (msg : Bytes) (fds : List ℤ) (s : State k)
      → closed fds (k.fds s.world) ≡ f
      → Post (λ _. Has k f) (λ _. ⊥) (send_response k m g sm conn msg fds s)
  unfolding send_response
  send_response-Post f msg fds s h = bind-Post _ _ _ (attempt-Post _ _ sent) λ r s₁ kept.
      bind-Post _ _ _
        (for_each-Post {E = λ _. ⊥} (λ todo t. closed todo (k.fds t.world) ≡ f) (close k)
          (λ c todo t e. unfold close in returns (ap (closed todo) (linux.close_law c t.world) ∙ e))
          fds s₁ (ap (closed fds) (same r s₁ kept) ∙ h))
        λ _ s₂ h₂. returns h₂
    where
      sent :
          Post (λ _. Has k (k.fds s.world)) (Has k (k.fds s.world)) (send_with_fds m conn msg fds s)
      sent =
          unfold send_with_fds in
          unfold write in Post-either k _ _ (sends msg (m.unix_rights fds) s.world)

      same :
          (r : Outcome ℕ) (s₁ : State k)
          → Post (λ _. Has k (k.fds s.world)) (Has k (k.fds s.world)) (r, s₁)
          → k.fds s₁.world ≡ k.fds s.world
      same (ok n) s₁ (returns q) = q
      same (err e) s₁ (fails q) = q

  respond-Post :
      (f : ℤ → Bool) (enc : Encoder g) (resp : Response) (s : State k)
      → Owed k f resp s
      → Post (λ _. Has k f) (λ _. ⊥) (respond k m g sm conn enc resp s)
  unfolding respond Owed
  respond-Post f enc resp s h =
      let (msg, enc', e) = encodes resp enc in
      rw (e, respond)
        (bind-Post _ _ _ (send_response-Post f msg (fds_to_send resp) s h)
          λ goes_on s₁ h₁. returns h₁)

  subspace-Grown :
      (spaces : ℕ) (f : ℤ → Bool) (enc : Encoder g) (resp : Response) (s : State k)
      → Answered k sm spaces f resp s
      → Post (λ _. Grown k sm f) (Has k f) (respond k m g sm conn enc resp s)
  subspace-Grown spaces f enc resp s (kept, inl (launch, news), acq) =
      mono (never (respond-Post (with_all kept f) enc resp s (Acquired-Owed _ resp s acq)))
        (λ _ s' h. (kept ∷ [], ((spaces, launch), news, tt), h)) (λ _ e. e)
  subspace-Grown spaces f enc resp s (kept, inr (none_kept, _), acq) =
      mono
        (never (
          respond-Post f enc resp s (
            Acquired-Owed f resp s
              (subst (λ c. Acquires k (with_all c f) (fds_of resp) s) none_kept acq))))
        (λ _ s' h. ([], tt, h)) (λ _ e. e)

  handle-Post :
      (f : ℤ → Bool) (stdin : f (pos 0) ≡ true) (enc : Encoder g) (req : Request) (s : State k)
      → Has k f s
      → Post (λ _. Grown k sm f) (Has k f) (handle k m g sm conn enc req s)
  unfolding handle
  handle-Post f stdin enc (subspace_request spaces) s h =
      bind-Post _ _ _ (subspace-Answered linux sm spaces f stdin s h)
        λ resp s₁ a. subspace-Grown spaces f enc resp s₁ a
  handle-Post f stdin enc (rooms_request spaces) s h =
      bind-Post _ _ _ (never (room-Answers linux f stdin spaces s h)) λ resp s₁ a.
        mono (never (respond-Post f enc resp s₁ (Answers-Owed f resp s₁ a)))
          (λ _ s' h'. ([], tt, h')) (λ _ e. e)
  handle-Post f stdin enc unhandlebar_request s h = returns ([], tt, h)

  serve_round-Post :
      (f : ℤ → Bool) (stdin : f (pos 0) ≡ true) (enc : Encoder g) (round : Received) (s : State k)
      → Has k f s
      → Post (λ _. Grown k sm f) (Has k f) (serve_round k m g sm conn enc round s)
  unfolding serve_round
  serve_round-Post f stdin enc cancelled s h = returns ([], tt, h)
  serve_round-Post f stdin enc no_deadline s h = returns ([], tt, h)
  serve_round-Post f stdin enc deadline_exceeded s h = returns ([], tt, h)
  serve_round-Post f stdin enc disconnected s h = returns ([], tt, h)
  serve_round-Post f stdin enc undecodable s h = returns ([], tt, h)
  serve_round-Post f stdin enc (got_request req) s h = handle-Post f stdin enc req s h

  serve_from-Grown :
      (rounds : List Received) (f : ℤ → Bool) (stdin : f (pos 0) ≡ true) (enc : Encoder g)
      (s : State k)
      → Has k f s
      → Post (λ _. Grown k sm f) (Grown k sm f) (serve_from k m g sm conn enc rounds s)
  unfolding serve_from
  serve_from-Grown [] f stdin enc s h = returns ([], tt, h)
  serve_from-Grown (round ∷ rounds) f stdin enc s h =
      bind-Post _ _ _
        (mono (serve_round-Post f stdin enc round s h) (λ _ _ q. q) (λ s' h'. ([], tt, h')))
        λ (goes_on, enc') s₁ grown.
          next goes_on (λ h stdin'. serve_from-Grown rounds h stdin' enc') s₁ grown
    where
      next :
          {n : Act k (Unit {0})} (goes_on : Bool)
          → ((h : ℤ → Bool)
              → h (pos 0) ≡ true
              → (s₁ : State k) → Has k h s₁
              → Post (λ _. Grown k sm h) (Grown k sm h) (n s₁))
          → (s₁ : State k) → Grown k sm f s₁
          → Post
              (λ _. Grown k sm f)
              (Grown k sm f)
              (let m : Act k (Unit {0}) = elim goes_on [ true ↦ n | false ↦ pure tt ] in m s₁)
      next true rest s₁ (kepts, children, has) =
          mono (rest (with_children kepts f) (stays_open kepts f (pos 0) stdin) s₁ has)
            (λ _ s' q. Grown-more sm kepts f s' children q)
            (λ s' q. Grown-more sm kepts f s' children q)
      next false rest s₁ grown = returns grown

  -- On a kernel that keeps its documented rules, with descriptor 0 (standard input) open, if every
  -- response can be encoded and sending keeps the sender's descriptors open: whatever `Serve`
  -- meets in its rounds, and whether a call fails in them or even a panic ends it, the open
  -- descriptors at its end are those from before and what os/exec keeps open for children that were
  -- started for requests. What was made for the client was closed. (The end of a child, with which
  -- os/exec closes what it keeps, is not modelled.)
  pub serve-Grown :
      (f : ℤ → Bool) (stdin : f (pos 0) ≡ true) (rounds : List Received) (s : State k)
      → Has k f s
      → Post (λ _. Grown k sm f) (Grown k sm f) (serve k m g sm conn rounds s)
  unfolding serve
  serve-Grown f stdin rounds s h = serve_from-Grown rounds f stdin (new_encoder g) s h
