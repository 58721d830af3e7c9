-- ===== src/Service/Serve/Stops.antt =====
-- When the loop of `Serve` ends.
use spacetest.Service.Subspace.{Spacemaker}
use spacetest.Base.{
  Bool, true, false, List, [], ◌∷◌, ◌++◌, ok, ◌≡◌, refl, ap, sym, fun_ext, ◌∙◌, ◌>>=◌, pure, ℤ,
}
use spacetest.Base.Post.{bind-ok}
use spacetest.Uds.Messages.{Messages}
use spacetest.Spacer.Gobmsg.{Gob, Encoder, new_encoder}
use spacetest.Kernel.{Kernel, State}
use spacetest.Kernel.Calls.{Act}
use spacetest.Api.{Response, unhandlebar_request, subspace_request, rooms_request}
use spacetest.Service.Serve.{
  Received, cancelled, no_deadline, deadline_exceeded, disconnected, undecodable, got_request,
  handle, serve_round, serve, serve_from,
}

-- A round that ends the loop whatever the service does: a cancelled context, a deadline that cannot
-- be set, a client that is gone, a message that cannot be decoded or is of no known kind.
abbrev pub Stops : Received → Type 0
Stops cancelled = Unit
Stops no_deadline = Unit
Stops disconnected = Unit
Stops undecodable = Unit
Stops (got_request unhandlebar_request) = Unit
Stops _ = ⊥

module _ (k : Kernel) (m : Messages k) (g : Gob Response) (sm : Spacemaker) (conn : ℤ) where
  serve_round-Stops :
      (enc : Encoder g) (r : Received) (s : State k)
      → Stops r
      → serve_round k m g sm conn enc r s ≡ (ok (false, enc), s)
  unfolding serve_round handle
  serve_round-Stops enc cancelled s _ = refl
  serve_round-Stops enc no_deadline s _ = refl
  serve_round-Stops enc deadline_exceeded s h = absurd h
  serve_round-Stops enc disconnected s _ = refl
  serve_round-Stops enc undecodable s _ = refl
  serve_round-Stops enc (got_request unhandlebar_request) s _ = refl
  serve_round-Stops enc (got_request (subspace_request n)) s h = absurd h
  serve_round-Stops enc (got_request (rooms_request n)) s h = absurd h

  -- What `serve_from` does after a round.
  abbrev go_on : List Received → Bool × Encoder g → Act k (Unit {0})
  go_on rounds (goes_on, enc) = elim goes_on [
    | true ↦ serve_from k m g sm conn enc rounds
    | false ↦ pure tt
  ]

  go_on_same :
      (rounds rounds' : List Received)
      → ((enc : Encoder g)
          → serve_from k m g sm conn enc rounds ≡ serve_from k m g sm conn enc rounds')
      → (p : Bool × Encoder g) → go_on rounds p ≡ go_on rounds' p
  go_on_same rounds rounds' same (true, enc) = same enc
  go_on_same rounds rounds' same (false, enc) = refl

  stop_lem :
      (enc : Encoder g) (r : Received) (rounds : List Received) (s : State k)
      → Stops r
      → (serve_round k m g sm conn enc r >>= go_on rounds) s ≡ (ok tt, s)
  stop_lem enc r rounds s stops = bind-ok _ _ s s (false, enc) (serve_round-Stops enc r s stops)

  Stops-from :
      (before : List Received) (r : Received) (after : List Received) (enc : Encoder g)
      (s : State k)
      → Stops r
      → serve_from k m g sm conn enc (before ++ r ∷ after) s
        ≡ serve_from k m g sm conn enc (before ++ r ∷ []) s
  unfolding serve_from
  Stops-from [] r after enc s stops = stop_lem enc r after s stops ∙ sym (stop_lem enc r [] s stops)
  Stops-from (x ∷ before) r after enc s stops =
      ap (λ f. (serve_round k m g sm conn enc x >>= f) s)
        (fun_ext (
          go_on_same (before ++ r ∷ after) (before ++ r ∷ [])
            (λ enc'. fun_ext λ t. Stops-from before r after enc' t stops)))

  -- The loop of `Serve` ends with a round in which the context is cancelled, the deadline cannot be
  -- set, the client is gone, or the message cannot be decoded or is of no known kind: what would
  -- come after it is not looked at, whatever came before it.
  pub serve-Stops :
      (before : List Received) (r : Received) (after : List Received) (s : State k)
      → Stops r
      → serve k m g sm conn (before ++ r ∷ after) s ≡ serve k m g sm conn (before ++ r ∷ []) s
  unfolding serve
  serve-Stops before r after s stops = Stops-from before r after (new_encoder g) s stops
