-- ===== src/Service/Serve.antt =====
-- `Serve` (spacer/service/service.go), with the `Spacemaker` as its spacer. Logging is left out.
-- What comes from the context and the connection in each round of the loop is a list, and the loop
-- ends with it.
pub mod Children
pub mod Leaks
pub mod Stops
use spacetest.Service.Subspace.{Spacemaker}
use spacetest.Base.{
  ℤ, Bool, true, false, List, [], ◌∷◌, Outcome, ok, err, pure, attempt, for_each, ◌>>=◌, ◌>>◌,
}
use spacetest.Kernel.{Kernel}
use spacetest.Kernel.Calls.{Act, close}
use spacetest.Api.{
  Request, subspace_request, rooms_request, unhandlebar_request, Response, error_response,
  subspace_response, rooms_response,
}
use spacetest.Api.Rooms
use spacetest.Api.Subspace
use spacetest.Base.Decimal.{Bytes}
use spacetest.Uds.Messages.{Messages, send_with_fds}
use spacetest.Spacer.Gobmsg.{Gob, Encoder, new_encoder, encode}
use spacetest.Service.Room.{room}
use spacetest.Service.Subspace.{subspace}

-- What one round meets: the context is done, the deadline cannot be set, the deadline passed, the
-- client is gone or the receiving failed, the message cannot be decoded, or there is a request.
pub data Received : Type 0 where
  cancelled : Received
  no_deadline : Received
  deadline_exceeded : Received
  disconnected : Received
  undecodable : Received
  got_request : Request → Received

-- the descriptors of a response that is an `FdsEncoder`
unfoldable pub fds_to_send : Response → List ℤ
fds_to_send (error_response reason) = []
fds_to_send (subspace_response r) = (Subspace.encode_fds r).0
fds_to_send (rooms_response r) = (Rooms.encode_fds r).0

abbrev succeeded : {A : Type 0} → Outcome A → Bool
succeeded (ok _) = true
succeeded (err _) = false

module _ (k : Kernel) (m : Messages k) (g : Gob Response) (sm : Spacemaker) (conn : ℤ) where
  -- from the sending on; whether the loop goes on
  unfoldable pub send_response : Bytes → List ℤ → Act k Bool
  send_response msg fds = do
    r ← attempt (send_with_fds m conn msg fds)
    for_each fds (close k)
    pure (succeeded r)

  -- Whether the loop goes on, and the encoder.
  abbrev pub Round : Type 0
  Round = Bool × Encoder g

  -- from the encoding on
  unfoldable pub respond : Encoder g → Response → Act k Round
  respond enc resp =
      let (encoded, enc') = encode g resp enc in
      elim encoded [
        | err e ↦ pure (false, enc')
        | ok msg ↦ send_response msg (fds_to_send resp) >>= λ goes_on. pure (goes_on, enc')
      ]

  -- the `switch` over the request
  unfoldable pub handle : Encoder g → Request → Act k Round
  handle enc (subspace_request spaces) = subspace k sm spaces >>= respond enc
  handle enc (rooms_request spaces) = room k spaces >>= respond enc
  handle enc unhandlebar_request = pure (false, enc)

  -- one round of the loop
  unfoldable pub serve_round : Encoder g → Received → Act k Round
  serve_round enc cancelled = pure (false, enc)
  serve_round enc no_deadline = pure (false, enc)
  serve_round enc deadline_exceeded = pure (true, enc)
  serve_round enc disconnected = pure (false, enc)
  serve_round enc undecodable = pure (false, enc)
  serve_round enc (got_request req) = handle enc req

  unfoldable pub serve_from : Encoder g → List Received → Act k (Unit {0})
  serve_from enc [] = pure tt
  serve_from enc (round ∷ rounds) = do
    (goes_on, enc') ← serve_round enc round
    elim goes_on [ true ↦ serve_from enc' rounds | false ↦ pure tt ]

  -- `Serve`
  unfoldable pub serve : List Received → Act k (Unit {0})
  serve = serve_from (new_encoder g)
