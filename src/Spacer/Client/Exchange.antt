-- ===== src/Spacer/Client/Exchange.antt =====
-- `do` of spacer/client.go: a request to the service and its response, over the connection and with
-- the client's encoder and decoder; and the matcher `HaveFailed` (spacer/api/have_failed_matcher.go).
pub mod Arrives
pub mod Rooms
pub mod Made
use spacetest.Base.{
  ℕ, ℤ, List, [], ◌∷◌, Bool, true, false, not, Option, Outcome, pure, raise, expecting, expect,
  ◌>>=◌, ◌>>◌, length,
}
use spacetest.Kernel.{Kernel}
use spacetest.Kernel.Calls.{Act}
use spacetest.Api.{
  Request, subspace_request, rooms_request, Response, error_response, subspace_response,
  rooms_response,
}
use spacetest.Api.Rooms as RoomsApi
use spacetest.Api.Rooms.{RoomsResponse}
use spacetest.Api.Subspace
use spacetest.Api.Subspace.{SubspaceResponse}
use spacetest.Uds.Messages.{Messages, set_deadline, send_with_fds, receive_with_fds}
use spacetest.Spacer.Gobmsg.{Gob, Encoder, Decoder, encode, fill_buffer, decode}

-- `HaveFailed`
unfoldable pub have_failed : Response → Bool
have_failed (error_response reason) = true
have_failed (subspace_response r) = false
have_failed (rooms_response r) = false

-- the two writers for the service's output that options set: each a number of its own, if it is set
pub record Writers : Type 0 where
  pub stdout : Option ℕ
  pub stderr : Option ℕ

-- `Client`
pub record Client (g_req : Gob Request) (g_resp : Gob Response) : Type 0 where
  pub conn : ℤ
  pub enc : Encoder g_req
  pub dec : Decoder g_resp
  pub writers : Writers
  pub pid : ℤ

module _ (k : Kernel) where
  -- A result that comes without touching the state.
  abbrev pub given : {A : Type 0} → Outcome A → Act k A
  given r s = (r, s)

  -- the descriptors go to a response that is an `FdsDecoder`
  unfoldable pub take_fds : Response → List ℤ → Act k Response
  take_fds (error_response reason) [] = pure (error_response reason)
  take_fds (error_response reason) (fd ∷ fds) = raise "service received fds when it shouldn't"
  take_fds (subspace_response r) fds =
      Subspace.decode_fds k fds r >>= λ r'. pure (subspace_response r')
  take_fds (rooms_response r) fds = RoomsApi.decode_fds k fds r >>= λ r'. pure (rooms_response r')

  module _ (m : Messages k) {g_req : Gob Request} {g_resp : Gob Response} where
    -- `Client.do`, with the client that it leaves
    unfoldable pub do_request :
        Client g_req g_resp → Request → Act k (Client g_req g_resp × Response)
    do_request c req = do
      let (encoded, enc) = encode g_req req c.enc
      msg ← expecting (given encoded) "cannot encode request"
      _ ← expecting (send_with_fds m c.conn msg []) "cannot send request"
      expecting (set_deadline m c.conn) "cannot receive response"
      (b, fds) ←
          expecting (receive_with_fds m c.conn (length c.dec.buff) 3) "cannot receive response"
      let (decoded, dec) = decode g_resp (length b) (fill_buffer g_resp b c.dec)
      resp ← expecting (given decoded) "cannot decode response"
      expect (not (have_failed resp)) "service failed"
      resp' ← take_fds resp fds
      pure (record c { enc = enc; dec = dec }, resp')

    -- `do` for a RoomsResponse
    unfoldable pub do_rooms : Client g_req g_resp → ℕ → Act k (Client g_req g_resp × RoomsResponse)
    do_rooms c spaces = do
      (c', resp) ← do_request c (rooms_request spaces)
      elim resp [ rooms_response r ↦ pure (c', r) | _ ↦ raise "not a rooms response" ]

    -- `do` for a SubspaceResponse
    unfoldable pub do_subspace :
        Client g_req g_resp → ℕ → Act k (Client g_req g_resp × SubspaceResponse)
    do_subspace c spaces = do
      (c', resp) ← do_request c (subspace_request spaces)
      elim resp [ subspace_response r ↦ pure (c', r) | _ ↦ raise "not a subspace response" ]
