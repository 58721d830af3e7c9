-- ===== src/Api.antt =====
-- The messages between a spacer client and a spacer service (spacer/api). The descriptors of a
-- response travel beside the message, and its fields are zeroed meanwhile.
pub mod Fds
pub mod Rooms
pub mod Subspace
use spacetest.Base.{ℕ, String}
use spacetest.Api.Rooms.{RoomsResponse}
use spacetest.Api.Subspace.{SubspaceResponse}

-- `Request`, by the pointers that are registered with gob, and the one that is not
pub data Request : Type 0 where
  subspace_request : ℕ → Request
  rooms_request : ℕ → Request
  unhandlebar_request : Request

-- `Response`
pub data Response : Type 0 where
  error_response : String → Response
  subspace_response : SubspaceResponse → Response
  rooms_response : RoomsResponse → Response
