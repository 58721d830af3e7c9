-- ===== src/Tests/ToyLink.antt =====
-- A connection with one message on it, and encoders that send a description once, for the theorems
-- on connections.
use spacetest.Base.{
  zero, suc, ℤ, pos, negsuc, Bool, true, false, List, [], ◌∷◌, ◌++◌, Outcome, none, ok, err, ◌≡◌,
  refl, sym, ap, take, ◌+◌, ◌*◌, ◌/◌, map,
}
use spacetest.Base.{contains, ◌||◌, ℕ}
use spacetest.Kernel.{State}
use spacetest.Base.{ltb}
use spacetest.Base.Decimal.{Bytes}
use spacetest.Api.{
  Request, rooms_request, subspace_request, unhandlebar_request, Response, error_response,
  rooms_response, subspace_response,
}
use spacetest.Api.Rooms.{RoomsResponse, encode_fds}
use spacetest.Uds.Messages.{ControlMessage, Messages}
use spacetest.Uds.Messages.Received.{IsUnix, Delivers, control, fit}
use spacetest.Spacer.Gobmsg.{Gob, new_encoder, new_decoder}
use spacetest.Spacer.Gobmsg.RoundTrip.{IsGob}
use spacetest.Tests.Toy.{toy, ToyWorld}
use spacetest.Tests.Witnesses.{renumber, state, world}
use spacetest.Spacer.Client.Exchange.{Client}

-- Integers as bytes, two for each.
abbrev pub cells : List ℤ → Bytes
cells [] = []
cells (pos n ∷ fds) = 0 ∷ n ∷ cells fds
cells (negsuc n ∷ fds) = 1 ∷ n ∷ cells fds

abbrev pub prepend : ℤ → Outcome (List ℤ) → Outcome (List ℤ)
prepend fd (ok fds) = ok (fd ∷ fds)
prepend fd (err e) = err e

abbrev pub uncells : Bytes → Outcome (List ℤ)
uncells [] = ok []
uncells (_ ∷ []) = err "half of an integer"
uncells (zero ∷ n ∷ b) = prepend (pos n) (uncells b)
uncells (suc _ ∷ n ∷ b) = prepend (negsuc n) (uncells b)

pub uncells-cells : (fds : List ℤ) → uncells (cells fds) ≡ ok fds
uncells-cells [] = refl
uncells-cells (pos n ∷ fds) = ap (prepend (pos n)) (uncells-cells fds)
uncells-cells (negsuc n ∷ fds) = ap (prepend (negsuc n)) (uncells-cells fds)

abbrev pub rights : List ℤ → Bytes
rights fds = 7 ∷ cells fds

abbrev pub parse : Bytes → List ControlMessage
parse [] = []
parse (_ ∷ b) = record { level = 1; typ = 1; payload = b } ∷ []

abbrev pub control_of : List ℤ → Bytes
control_of [] = []
control_of (fd ∷ fds) = rights (fd ∷ fds)

-- All that is ever read from a connection is one message.
abbrev pub link : Bytes → List ℤ → Messages toy
link b fds = record {
  write_msg = λ conn msg oob w. (ok 1, w);
  read_msg = λ conn size room w. (ok (take size b, control_of (take (fit room) fds)), w);
  set_read_deadline = λ conn w. (ok tt, w);
  unix_rights = rights;
  cmsg_space = λ n. 16 + (n + 7) / 8 * 8;
  parse_control = λ b. ok (parse b);
  parse_rights = λ cm. uncells cm.payload;
}

abbrev pub opened : List ℤ → ToyWorld → ToyWorld
opened fds w = record w { is_open = λ n. contains (pos n) fds || w.is_open n }

-- The same where the descriptors that have room are opened by the reading, under numbers that were
-- reserved for them.
abbrev pub opening : Bytes → List ℤ → Messages toy
opening b fds = record (link b fds) {
  read_msg = λ conn size room w.
      (ok (take size b, control_of (take (fit room) fds)), opened (take (fit room) fds) w);
}

pub opening-IsUnix : (b : Bytes) (fds : List ℤ) → IsUnix (opening b fds)
opening-IsUnix b fds = record {
  rights_message = λ sent. record { level = 1; typ = 1; payload = cells sent };
  parse_nothing = refl;
  parse_control_law = λ sent. refl;
  level_law = λ sent. refl;
  typ_law = λ sent. refl;
  parse_rights_law = uncells-cells;
  cmsg_space_law = λ n. refl;
}

pub control_of-control :
    (b : Bytes) (fds sent : List ℤ) → control_of sent ≡ control (opening b fds) sent
control_of-control b fds [] = refl
control_of-control b fds (fd ∷ sent) = refl

pub opening-Delivers :
    (conn : ℤ) (b : Bytes) (fds : List ℤ) (size room : ℕ) (w : ToyWorld)
    → Delivers (opening b fds) conn b fds size room w (opened (take (fit room) fds) w)
opening-Delivers conn b fds size room w =
    ap (λ c. (ok (take size b, c), opened (take (fit room) fds) w))
      (control_of-control b fds (take (fit room) fds))

-- A message of the answers, behind a description that only the first one has.
abbrev pub description : Bool → Bytes
description false = 99 ∷ []
description true = []

abbrev pub response_cells : RoomsResponse → Bytes
response_cells r = cells (r.cgroup ∷ r.ipc ∷ r.mnt ∷ r.net ∷ r.time ∷ r.uts ∷ [])

abbrev pub of_cells : Outcome (List ℤ) → Outcome Response
of_cells (ok (cgroup ∷ ipc ∷ mnt ∷ net ∷ time ∷ uts ∷ [])) = ok (
    rooms_response
      (record { cgroup = cgroup; ipc = ipc; mnt = mnt; net = net; time = time; uts = uts }))
of_cells _ = err "not a rooms response"

abbrev pub behind : Bool → Bytes → Bytes
behind true b = b
behind false [] = []
behind false (_ ∷ b) = b

abbrev pub encode_response : Response → Bool → Outcome (Unit {0}) × Bytes × Bool
encode_response (rooms_response r) sent = (ok tt, description sent ++ response_cells r, true)
encode_response (subspace_response r) sent = (err "not a rooms response", [], sent)
encode_response (error_response reason) sent = (err "not a rooms response", [], sent)

abbrev pub rooms_gob : Gob Response
rooms_gob = record {
  EncoderState = Bool;
  DecoderState = Bool;
  new_enc = false;
  new_dec = false;
  encode_value = encode_response;
  decode_value = λ b seen. (of_cells (uncells (behind seen b)), [], true);
}

abbrev pub encode_request : Request → Bytes
encode_request (rooms_request spaces) = 1 ∷ spaces ∷ []
encode_request (subspace_request spaces) = 2 ∷ spaces ∷ []
encode_request unhandlebar_request = 3 ∷ []

abbrev pub request_gob : Gob Request
request_gob = record {
  EncoderState = Unit {0};
  DecoderState = Unit {0};
  new_enc = tt;
  new_dec = tt;
  encode_value = λ req _. (ok tt, encode_request req, tt);
  decode_value = λ b _. (err "not decoded here", b, tt);
}

pub behind-description : (e : Bool) (b : Bytes) → behind e (description e ++ b) ≡ b
behind-description true b = refl
behind-description false b = refl

pub read_back :
    (r : RoomsResponse) (e d : Bool) (b : Bytes)
    → e ≡ d
    → description e ++ response_cells r ≡ b
    → of_cells (uncells (behind d b)) ≡ ok (rooms_response r)
read_back r e d b same is =
    rw
      (
        sym same,
        sym is,
        behind-description e (response_cells r),
        uncells-cells (r.cgroup ∷ r.ipc ∷ r.mnt ∷ r.net ∷ r.time ∷ r.uts ∷ []),
      )
      refl

pub rooms_next :
    (v : Response) (e e' d : Bool) (b : Bytes)
    → e ≡ d
    → encode_response v e ≡ (ok tt, b, e')
    → (d' : Bool) × (◌≡◌ {A = Outcome Response × Bytes × Bool}
        (rooms_gob.decode_value b d)
        (ok v, [], d'))
      × (e' ≡ d')
rooms_next (rooms_response r) e e' d b same h =
    let result : Outcome Response → Outcome Response × Bytes × Bool = λ o. (o, [], true) in
    (true, ap result (read_back r e d b same (ap (λ x. x.1) h)), sym (ap (λ x. x.2) h))
rooms_next (subspace_response r) e e' d b same h = absurd cc
rooms_next (error_response reason) e e' d b same h = absurd cc

pub rooms_gob-IsGob : IsGob rooms_gob
rooms_gob-IsGob = record { Synced = λ e d. e ≡ d; new_Synced = refl; next_Synced = rooms_next }

abbrev pub client : Client request_gob rooms_gob
client = record {
  conn = pos 2;
  enc = new_encoder request_gob;
  dec = new_decoder rooms_gob;
  writers = record { stdout = none; stderr = none };
  pid = pos 0;
}

-- A process in which the descriptors that are to arrive are not open yet.
abbrev pub before : ℕ → (ℕ → ℕ × ℕ) → State toy
before next refs = record state {
  world = record world { next_fd = next; is_open = λ n. ltb n 3; reference = refs };
}

-- The same after they arrived.
abbrev pub after : List ℤ → State toy → State toy
after fds s = record s { world = opened fds s.world }

-- A connection with an answer on it.
abbrev pub answering : RoomsResponse → Messages toy
answering r = opening (99 ∷ response_cells r) (map renumber (encode_fds r).0)
