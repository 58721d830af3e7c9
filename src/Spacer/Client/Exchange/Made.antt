-- ===== src/Spacer/Client/Exchange/Made.antt =====
-- `Rooms` of a client together with `Room` of the service that answers it.
use spacetest.Base.{
  ℕ, ◌≤◌, ℤ, pos, Bool, [], ◌∷◌, List, true, false, not, ◌==◌, bit_and, ok, ◌≡◌, refl, sym, subst,
  ap, ◌∙◌, length, map, All, positive, contains, arith, ==ℤ_refl, Bool-cases, inl, inr,
}
use spacetest.Base.Decimal.{Bytes}
use spacetest.Base.Post.{Post, returns}
use spacetest.Spaces.{
  clone_newcgroup, clone_newipc, clone_newns, clone_newnet, clone_newtime, clone_newuts,
}
use spacetest.Kernel.{Kernel, State}
use spacetest.Kernel.Laws.{IsLinux}
use spacetest.Api.{Request, rooms_request, Response, rooms_response}
use spacetest.Api.Rooms.{RoomsResponse, encode_fds}
use spacetest.Api.Rooms.Transfer.{IsTyped, received, encode_fds_lem}
use spacetest.Api.Fds.Laws.{contains-open_ones, carried}
use spacetest.Uds.Messages.{Messages}
use spacetest.Uds.Messages.Received.{IsUnix, Delivers}
use spacetest.Spacer.Gobmsg.{Gob, Encoder, blocksize, encode}
use spacetest.Spacer.Gobmsg.RoundTrip.{IsGob, IsReady}
use spacetest.Spacer.Client.{rooms, rooms_spaces}
use spacetest.Spacer.Client.Asks.{rooms_spaces-requested}
use spacetest.Spacer.Client.Registers.{registered, all_open}
use spacetest.Spacer.Client.Exchange.{Client}
use spacetest.Spacer.Client.Exchange.Rooms.{asking, rooms-received}
use spacetest.Service.Room.{room}
use spacetest.Service.Room.Fills.{Origin, Unused, InUse, Holding, Filled}
use spacetest.Service.Room.Steps.{IsComplete}
use spacetest.Service.Room.Complete.{Fulfils, room-Fulfils}

-- What a field of the client's answer holds, by what the client was asked for.
abbrev pub Grant : (k : Kernel) → (ℕ → ℕ → ℕ) → ℕ → Origin → Bool → ℤ → k.World → Type 0
Grant k all typ from true fd w = Holding k typ from all fd w
Grant k all typ from false fd w = fd ≡ pos 0

pub record IsGranted (k : Kernel) (all : ℕ → ℕ → ℕ) (cgroup ipc mnt net time uts : Bool)
    (r : RoomsResponse) (w : k.World) : Type 0 where
  pub cgroup_of : Grant k all clone_newcgroup (Unused clone_newcgroup) cgroup r.cgroup w
  pub ipc_of : Grant k all clone_newipc (Unused clone_newipc) ipc r.ipc w
  pub mnt_of : Grant k all clone_newns (Unused clone_newns) mnt r.mnt w
  pub net_of : Grant k all clone_newnet (Unused clone_newnet) net r.net w
  pub time_of : Grant k all clone_newtime (InUse clone_newtime) time r.time w
  pub uts_of : Grant k all clone_newuts (Unused clone_newuts) uts r.uts w

-- Descriptors that were sent from one process to another arrive as ones of the same namespaces.
abbrev pub Passed : (k k' : Kernel) → (ℤ → ℤ) → List ℤ → k'.World → k.World → Type 0
Passed k k' renumber sent w' w =
    (j : ℤ)
    → contains j sent ≡ true
    → (k.fds w (renumber j) ≡ true)
      × (k.nstype (renumber j) w ≡ ok (k'.refers w' j).0)
      × (k.refers w (renumber j) ≡ k'.refers w' j)

-- Descriptor 0 is of no namespace, and no descriptor is negative.
abbrev pub HasInput : (k : Kernel) → k.World → Type 0
HasInput k w = (j : ℤ) → positive j ≡ false → (k.refers w j).0 ≡ 0

module _ (k k' : Kernel) (all : ℕ → ℕ → ℕ) (spaces : ℕ) (renumber : ℤ → ℤ) (sent : List ℤ)
    (w' : k'.World) (w : k.World) (passed : Passed k k' renumber sent w' w)
    (input : HasInput k' w') where
  field-typed :
      (typ : ℕ) (from : Origin) (fd : ℤ)
      → Filled k' all typ from spaces fd w'
      → contains fd sent ≡ positive fd
      → positive fd ≡ true
      → k.nstype (renumber fd) w ≡ ok typ
  field-typed typ from fd (held, unused) among p = elim (Bool-cases (bit_and spaces typ == 0)) [
    | inl unrequested ↦
        absurd (let e : positive fd ≡ false = ap positive (unused unrequested) in cc)
    | inr requested ↦
        let (_, ns, _, is) = held requested in (passed fd (among ∙ p)).1 ∙ ap (λ r. ok r.0) is
  ]

  field-Grant :
      (typ : ℕ) (from : Origin) (fd : ℤ) (flag : Bool)
      → (typ == 0) ≡ false
      → Filled k' all typ from spaces fd w'
      → (bit_and spaces typ == 0) ≡ not flag
      → contains fd sent ≡ positive fd
      → Grant k all typ from flag (carried renumber fd) w
  field-Grant typ from fd false real (held, unused) asked among = rw (unused asked) refl
  field-Grant typ from fd true real (held, unused) asked among =
      let (_, ns, origin, is) = held asked in
      elim (Bool-cases (positive fd)) [
        | inl p ↦
            let (is_open, _, same) = passed fd (among ∙ p) in rw p (is_open, ns, origin, same ∙ is)
        | inr c ↦ absurd (let e : typ ≡ 0 = ap (λ r. r.0) (sym is) ∙ input fd c in ground arith)
      ]

all_fields : RoomsResponse → List ℤ
all_fields r = r.cgroup ∷ r.ipc ∷ r.mnt ∷ r.net ∷ r.time ∷ r.uts ∷ []

-- A field is sent if and only if it is open.
field_sent :
    (r : RoomsResponse) (fd : ℤ)
    → contains fd (all_fields r) ≡ true
    → contains fd (encode_fds r).0 ≡ positive fd
unfolding all_fields
field_sent r fd among =
    rw encode_fds_lem (contains-open_ones (all_fields r) fd ∙ ground (arith, among))

sent_fields :
    (r : RoomsResponse) → All (λ fd. contains fd (encode_fds r).0 ≡ positive fd) (all_fields r)
unfolding all_fields
sent_fields r = (
  field_sent r r.cgroup (ground (arith, ==ℤ_refl r.cgroup)),
  (
    field_sent r r.ipc (ground (arith, ==ℤ_refl r.ipc)),
    (
      field_sent r r.mnt (ground (arith, ==ℤ_refl r.mnt)),
      (
        field_sent r r.net (ground (arith, ==ℤ_refl r.net)),
        (
          field_sent r r.time (ground (arith, ==ℤ_refl r.time)),
          (field_sent r r.uts (ground (arith, ==ℤ_refl r.uts)), tt),
        ),
      ),
    ),
  ),
)

room-IsComplete :
    {k' : Kernel} (linux : IsLinux k') (spaces : ℕ) (t t' : State k') (r : RoomsResponse)
    → room k' spaces t ≡ (ok (rooms_response r), t')
    → IsComplete k' (k'.attached t.world) spaces r t'.world
room-IsComplete {k'} linux spaces t t' r answered = go (
    subst (Post (Fulfils k' (k'.attached t.world) spaces) (λ _. ⊥)) answered
      (room-Fulfils linux spaces t))
  where
    go :
        Post (Fulfils k' (k'.attached t.world) spaces) (λ _. ⊥) (ok (rooms_response r), t')
        → IsComplete k' (k'.attached t.world) spaces r t'.world
    go (returns complete) = complete

module _ (k k' : Kernel) (all : ℕ → ℕ → ℕ) (renumber : ℤ → ℤ) (r : RoomsResponse) (s : State k)
    (w' : k'.World) (passed : Passed k k' renumber (encode_fds r).0 w' s.world)
    (input : HasInput k' w') where
  complete-IsTyped : (spaces : ℕ) → IsComplete k' all spaces r w' → IsTyped k s renumber r
  unfolding all_fields
  complete-IsTyped spaces c =
      let typed = field-typed k k' all spaces renumber (encode_fds r).0 w' s.world passed input in
      let (cgroup, (ipc, (mnt, (net, (time, (uts, _)))))) = sent_fields r in
      record {
        cgroup = typed _ (Unused clone_newcgroup) r.cgroup c.cgroup cgroup;
        ipc = typed _ (Unused clone_newipc) r.ipc c.ipc ipc;
        mnt = typed _ (Unused clone_newns) r.mnt c.mnt mnt;
        net = typed _ (Unused clone_newnet) r.net c.net net;
        time = typed _ (InUse clone_newtime) r.time c.time time;
        uts = typed _ (Unused clone_newuts) r.uts c.uts uts;
      }

  complete-IsGranted :
      (cgroup ipc mnt net time uts : Bool)
      → IsComplete k' all (rooms_spaces cgroup ipc mnt net time uts) r w'
      → IsGranted k all cgroup ipc mnt net time uts (received renumber r) s.world
  unfolding all_fields
  complete-IsGranted cgroup ipc mnt net time uts c =
      let spaces : ℕ = rooms_spaces cgroup ipc mnt net time uts in
      let grant = field-Grant k k' all spaces renumber (encode_fds r).0 w' s.world passed input in
      let (cgroup_sent, (ipc_sent, (mnt_sent, (net_sent, (time_sent, (uts_sent, _)))))) =
        sent_fields r in
      let (_, _, cgroup_asked, ipc_asked, mnt_asked, net_asked, time_asked, uts_asked) =
        rooms_spaces-requested cgroup ipc mnt net time uts in
      record {
        cgroup_of =
            grant _ (Unused clone_newcgroup) r.cgroup cgroup refl c.cgroup cgroup_asked cgroup_sent;
        ipc_of = grant _ (Unused clone_newipc) r.ipc ipc refl c.ipc ipc_asked ipc_sent;
        mnt_of = grant _ (Unused clone_newns) r.mnt mnt refl c.mnt mnt_asked mnt_sent;
        net_of = grant _ (Unused clone_newnet) r.net net refl c.net net_asked net_sent;
        time_of = grant _ (InUse clone_newtime) r.time time refl c.time time_asked time_sent;
        uts_of = grant _ (Unused clone_newuts) r.uts uts refl c.uts uts_asked uts_sent;
      }

module _ {k k' : Kernel} {m : Messages k} {g_req : Gob Request} {g_resp : Gob Response}
    (linux : IsLinux k') (unix : IsUnix m) (gob : IsGob g_resp) (c : Client g_req g_resp)
    (renumber : ℤ → ℤ) (r : RoomsResponse) (s : State k) (t t' : State k') (msg b : Bytes)
    (c_enc : Encoder g_req) (s_enc s_enc' : Encoder g_resp) (n : ℕ) (w₁ w₂ w₃ : k.World)
    (cgroup ipc mnt net time uts : Bool)
    (encoded : encode g_req (rooms_request (rooms_spaces cgroup ipc mnt net time uts)) c.enc
      ≡ (ok msg, c_enc))
    (sent : m.write_msg c.conn msg (m.unix_rights []) s.world ≡ (ok n, w₁))
    (set : m.set_read_deadline c.conn w₁ ≡ (ok tt, w₂))
    (served : room k' (rooms_spaces cgroup ipc mnt net time uts) t ≡ (ok (rooms_response r), t'))
    (ready : IsReady gob s_enc c.dec)
    (answered : encode g_resp (rooms_response r) s_enc ≡ (ok b, s_enc'))
    (fits : length b ≤ blocksize) (few : length (encode_fds r).0 ≤ 4)
    (delivers : Delivers m c.conn b
      (map renumber (encode_fds r).0)
      (length c.dec.buff)
      (m.cmsg_space 12)
      w₂
      w₃)
    (passed : Passed k k' renumber (encode_fds r).0 t'.world w₃)
    (input : HasInput k' t'.world) where
  -- Let the request be encoded and sent, let the service, on a kernel that keeps its documented
  -- rules, run `Room` with the flags of the request and answer with a rooms response of at most four
  -- descriptors, let no descriptor of the service be negative, and its descriptor 0 be of no
  -- namespace; let the encoder of the service be in step with the client's decoder, and the encoded
  -- response, of at most 8192 bytes, be the next message on the connection, with the descriptors of
  -- `EncodeFds` as ones of the same namespaces under the caller's numbers. Then `Rooms` returns, for
  -- each type that was asked for, an open descriptor of a namespace of this type, to which no thread
  -- of the service was attached when it began to answer (for a time namespace: to which one was),
  -- and 0 for each other type. Exactly these descriptors are registered to be closed.
  pub rooms-room :
      (rooms k (asking m c) cgroup ipc mnt net time uts s ≡ (
        ok (received renumber r),
        registered k (all_open (received renumber r)) (record s { world = w₃ }),
      ))
      × IsGranted k (k'.attached t.world) cgroup ipc mnt net time uts (received renumber r) w₃
  rooms-room =
      let spaces : ℕ = rooms_spaces cgroup ipc mnt net time uts in
      let s₃ : State k = record s { world = w₃ } in
      let complete = room-IsComplete linux spaces t t' r served in
      (
        rooms-received unix gob c renumber r s msg b c_enc s_enc s_enc' n w₁ w₂ w₃ sent set ready
            answered fits delivers
            (complete-IsTyped k k' (k'.attached t.world) renumber r s₃ t'.world passed input spaces
              complete)
            cgroup ipc mnt net time uts encoded few,
        complete-IsGranted k k' (k'.attached t.world) renumber r s₃ t'.world passed input cgroup ipc
            mnt net time uts complete,
      )
