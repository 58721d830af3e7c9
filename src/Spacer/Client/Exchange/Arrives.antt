-- ===== src/Spacer/Client/Exchange/Arrives.antt =====
-- What `do` makes of the service's answer.
use spacetest.Base.{
  ℕ, ◌≤◌, ℤ, List, [], not, false, String, ok, ◌≡◌, refl, ap, ◌∙◌, take, length, map, take_all,
  expect, arith,
}
use spacetest.Base.Decimal.{Bytes}
use spacetest.Base.Post.{bind-ok, expecting-bind}
use spacetest.Kernel.{Kernel, State}
use spacetest.Api.{Request, rooms_request, Response, rooms_response}
use spacetest.Api.Rooms.{RoomsResponse, encode_fds, decode_fds}
use spacetest.Api.Rooms.Arrives.{IsTypedFirst, arrived, decode_fds-arrived}
use spacetest.Uds.Messages.{Messages, write, set_deadline, send_with_fds, receive_with_fds}
use spacetest.Uds.Messages.Received.{IsUnix, Delivers, receive_with_fds-take}
use spacetest.Spacer.Gobmsg.{Gob, Encoder, Decoder, encode, decode, fill_buffer}
use spacetest.Spacer.Gobmsg.RoundTrip.{IsGob, IsReady, decode-encode}
use spacetest.Spacer.Gobmsg.{blocksize}
use spacetest.Spacer.Client.Exchange.{Client, given, take_fds, have_failed, do_request, do_rooms}

module _ {k : Kernel} (m : Messages k) where
  send_lem :
      (conn : ℤ) (b : Bytes) (fds : List ℤ) (s : State k) (n : ℕ) (w : k.World)
      → m.write_msg conn b (m.unix_rights fds) s.world ≡ (ok n, w)
      → send_with_fds m conn b fds s ≡ (ok n, record s { world = w })
  unfolding send_with_fds write
  send_lem conn b fds s n w h = rw h refl

  deadline_lem :
      (conn : ℤ) (s : State k) (w : k.World)
      → m.set_read_deadline conn s.world ≡ (ok tt, w)
      → set_deadline m conn s ≡ (ok tt, record s { world = w })
  unfolding set_deadline
  deadline_lem conn s w h = rw h refl

take_rooms :
    (k : Kernel) (renumber : ℤ → ℤ) (n : ℕ) (r : RoomsResponse) (s : State k)
    → IsTypedFirst k s renumber n r
    → take_fds k (rooms_response r) (take n (map renumber (encode_fds r).0)) s
      ≡ (ok (rooms_response (arrived renumber n r)), s)
unfolding take_fds
take_rooms k renumber n r s typed =
    bind-ok (decode_fds k (take n (map renumber (encode_fds r).0)) r) _ s s _
      (decode_fds-arrived k s renumber n r typed)

expect_no_failure :
    {S : Type 0} (resp : Response) (message : String) (s : S)
    → have_failed resp ≡ false
    → expect (not (have_failed resp)) message s ≡ (ok tt, s)
unfolding expect
expect_no_failure resp message s h = rw h refl

module _ {k : Kernel} {m : Messages k} {g_req : Gob Request} {g_resp : Gob Response}
    (unix : IsUnix m) where
  pub do_request_lem :
      (c : Client g_req g_resp) (req : Request) (resp resp' : Response) (fds : List ℤ)
      (s s' : State k)
      → (msg b : Bytes) (c_enc : Encoder g_req) (c_dec : Decoder g_resp) (n : ℕ)
        (w₁ w₂ w₃ : k.World)
      → encode g_req req c.enc ≡ (ok msg, c_enc)
      → m.write_msg c.conn msg (m.unix_rights []) s.world ≡ (ok n, w₁)
      → m.set_read_deadline c.conn w₁ ≡ (ok tt, w₂)
      → length b ≤ length c.dec.buff
      → Delivers m c.conn b fds (length c.dec.buff) (m.cmsg_space 12) w₂ w₃
      → decode g_resp (length b) (fill_buffer g_resp b c.dec) ≡ (ok resp, c_dec)
      → have_failed resp ≡ false
      → take_fds k resp (take 4 fds) (record s { world = w₃ }) ≡ (ok resp', s')
      → do_request k m c req s ≡ (ok (record c { enc = c_enc; dec = c_dec }, resp'), s')
  unfolding do_request expect
  do_request_lem c req resp resp' fds s s' msg b c_enc c_dec n w₁ w₂ w₃ encoded sent set fits
        delivers decoded succeeds taken =
      let s₁ : State k = record s { world = w₁ } in
      let s₂ : State k = record s { world = w₂ } in
      let s₃ : State k = record s { world = w₃ } in
      rw encoded (
        expecting-bind (given k (ok msg)) _ _ s s msg refl
        ∙ expecting-bind _ _ _ s s₁ n (send_lem m c.conn msg [] s n w₁ sent)
        ∙ expecting-bind _ _ _ s₁ s₂ tt (deadline_lem m c.conn s₁ w₂ set)
        ∙ expecting-bind _ _ _ s₂ s₃ (b, take 4 fds) (received s₂ delivers)
        ∙ rw decoded (
            expecting-bind (given k (ok resp)) _ _ s₃ s₃ resp refl
            ∙ bind-ok (expect (not (have_failed resp)) _) _ s₃ s₃ tt
                (expect_no_failure resp _ s₃ succeeds)
            ∙ bind-ok _ _ s₃ s' resp' taken))
    where
      received :
          (t : State k)
          → Delivers m c.conn b fds (length c.dec.buff) (m.cmsg_space 12) t.world w₃
          → receive_with_fds m c.conn (length c.dec.buff) 3 t
            ≡ (ok (b, take 4 fds), record t { world = w₃ })
      received t delivers =
          (receive_with_fds-take unix c.conn (length c.dec.buff) 3 b fds t w₃ delivers).0
          ∙ ap (λ x. (ok (x, take 4 fds), record t { world = w₃ })) (take_all _ b fits)

module _ {k : Kernel} {m : Messages k} {g_req : Gob Request} {g_resp : Gob Response}
    (unix : IsUnix m) (gob : IsGob g_resp) where
  pub do_rooms-arrived :
      (c : Client g_req g_resp) (spaces : ℕ) (renumber : ℤ → ℤ) (r : RoomsResponse) (s : State k)
      → (msg b : Bytes) (c_enc : Encoder g_req) (s_enc s_enc' : Encoder g_resp) (n : ℕ)
      → (w₁ w₂ w₃ : k.World) → encode g_req (rooms_request spaces) c.enc ≡ (ok msg, c_enc)
      → m.write_msg c.conn msg (m.unix_rights []) s.world ≡ (ok n, w₁)
      → m.set_read_deadline c.conn w₁ ≡ (ok tt, w₂)
      → IsReady gob s_enc c.dec
      → encode g_resp (rooms_response r) s_enc ≡ (ok b, s_enc')
      → length b ≤ blocksize
      → Delivers m c.conn b
          (map renumber (encode_fds r).0)
          (length c.dec.buff)
          (m.cmsg_space 12)
          w₂
          w₃
      → IsTypedFirst k (record s { world = w₃ }) renumber 4 r
      → (c' : Client g_req g_resp) × (do_rooms k m c spaces s
          ≡ (ok (c', arrived renumber 4 r), record s { world = w₃ }))
        × IsReady gob s_enc' c'.dec
  unfolding do_rooms have_failed
  do_rooms-arrived c spaces renumber r s msg b c_enc s_enc s_enc' n w₁ w₂ w₃ encoded sent set ready
        answered fits delivers typed =
      let (c_dec, decoded, ready') =
        decode-encode gob (rooms_response r) s_enc s_enc' c.dec b ready answered fits in
      let s₃ : State k = record s { world = w₃ } in
      let done =
        do_request_lem unix c (rooms_request spaces) (rooms_response r)
          (rooms_response (arrived renumber 4 r)) (map renumber (encode_fds r).0) s s₃ msg b c_enc
          c_dec n w₁ w₂ w₃ encoded sent set (omega (arith, ready.1)) delivers decoded refl
          (take_rooms k renumber 4 r s₃ typed) in
      (record c { enc = c_enc; dec = c_dec }, bind-ok _ _ s s₃ _ done, ready')
