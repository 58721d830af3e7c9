-- ===== src/Spacer/Gobmsg/RoundTrip.antt =====
-- A sequence of values through an `Encoder` and a `Decoder`.
use spacetest.Base.{
  ℕ, ◌≤◌, ltb, take-append, length-append, length-drop, false, List, [], ◌∷◌, Outcome, ok, err,
  ◌++◌, drop, zero, suc, ◌≡◌, refl, ap, map, length, All, arith,
}
use spacetest.Base.Decimal.{Bytes}
use spacetest.Spacer.Gobmsg.{
  Gob, blocksize, Encoder, Decoder, new_encoder, encode, finish, new_decoder, fill_buffer, decode,
  zeroes,
}

-- The documentation of encoding/gob: an encoder and a decoder that have seen the same stream stay
-- in step, and the decoder makes of what the encoder wrote the value that was encoded.
pub record IsGob {A : Type 0} (g : Gob A) : Type 1 where
  pub Synced : g.EncoderState → g.DecoderState → Type 0
  pub new_Synced : Synced g.new_enc g.new_dec
  pub next_Synced :
      (v : A) (e e' : g.EncoderState) (d : g.DecoderState) (b : Bytes)
      → Synced e d
      → g.encode_value v e ≡ (ok tt, b, e')
      → (d' : g.DecoderState) × (g.decode_value b d ≡ (ok v, [], d')) × Synced e' d'

-- Values that are encoded one after the other, none of them failing, and the messages they become.
pub data Sent {A : Type 0} (g : Gob A) : List A → Encoder g → List Bytes → Type 0 where
  nothing : {e : Encoder g} → Sent g [] e []
  next :
      {v : A} {vs : List A} {e e' : Encoder g} {b : Bytes} {bs : List Bytes}
      → encode g v e ≡ (ok b, e')
      → Sent g vs e' bs
      → Sent g (v ∷ vs) e (b ∷ bs)

module _ {A : Type 0} (g : Gob A) where
  -- The values that messages become, each received into the decoder's buffer.
  unfoldable pub decode_all : List Bytes → Decoder g → List (Outcome A)
  decode_all [] d = []
  decode_all (b ∷ bs) d =
      let (r, d') = decode g (length b) (fill_buffer g b d) in r ∷ decode_all bs d'

length-zeroes : (n : ℕ) → length (zeroes n) ≡ n
unfolding zeroes
length-zeroes zero = refl
length-zeroes (suc n) = omega (arith, length-zeroes n)

ltb-false : (m n : ℕ) → n ≤ m → ltb m n ≡ false
ltb-false m n h = ground arith

module _ {A : Type 0} {g : Gob A} (gob : IsGob g) where
  abbrev pub IsReady : Encoder g → Decoder g → Type 0
  IsReady e d = gob.Synced e.enc d.dec × (length d.buff ≡ blocksize)

  encode-ok :
      (v : A) (e e' : Encoder g) (b : Bytes)
      → encode g v e ≡ (ok b, e')
      → g.encode_value v e.enc ≡ (ok tt, b, e'.enc)
  unfolding encode
  encode-ok v e e' b h =
      let (result, written, enc) = g.encode_value v e.enc in go result written enc h
    where
      go :
          (x : Outcome (Unit {0})) (w : Bytes) (enc : g.EncoderState)
          → finish g x (record { buff = w; enc = enc }) ≡ (ok b, e')
          → ◌≡◌ {A = Outcome (Unit {0}) × Bytes × g.EncoderState} (x, w, enc) (ok tt, b, e'.enc)
      go (ok u) w enc h = cc
      go (err reason) w enc h = absurd cc

  pub decode-encode :
      (v : A) (e e' : Encoder g) (d : Decoder g) (b : Bytes)
      → IsReady e d
      → encode g v e ≡ (ok b, e')
      → length b ≤ blocksize
      → (d' : Decoder g) × (decode g (length b) (fill_buffer g b d) ≡ (ok v, d')) × IsReady e' d'
  unfolding decode fill_buffer
  decode-encode v e e' d b (synced, room) encoded fits =
      let (dec, decoded, synced') =
        gob.next_Synced v e.enc e'.enc d.dec b synced (encode-ok v e e' b encoded) in
      (
        record { buff = b ++ drop (length b) d.buff; r = []; dec = dec },
        rw (len, ltb-false _ _ fits, take-append b (drop (length b) d.buff), decoded) refl,
        (synced', len),
      )
    where
      len : length (b ++ drop (length b) d.buff) ≡ blocksize
      len = omega (arith, length-append b (drop (length b) d.buff), length-drop (length b) d.buff)

  decodes :
      {vs : List A} {e : Encoder g} {bs : List Bytes} (d : Decoder g)
      → IsReady e d
      → Sent g vs e bs
      → All (λ b. length b ≤ blocksize) bs
      → decode_all g bs d ≡ map ok vs
  unfolding decode_all
  decodes d ready nothing _ = refl
  decodes d ready (next {v = v} encoded rest) (fits, all_fit) =
      let (d', decoded, ready') = decode-encode _ _ _ d _ ready encoded fits in
      rw decoded (ap (λ rs. ok v ∷ rs) (decodes d' ready' rest all_fit))

  pub new-IsReady : IsReady (new_encoder g) (new_decoder g)
  unfolding new_encoder new_decoder
  new-IsReady = (gob.new_Synced, length-zeroes blocksize)

  -- Values that a new encoder encodes one after the other, none of them failing, are what a new
  -- decoder decodes from their messages, one after the other, if no message is longer than the
  -- decoder's buffer: whatever the buffer still holds of the longer message before is not read.
  pub decode_all-encode :
      {vs : List A} {bs : List Bytes}
      → Sent g vs (new_encoder g) bs
      → All (λ b. length b ≤ blocksize) bs
      → decode_all g bs (new_decoder g) ≡ map ok vs
  decode_all-encode sent all_fit = decodes (new_decoder g) new-IsReady sent all_fit
