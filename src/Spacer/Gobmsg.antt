-- ===== src/Spacer/Gobmsg.antt =====
-- `Encoder` and `Decoder` of spacer/gobmsg/gobmsg.go, over encoding/gob, which is an interface.
pub mod RoundTrip
use spacetest.Base.{
  ℕ, zero, suc, ◌∷◌, [], ◌++◌, Outcome, ok, err, take, drop, length, ltb, if◌then◌else◌,
}
use spacetest.Base.Decimal.{Bytes}

-- gob.Encoder and gob.Decoder, which keep the types that they have sent and received
pub record Gob (A : Type 0) : Type 1 where
  pub EncoderState : Type 0
  pub DecoderState : Type 0
  pub new_enc : EncoderState
  pub new_dec : DecoderState
  -- Encode: the result, what was written, the encoder afterwards
  pub encode_value : A → EncoderState → Outcome (Unit {0}) × Bytes × EncoderState
  -- Decode: the result, what is left in the reader, the decoder afterwards
  pub decode_value : Bytes → DecoderState → Outcome A × Bytes × DecoderState

abbrev pub blocksize : ℕ
blocksize = 8192

unfoldable pub zeroes : ℕ → Bytes
zeroes zero = []
zeroes (suc n) = 0 ∷ zeroes n

-- `Encoder`
pub record Encoder {A : Type 0} (g : Gob A) : Type 0 where
  pub buff : Bytes
  pub enc : g.EncoderState

-- `Decoder`
pub record Decoder {A : Type 0} (g : Gob A) : Type 0 where
  pub buff : Bytes
  pub r : Bytes
  pub dec : g.DecoderState

module _ {A : Type 0} (g : Gob A) where
  -- `NewEncoder`
  unfoldable pub new_encoder : Encoder g
  new_encoder = record { buff = []; enc = g.new_enc }

  -- the end of `Encode`
  abbrev pub finish : Outcome (Unit {0}) → Encoder g → Outcome Bytes × Encoder g
  finish (ok _) e = (ok e.buff, e)
  finish (err reason) e = (err reason, e)

  -- `Encode`; a bytes.Buffer takes what is written to it at its end.
  unfoldable pub encode : A → Encoder g → Outcome Bytes × Encoder g
  encode v e =
      let reset : Encoder g = record e { buff = [] } in
      let (result, written, enc) = g.encode_value v reset.enc in
      finish result (record { buff = reset.buff ++ written; enc = enc })

  -- `NewDecoder`
  unfoldable pub new_decoder : Decoder g
  new_decoder = record { buff = zeroes blocksize; r = zeroes blocksize; dec = g.new_dec }

  -- What a read leaves in the slice that `Buffer` returns.
  unfoldable pub fill_buffer : Bytes → Decoder g → Decoder g
  fill_buffer b d = record d { buff = b ++ drop (length b) d.buff }

  -- `Decode`; a slice beyond the capacity of the buffer panics.
  unfoldable pub decode : ℕ → Decoder g → Outcome A × Decoder g
  decode n d =
      if ltb (length d.buff) n
      then (err "slice bounds out of range", d)
      else let (result, rest, dec) = g.decode_value (take n d.buff) d.dec in
        (result, record d { r = rest; dec = dec })
