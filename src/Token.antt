-- ===== src/Token.antt =====
-- internal/store/token.go: checkpoint tokens, base64url over the JSON of a payload. `encoding/json`
-- is a parameter, with its documented behaviour on a payload of plain text and int64 numbers.
pub mod Base64
pub mod Laws
use tmux_pane_control.Prelude.{
  ℕ, ◌<◌, ◌≡◌, Option, none, some, Bytes, Result, ok, err, ◌>>=◌, of_option,
}
use tmux_pane_control.Prelude.Int64.{two64}
use tmux_pane_control.Token.Base64.{Below, encode_to_string, decode_string}

-- `tokenPayload`: controller instance, pane, stream offset and mint time (int64 bit patterns).
pub record TokenPayload : Type 0 where
  pub i : Bytes
  pub p : Bytes
  pub o : ℕ
  pub t : ℕ

-- Text that JSON keeps as it is, byte by byte, and numbers that an int64 holds.
pub record IsPlain (tp : TokenPayload) : Type 0 where
  pub instance_plain : Below 128 tp.i
  pub pane_plain : Below 128 tp.p
  pub offset_int64 : tp.o < two64
  pub time_int64 : tp.t < two64

-- `json.Marshal` and `json.Unmarshal` at `tokenPayload`.
pub record Json : Type 0 where
  pub marshal : TokenPayload → Bytes
  pub unmarshal : Bytes → Option TokenPayload
  pub marshal_bytes : (tp : TokenPayload) → IsPlain tp → Below 256 (marshal tp)
  pub unmarshal-marshal : (tp : TokenPayload) → IsPlain tp → unmarshal (marshal tp) ≡ some tp
  pub unmarshal_int64 :
      (raw : Bytes) {tp : TokenPayload} → unmarshal raw ≡ some tp → (tp.o < two64) × (tp.t < two64)

-- The errors of internal/store: those of token.go and `ErrPaneUnknown`.
pub data StoreError : Type 0 where
  pane_unknown token_malformed token_wrong_instance token_wrong_pane token_evicted : StoreError

module _ (json : Json) where
  unfoldable pub encode_token : Bytes → Bytes → ℕ → ℕ → Bytes
  encode_token instance_id pane offset minted_at =
      encode_to_string
        (json.marshal (record { i = instance_id; p = pane; o = offset; t = minted_at }))

  unfoldable pub decode_token : Bytes → Result StoreError TokenPayload
  decode_token after = do
    raw ← of_option token_malformed (decode_string after)
    of_option token_malformed (json.unmarshal raw)
