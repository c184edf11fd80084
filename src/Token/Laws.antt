-- ===== src/Token/Laws.antt =====
-- Tokens decode to what they were made of.
use tmux_pane_control.Prelude.{ℕ, ◌≡◌, Bytes, ok}
use tmux_pane_control.Token.Base64.{decode-encode}
use tmux_pane_control.Token.{IsPlain, Json, encode_token, decode_token}

-- A token that was minted for plain text and int64 numbers decodes to its four parts.
pub decode_token-encode_token :
    (json : Json) (instance_id pane : Bytes) (offset minted_at : ℕ)
    → IsPlain (record { i = instance_id; p = pane; o = offset; t = minted_at })
    → decode_token json (encode_token json instance_id pane offset minted_at)
      ≡ ok (record { i = instance_id; p = pane; o = offset; t = minted_at })
unfolding encode_token decode_token
decode_token-encode_token json instance_id pane offset minted_at plain =
    rw (decode-encode _ (json.marshal_bytes _ plain), json.unmarshal-marshal _ plain)
