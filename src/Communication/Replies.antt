-- ===== src/Communication/Replies.antt =====
-- src/communication/communication/communication.cpp: the size of the replies, and the reply to
-- TCP_GET_CFG.
use rpi_tcp_listener.Base.{
  ℕ, zero, suc, ◌≡◌, refl, ◌∙◌, some, [], ◌∷◌, ◌++◌, length, drop, append-nil,
}
use rpi_tcp_listener.Base.Text.{Bytes}
use rpi_tcp_listener.Base.Decimal.{print_nat}
use rpi_tcp_listener.Config.{config_file, file_block, read_blocks, get_config_from_file}
use rpi_tcp_listener.Communication.{Env, Communication, handle_get_cfg, reply, error_code_ok}

pub read_blocks_empty :
    (fuel : ℕ) (content stream : Bytes) → read_blocks fuel content stream ≡ stream
unfolding read_blocks
read_blocks_empty zero content stream = refl
read_blocks_empty (suc fuel) [] stream = refl
read_blocks_empty (suc fuel) (c ∷ s) stream =
    read_blocks_empty fuel (drop file_block (c ∷ s)) (stream ++ []) ∙ append-nil stream

-- TCP_GET_CFG never sends the configuration: when the file can be read, whatever it holds, the
-- reply announces 0 bytes, has an empty text and error code 0.
pub handle_get_cfg_empty :
    (env : Env) (c : Communication) (content : Bytes)
    → c.files.read config_file ≡ some content
    → handle_get_cfg env c ≡ (c, reply c (print_nat 0 ∷ [] ∷ []) error_code_ok)
unfolding handle_get_cfg
handle_get_cfg_empty env c content e =
    let stream = read_blocks_empty (length content) content [] in
    rw (get_config_from_file, e, stream) refl
