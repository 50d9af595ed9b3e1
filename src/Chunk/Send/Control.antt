-- ===== src/Chunk/Send/Control.antt =====
-- What a user control message carries.
use lssvc.Common.{ap, arith, false, refl, ℕ, ◌==◌, ◌≡◌, ◌≢◌}
use lssvc.Bytes.{write_uint16, write_uint32}
use lssvc.Chunk.Send.{
  Outbound, command_packet, push_out_queue, send_user_ctrl_message, set_buffer_length,
  user_ctrl_body,
}

typ_lost :
    (typ typ' value1 value2 : ℕ)
    → (typ == set_buffer_length) ≡ false
    → (typ' == set_buffer_length) ≡ false
    → user_ctrl_body typ value1 value2 ≡ user_ctrl_body typ' value1 value2
unfolding user_ctrl_body write_uint16 write_uint32
typ_lost typ typ' value1 value2 e e' = rw (e, e') refl

-- The type of a user control message is not on the wire: whatever two types are sent with the same
-- values, none of them that of a buffer length, the same nodes are put down.
pub send_user_ctrl_message-typ :
    (o : Outbound) (typ typ' value1 value2 : ℕ)
    → typ ≢ set_buffer_length
    → typ' ≢ set_buffer_length
    → send_user_ctrl_message o typ value1 value2 ≡ send_user_ctrl_message o typ' value1 value2
unfolding send_user_ctrl_message
send_user_ctrl_message-typ o typ typ' value1 value2 h h' =
    ap (λ b. push_out_queue o (command_packet 4 b))
      (typ_lost typ typ' value1 value2 (differs typ h) (differs typ' h'))
  where
    differs : (t : ℕ) → t ≢ set_buffer_length → (t == set_buffer_length) ≡ false
    differs t n = ground (arith, n)
