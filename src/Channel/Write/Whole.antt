-- ===== src/Channel/Write/Whole.antt =====
-- A write of data that fits one packet (channel.go, split.go).
use tru.Base.{◌≤◌, ◌≡◌, false, [], some, none, Bytes, arith, length}
use tru.Channel.Write.{
  Env, write, write_to, write_data, write_control, write_to_delay, write_to_sender, clear_split,
  parse_delivery, enqueue,
}
use tru.Channel.{Channel, new_id}
use tru.Crypt.Library.{Primitives}
use tru.Packet.{status_data}
use tru.Statistic
use tru.Split.{split_len, split_packet, split_loop}

module _ (p : Primitives) where
  pub write_whole :
      (env : Env) (bytes : Bytes) (ch : Channel)
      → length bytes ≤ split_len ch.max_data_len
      → write p env bytes [] ch ≡ some (write_to p env bytes status_data [] [] ch)
  unfolding write split_packet split_loop
  write_whole env bytes ch h = ground arith

  pub write_to-max_data_len :
      (env : Env) (bytes : Bytes) (ch : Channel)
      → (write_to p env bytes status_data [] [] ch).1.max_data_len ≡ ch.max_data_len
  unfolding write_to write_data write_control write_to_delay write_to_sender clear_split
      parse_delivery enqueue new_id
  write_to-max_data_len env bytes ch = ground arith

  pub write_to_err :
      (env : Env) (bytes : Bytes) (ch : Channel)
      → ch.stat.destroyed ≡ false
      → ((write_to p env bytes status_data [] [] ch).0.err ≡ none)
        × ((write_to p env bytes status_data [] [] ch).1.stat.destroyed ≡ false)
  unfolding write_to write_data write_control write_to_delay write_to_sender clear_split
      parse_delivery enqueue new_id Statistic.set_send Statistic.set_last_send
  write_to_err env bytes ch h = (ground arith, ground arith)
