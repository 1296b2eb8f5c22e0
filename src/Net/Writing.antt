-- ===== src/Net/Writing.antt =====
-- Writing to a connection what fits one packet (tru_net.go).
use tru.Base.{
  [], ℕ, ◌≤◌, ◌≡◌, refl, false, if◌then◌else◌, is_some, Option, none, some, Bytes, length,
}
use tru.Channel.Write.Whole.{write_whole, write_to_err}
use tru.Channel.Write.{Env, write_to}
use tru.Channel.{Channel}
use tru.Crypt.Library.{Primitives}
use tru.Net.{Conn, ConnError, write_failed, write_conn}
use tru.Packet.{status_data}
use tru.Split.{split_len}

-- Whatever a write to a channel that data fits gives, the connection has the written channel.
pub write_conn_whole :
    (p : Primitives) (env : Env) (bytes : Bytes) (ch : Channel) (c : Conn)
    → c.ch ≡ some ch
    → length bytes ≤ split_len ch.max_data_len
    → (r : ℕ × Option ConnError) × (write_conn p env bytes c
        ≡ some (record c { ch = some (write_to p env bytes status_data [] [] ch).1 }, r.0, r.1))
unfolding write_conn
write_conn_whole p env bytes ch c there fits =
    let done_ = write_to p env bytes status_data [] [] ch in
    (
      (
        if is_some done_.0.err then 0 else length bytes,
        if is_some done_.0.err then some write_failed else none,
      ),
      rw (there, write_conn) (rw (write_whole p env bytes ch fits) refl),
    )

pub write_conn_alive :
    (p : Primitives) (env : Env) (bytes : Bytes) (ch : Channel) (c : Conn)
    → c.ch ≡ some ch
    → length bytes ≤ split_len ch.max_data_len
    → ch.stat.destroyed ≡ false
    → write_conn p env bytes c
      ≡ some
          (record c { ch = some (write_to p env bytes status_data [] [] ch).1 }, length bytes, none)
unfolding write_conn
write_conn_alive p env bytes ch c there fits alive =
    let (sent, _) = write_to_err p env bytes ch alive in
    rw (there, write_conn) (rw (write_whole p env bytes ch fits) (rw sent refl))
