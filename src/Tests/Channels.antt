-- ===== src/Tests/Channels.antt =====
-- Writing to a channel.
use tru.Base.{false, [], ◌∷◌}
use tru.Channel.Write.{Env}
use tru.Channel.{Channel, new_channel}
use tru.Statistic
use tru.Tests.Toy.{zeros}

abbrev pub client : Channel
client = new_channel 100 (1 ∷ []) false 15 0

abbrev pub env : Env
env = record { now = 200; nonce = zeros 12; polls = []; dropped = false }
