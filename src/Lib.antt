-- ===== src/Lib.antt =====
-- Verification of tru, a library that carries reliable, ordered and encrypted packets over UDP.
--
-- A connector (Tru) owns a UDP socket and a map of channels by address. A handshake of four
-- packets opens a channel and leaves both ends with one session key. Data written to a channel is
-- split, numbered, encrypted, kept in a send queue and handed to the sender; a timer sends again
-- what is not acked. The other end acks each data packet, puts the packets back in order through a
-- receive queue, combines the split ones and passes them to the reader. Statistics count what
-- happens and close a channel that is silent.
--
-- The modules, and the code each is about:
--   Base          the shared names: Boolean tests, lists, maps, little-endian numbers
--   Packet        packet.go: Packet, MarshalBinary, UnmarshalBinary, distance and the setters
--   Split         split.go: splitPacket and combinePacket
--   SendQueue     send_queue.go, and setRetransmitTime of channel.go
--   Receive       receive_queue.go, and the data branch of serve in tru.go
--   Channel       channel.go: Channel, newChannel, newID, newExpectedID, setTripTime, destroy
--   Channel.Write channel.go: writeTo, writeToDelay, WriteTo, Close and the control packets
--   Crypt         crypt.go: the session cipher and the RSA boxes
--   Connect       connect.go: connectPacketData and the answers of the handshake
--   Connector     tru.go, channel.go: the map of channels, the connections that are waited for
--   Connector.Handshake  connect.go: Connect and serve
--   Connector.Serve      tru.go: serve, the handler of a datagram
--   Connector.Loops      tru.go: readerProccess, senderProccess and Close
--   Channel.Retransmit   send_queue.go: a run of the retransmit timer on a channel
--   Transfer      the writes of a sender and what its receiver makes of them
--   Network       both ends of a channel, and every interleaving of writes, retransmits, arrivals of
--                 packets, and acks
--   Network.Duplex       both directions of a channel, and a program that answers what it reads
--   Network.Session      a handshake and what is then written over its channels
--   Net.Delivery, Net.Conversation  from the reader's process through a connection to its program
--   Net.Trunet.Build     tru_net_debug.go, tru_net_stat.go: what the build tags choose
--   Examples      examples/trunet, tru, conn and getch: the sample programs
--   Connector.New        tru.go: New and its parameters
--   Connector.Socket     tru.go, channel.go: the listening loop, WriteTo and WriteToPunch
--   Connector.Rows       statistic.go: the rows of the printed statistic and its frame
--   Net           tru_net.go: Conn with Read, Write and Close
--   Net.Trunet    tru_net.go: Listen, Dial, Accept and the connector they share
--   Hotkey        hotkey/hotkey.go: the keys of a menu, its loop and its help text
--   Hotkey.Menu   hotkey.go: the menu of a connector
--   Terminal      term/term.go: escape sequences and key codes
--   Terminal.System      term/term.go, term_unix.go, term_windows.go and the other systems: the modes of
--                 a terminal, and Getch
--   Speed, Statistic, StatisticLog  speed.go, statistic.go, statistic_log.go
--   Teolog        teolog/teolog.go: the levels of the logger, their names, and its filter
--   Tests         the theorems at concrete inputs
--
-- How the state is modelled. A struct is a record with the fields of the source, a method a function
-- from state to state. Times are nanoseconds; the time, random numbers, and readings that another
-- goroutine makes are arguments. Locks are left out: a function stands for the code under one lock
-- or in one handler. The channels between goroutines are lists: what is sent to the sender and to
-- the reader is kept in order, and so are callbacks that are called. A pointer to a packet in the
-- send queue is an element number, a pointer to a channel its address.
--
-- Cryptography, hashes and key encoding are Go's. They are the record Crypt.Library.Primitives, and
-- Crypt.Library.IsSound states what their documentation says: sizes, and that opening undoes
-- sealing. Tests.Toy is an instance of both. The capacity that append gives a full slice
-- is the runtime's, and an argument of Connector.Rows.
--
-- Bounds and fuel. Packet ids have 20 bits and wrap around, statuses 8, header words 32. The loops
-- of splitPacket, of the receive queue, of encrypt and of decrypt run on fuel: each round takes a
-- byte or a packet away, and the callers give the length or one more.
--
-- Not modelled: the socket itself, the system calls of the terminal and its size, which are
-- arguments where they are used, the layout of the statistic's table, the samples that only print,
-- profiles and signals, and messages that are only printed. A write of the modules Network is of a
-- message that fits one packet, as Net.Writing has it of a connection. A text is its bytes, and
-- its white space and letters are those of ASCII. The sleeps in writeToDelay have no effect on the
-- state.
pub mod Base
pub mod Channel
pub mod Connect
pub mod Connector
pub mod Crypt
pub mod Examples
pub mod Hotkey
pub mod Net
pub mod Network
pub mod Packet
pub mod Receive
pub mod SendQueue
pub mod Speed
pub mod Split
pub mod Statistic
pub mod StatisticLog
pub mod Teolog
pub mod Terminal
mod Tests
pub mod Transfer
