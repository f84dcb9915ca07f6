-- ===== src/Lib.antt =====
-- quic-hop: a UDP transport for QUIC whose server changes its address and port with each time slot,
-- and whose short-header packets carry their connection ID (CID) hidden.
--
-- The Go package pkg/magic has these parts. `algo.go` derives the server's address from the time,
-- and hides a 16-byte CID in place: a 16-bit seed, then 7 of the CID's bytes mixed with noise at
-- shuffled bit positions. `session.go` keeps the CIDs that a peer is known by, found by the whole CID
-- or by its first 7 bytes. `conn.go` puts a `net.PacketConn` on top: `WriteTo` counts the packets of
-- a CID and hides it from the eleventh on, `ReadFrom` restores it, and the server hops from port to
-- port. The server keeps a CID cache for each client address; a client keeps one. `calibration.go` finds
-- out for the client when a packet will arrive by the server's clock.
--
-- The two programs measure transfers over it. server/main.go and client/main.go are the two ends of a
-- task on one stream: an upload or a download, then the speed and the loss that each end saw. With
-- `-auto` each of them goes through a list of slot durations, twenty tasks in each. The server writes
-- its results to a file, with the CPU share and the memory that pkg/cpumon sampled meanwhile.
--
-- The files, and the code each is about:
--   Config                pkg/magic/config.go, constants and variables; the variables are one record.
--   Algo/Fnv, Algo/Rng    pkg/magic/algo.go: `sharedSecretHash`, `SimpleRNG`. `MathRand` is the part
--                         of Go's math/rand that the code calls, a parameter of what uses it.
--   Algo/Shuffle          the swap loops of `precomputeIndices` and `GenerateMask`.
--   Algo/Indices          `precomputeIndices`, `shuffledIndices`.
--   Algo/Codec            `Obfuscate`, `Deobfuscate`, `Matches`, and `BytesEqual` of conn.go.
--   Algo/Mask             `GenerateMask` and its cache.
--   Session               pkg/magic/session.go: `CIDCache`, `ServerSessionMap`. The two maps of a
--                         cache share entries by pointer, so that entries stand in a store.
--                         Session/Added is about the caches that `AddReal` makes from a new one.
--   Clock                 `GetAddressByTime`, `GetNextHopDelay`.
--   Conn/Packet, /Read    pkg/magic/conn.go: `ReadFrom`. `handle_packet` is the method after the
--                         queue has given a packet, `read_from` the `select` before it.
--   Conn/Pump             `packetPump`, a goroutine for each socket, whose read and whose `select` are
--                         two steps, and the queue that `ReadFrom` takes from.
--   Conn/Write            `WriteTo` up to the send (`prepare`), and `clientWrite`.
--   Conn/Sockets          `NewServerConn`, `NewClientConn`, `hop`, `LocalAddr`, `Close`.
--   Conn/Sockets/Lifecycle  the goroutines that open and close sockets, as a step relation: a step of
--                         `hop` for each span between two changes of its lock, `Close`, the delayed
--                         close of an old port, and the end of the hopping loop.
--   Conn/Timers           `serverHoppingLoop` and `StartPeriodicCalibration`.
--   Calibration           pkg/magic/calibration.go: the reply to one datagram, and `SyncWithServer`.
--   Calibration/Listening `StartCalibrationServer`: one buffer for all datagrams.
--   Conn/Conversation     a client's `WriteTo` and the server's `ReadFrom`, one after the other.
--   Conn/Network          the same over a network: an arrival is a copy of a sent packet, of any
--                         number in any order and as often as may be, or a packet from elsewhere;
--                         each packet has its own first byte; and back from the server, from any of its ports.
--   Conn/CidGenerator     pkg/magic/tls.go: `FixedBytesGenerator`.
--   Conn/Rendezvous       a calibrated client's `clientWrite` and a server's hops together.
--   Task                  server/main.go and client/main.go: a task as the tree of the calls that it
--                         makes on its stream, and the loops that receive and send the content.
--   Task/Server           `handleSingleTask`, `runUploadTask`, `runDownloadTask` of the server.
--   Task/Client           `runUploadTask`, `runDownloadTask` of the client.
--   Task/Loss             the counters of sent and lost packets, with the `switch` on an event's type
--                         and the test of its packet's type, and `lossPercentage`.
--   Task/Tracing          `lossTrace` and `lossRecorder`, around quic-go's tracer, a parameter.
--   Task/Run, Task/Talk   a task run on one end of a stream, and the two ends in turn.
--   Auto                  `runAutoSlots`, `serveOnce` and `performTransferTasks`: both programs' loops
--                         over slots and tasks as automata over what their calls come back with.
--   Report                `appendResultsCSV`, on the contents of the file.
--   Client                client/main.go: `main`, `runAutoSlots`, `runClientOnce`,
--                         `performTransferTasks`, `dialOnce` as the lists of their calls that
--                         calibrate, sleep, open and close; Client/Automaton ties them to Auto.
--   Serving/Once          server/main.go: `main`, `runAutoSlots`, `serveOnce`, `handleConn`,
--                         `startProcessMonitor` as the lists of their calls that take and give back.
--   Programs              the flags of both programs, and texts and sizes derived from constants;
--                         Programs/SyncTool is sync.go.
--   Serving               `handleConn`: a task, its result, and its line in the file.
--   Cpumon                pkg/cpumon/cpumon.go: `readProcStat`, `readTotalJiffies`, `readCPURaw`, the
--                         ticks of the process monitor and `AverageBetween`; Cpumon/Log is
--                         `Monitor` with `readMemRaw`, Cpumon/Setup the files that it opens.
--   Strconv, Floats       what these use of Go's strconv and bytes, on ASCII text, where no other
--                         white space of Unicode occurs; `float64`, which is a parameter.
--   Base                  lists, bits, words, association lists and tests that the parts share;
--                         Base/Ledger audits lists of calls by what they take and give back.
--   Tests                 the theorems at concrete inputs.
--
-- Numbers are natural numbers. A `byte`, `uint16` or `uint64` is one with its wrap-around written
-- out, a length is one without it, a signed hash is its bit pattern, a moment is nanoseconds since the
-- epoch, not before it. `none` of an `Option` result is a panic, or in Cpumon, but not in Cpumon/Log,
-- an error. A method that holds its lock throughout is one step. A `map` is an association list, a
-- `net.Addr` the text it prints as, and a socket is the number it was made under with the address it
-- is bound to.
--
-- Loops are recursion on a list or on the number of rounds left. That number is fixed by the code (3, 7,
-- 56, 64, 112, 128 or 65536), so that no round can be missing, but for two: the loops over a transfer's
-- content have as many rounds as there are bytes still expected or still to send, which is enough
-- since each round but the last takes a byte or more, and where they run out the task is `endless`; and
-- a number is written in 20 digits at most, which is enough below 10^20.
--
-- A panic for want of memory is the parameter `allocatable`. A stream's `Write` fails or takes all it is
-- given; a `Read` gives one byte or more of those that arrived.
--
-- A run of a program over a list of what its calls meet ends in `none` where the list does: the
-- program is still at it then.
--
-- Not modelled: sockets and the network, whose results are arguments; Go's math/rand, crypto/rand,
-- quic-go's tracer and `float64`, parameters; the making of the TLS certificate; the settings that
-- are only handed to quic-go, and what the programs print.
mod Base
pub mod Config
pub mod Algo
pub mod Session
pub mod Client
pub mod Clock
pub mod Conn
pub mod Calibration
pub mod Floats
pub mod Task
pub mod Auto
pub mod Strconv
pub mod Cpumon
pub mod Report
pub mod Serving
pub mod Programs
mod Tests
