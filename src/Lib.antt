-- ===== src/Lib.antt =====
-- The authentication server of mmo_wow (Server/, C++): what a connection to it may do.
--
-- A client connects, its address is checked, and it sends a logon challenge with a login. The
-- answer of the database yields an SRP6 object and a challenge; the client answers with a proof, by
-- which it is authenticated, and may then ask for the list of realms. A client with a session key may
-- reconnect instead. The server stands on sockets that send packets in order, on a queue between
-- threads, on a master secret for the TOTP secrets, and on a database that it brings up to date when it
-- starts; these are modelled too, with the texts that they read.
--
-- Files, and the sources they model:
--   Prelude and its children: numbers, lists, machine words (`size_t` is a number modulo 2 ^ 64),
--     bytes, bits, and errors as values: an exception, a failed ASSERT, an access outside the storage
--     of a buffer or through a null pointer is an `Error` of `Prelude.Outcome`.
--   MessageBuffer: Server/Common/Utilities/MessageBuffer.h, the read and write buffers of a socket.
--     Each operation is a function of the same name; `memmove` and `memcpy` are `read_at` and
--     `write_at`, which fail outside the storage. MessageBuffer.Window sees it as a queue of bytes,
--     MessageBuffer.Compact treats Normalize and EnsureFreeSpace.
--   ByteBuffer: Server/Shared/Packets/ByteBuffer.h and .cpp, the packets; ByteBuffer.Stream sees
--     one as a list of bytes. ByteBuffer.Guid: packed GUIDs.
--   Crypto, Crypto.Srp6, Crypto.Totp: Server/Common/Cryptography, with the functions of OpenSSL as
--     the fields of a record. Crypto.Verify treats one response,
--     Crypto.Client the server's side against that of a client; Interleave and Powers serve it.
--   Realm: Server/Shared/Realm (GetBuildInfo, GetAddressForClient) and
--     Server/AuthServer/Authentication/AuthCodes.cpp.
--   Realm.Update, Realm.Builds: RealmList::UpdateRealms and LoadBuildInfo.
--   Timer, Timer.Elapsed: Server/Common/Utilities/Timer.h.
--   Socket: the write side of Server/Shared/Networking/Socket.h: HandleQueue, Update and the handlers,
--     where `Sent` is what `write_some` does. Socket.Stream: the bytes that wait. Events: the steps of a
--     socket. Drain: how its queue runs empty.
--   Mpsc: Server/Common/Threading/MPSCQueue.h, the queue without locks, as steps of its threads on a
--     shared memory. Inv: the invariant. Begin, Finish, Take: that the steps keep it. Fifo: the values.
--   Secrets: Server/Shared/Secrets/SecretMgr.cpp. Cipher: Server/Common/Cryptography/CryptoGenerics.h,
--     Load: AttemptLoad. Whether the transaction that a transition enqueues succeeds is an
--     input, which nothing but the database depends on. Recode: the accounts. Load.Outcome, Load.Again: what a load leaves.
--   Util, Util.Time: Tokenize, RemoveCRLF and the texts of times in Server/Common/Utilities/Util.cpp.
--     Util.Split, Util.Time.Round treat them. Util.Hex: bytes as text and back.
--     Util.Money: MoneyStringToMoney. Util.Number: StringTo of Server/Common/Utilities/StringConvert.h.
--   IpLocation: Server/Common/IPLocation/IPLocation.cpp. Loaded, Lookup: the table and its records.
--   Updater: Server/database/Updater/UpdateFetcher.cpp, Update. Decide: which files are run. Follow:
--     the loop over them. Table: the rows. Settle and its children: what the loop
--     leaves in them.
--   Auth: Server/AuthServer/Server/AuthSession.h and .cpp with the read side of
--     Server/Shared/Networking/Socket.h.
--     Protocol, Code: commands, sizes and codes.
--     Session: the state, SendPacket, AsyncRead. `Env` has the configuration, the realm list and the
--       functions of other libraries.
--     Challenge: HandleLogonChallenge, HandleReconnectChallenge and their callbacks.
--     Proof: HandleLogonProof, HandleReconnectProof, VerifyVersion.
--     RealmReply: HandleRealmList, RealmListCallback.
--     Reader: ReadHandler. `command_of` is `Handlers.find`, `round` one round of its loop.
--     Step: the events of a session as a step relation, and what can be reached.
--     Status, Queued: what each handler leaves alone. Phase, Rounds, Invariant: the phases of a
--       session. Loop: termination. Login, Safety: what it takes to be let in. Dead: sessions
--       that are closed. Bounds: the size of a challenge. Listed: the realms. Verdict: the answer
--       to a logon challenge.
--   Workers: Server/Common/Threading/ProducerConsumerQueue.h and
--     Server/database/Database/DatabaseWorker.cpp. Steps: the threads in any order. Wakeup, Served,
--     Once, Closing: that none sleeps too long, the order of the operations, how often each is
--     executed, and the end of the workers.
--   Query: Server/database/Database/QueryCallback.cpp. Typed, Acts: the unions, and the operations on
--     them. Moves: a query that is moved. Chain, Polls: the functions that are called with the results.
--   Transaction: Server/database/Database/Transaction.cpp, ExecuteTransaction of MySQLConnection.cpp
--     and DirectCommitTransaction of DatabaseWorkerPool.cpp. Bracket: what is sent. Retry: the attempts.
--   Pool: Server/database/Database/DatabaseWorkerPool.cpp. Free: the choice of a connection. Reopen: a
--     second call of Open. Loader: Server/database/Database/DatabaseLoader.cpp.
--   Network: Server/Shared/Networking/NetworkThread.h, SocketMgr.h and AsyncAcceptor.h, over an
--     interface of sockets, which Plain fills with Socket. Server: the acceptor and the threads.
--     Server/AuthServer/Server/AuthSocketMgr.h starts them; the array that CreateThreads makes has a
--     length of its own. Counted, Fewest, Sound, Spread: the count of a thread, the choice among them,
--     and all of them together.
--   Log: Server/Common/Logging. Configure: appenders and loggers from the configuration. Loggers: the
--     search for a logger. Lowest, Leveled, Exact: the lowest level, and what is logged.
--   Tests: the theorems at concrete values.
--
-- A query to the database is an entry of `queries`, and its answer an event, which takes the first
-- entry off. Statements that change the database are recorded in `statements`. Random bytes, the time
-- and the rows of an answer are inputs. A `Session` has the members of `Socket` and `AuthSession`; its
-- write queue is only appended to, since the sending of the packets, which Socket treats, changes
-- nothing else that AuthSession reads.
--
-- ReadHandler runs on fuel. Every packet that is handled lowers the rank of the status, which is 2 at
-- most, so that a fuel of 3 is enough for every session and all bytes. The loop of ReadCString has the
-- size of the packet as its fuel, since each round reads a byte.
--
-- The loop of Update has as fuel the number of packets, each call that goes on takes one away; those
-- of Tokenize and of the table of addresses have one more than the length of the text, and each round
-- takes at least one character. GetLoggerByType has two more than the length of the name, whose
-- parents are shorter, up to the root; the attempts of a transaction have one more than the number
-- after which the clock is past a minute; GetFreeConnection tries 255 connections. A `uint64` has 20 decimal digits, and 8 bytes in its packed form.
--
-- Not modelled: the write side of Socket under IOCP, the packed dates and coordinates of ByteBuffer,
-- the hotfix letters of builds, the rest of Util, the reading of directories by the updater, the output
-- of the appenders, the run of an io_context, the queries of the pool,
-- LockedQueue, which the server does not use. The connections to the database, OpenSSL, argon2, boost
-- and the vendored libraries are parameters, or stand behind the events.
mod Prelude
pub mod MessageBuffer
pub mod Network
pub mod ByteBuffer
pub mod Crypto
pub mod Log
pub mod Query
pub mod Realm
pub mod Timer
pub mod Socket
pub mod Mpsc
pub mod Secrets
pub mod Util
pub mod Workers
pub mod IpLocation
pub mod Pool
pub mod Transaction
pub mod Updater
pub mod Auth
pub mod Tests
