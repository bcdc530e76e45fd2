-- ===== src/Lib.antt =====
-- weaveFS keeps versioned, encrypted files on one machine and exchanges them with peers. This
-- library models the program's core: the store, its cipher and key, the framing of messages, the
-- file server, a node's identity, the HTTP interface and the command line.
--
-- - Base, Strings, Hex: shared types and what the program uses of Go's strings, strconv and hex
--   packages. A text is the list of its code points, bytes are numbers, int is ℤ with its
--   wrap-around where the program adds.
-- - Exec, Disk: a machine with its files, its random source and its clock, and the calls of Go's os
--   and io packages. A schedule of faults says which calls fail, and after how much of their work,
--   so a theorem on all machines is one on all failures. Folders are not kept; a path is the list of
--   its names, and a leading slash is dropped. io.Copy is one write, and opening a file to read it
--   takes its content at that time. Disk/Live is about machines with no fault to come.
-- - Fsutil: internal/fsutil/atomic.go.
-- - Store: internal/store. Version is version.go; Paths, Index, Blob and Ops are store.go and
--   raw.go, split into the layout of blobs, the changes to an index, the files of blobs and the
--   operations that join them; Locks is which mutex is taken for a key, and Locks/Steps the
--   goroutines that work on a store: one arrives at a mutex, enters as sync.RWMutex lets it, and
--   leaves with the effect of its operation. Frame, Write, Commit, Holds, Reads, Latest, ReadBack,
--   Raw, Delete, Forget, Rollback, Live and Locks/Exclusion hold theorems; Holds says what it means
--   that a store holds a version. A rollback is two operations.
-- - Crypto: internal/crypto/aes.go and key.go.
-- - Proto: internal/proto/codec.go, messages.go and protocol.go.
-- - Server: internal/server. Types, Targets and Config hold the configuration, the results, the
--   choice of peers and the life of the handlers, Handlers is handlers.go, Fanout is what server.go
--   asks of peers. A stream is what comes in, how much goes out before a write fails, and whether it
--   was reset. The sends of a fan-out only read local disk and fill slots of their own; they run in
--   the order of the slots. A peer is any function from the bytes it is sent to those it answers;
--   Peers takes for it the handlers of a second server on a machine of its own, and follows a
--   version there (Custody) and back (Recovery). Fanout/Report says what it means that a report is one
--   of the sends to its peers.
-- - Node: internal/node. The host, the keys and the discovery of libp2p are parameters.
-- - Api: internal/api. AddrFile is addrfile.go, Listen is api.go, and Http, Json, Handlers and Routes
--   are handlers.go: a handler takes a request and a machine to a response and a machine.
-- - Cli: cmd/weavefs. Client is client.go; Format, Aliases, Send, Print, Run and Commands are
--   commands.go; Main, Serve and Inspect are main.go. A command takes its flags, its arguments and a
--   machine to the lines that it prints or a failure, and a machine. A query reaches the node as the
--   list of its names and values. Commands/Loopback joins the commands to the handlers of a node on
--   the same machine; how an answer travels is a parameter (Carrier), as is what net/http and
--   encoding/json do with it (Http), and a faithful pair of them reads only what was answered.
-- - Tests: runs and witnesses on small servers with stand-ins for the libraries.
--
-- SHA-1 and encoding/json are arguments, with three assumptions where they are needed: a digest is
-- 20 bytes, a value that was printed reads back, and a map reads back with its entries in any order.
-- The key stream of AES is an argument with none; of libp2p's keys it is assumed that a marshalled
-- key unmarshals. Loops are structural, but for two with constant fuel: six rounds divide any int64
-- below 1024, and twenty digits write it; both are shown to be enough. Texts of log lines and of
-- errors are left out, and of the spaces that TrimSpace cuts only the ASCII ones are known.
--
-- Not modelled: libp2p, the HTTP server and URL encoding, which are libraries; the parsing of flags,
-- the usage text and the exit code of cmd/weavefs, what a get wrote to its standard output before it
-- failed, and the steps of the demo, which runs two nodes in one process and prints what they do;
-- permissions of files; deadlines once they are set; changes to the set of connected peers during an
-- operation.
pub mod Base
pub mod Strings
pub mod Exec
pub mod Disk
pub mod Fsutil
pub mod Hex
pub mod Store
pub mod Crypto
pub mod Proto
pub mod Node
pub mod Server
pub mod Api
pub mod Cli
pub mod Tests
