-- ===== src/Lib.antt =====
-- irc-idler is an IRC bouncer: a daemon between one IRC client and one IRC server, which keeps the
-- server's connection while the client is away and replays to it what it missed.
--
-- Parts, and the files that model them:
--   Irc/            the package irc
--     Message       irc/message.go: `Message`, `WriteTo`, `String`, `Eq`, `Len`
--     Parse         irc/message.go: `parseMessage`, `parseWord`
--     Reader        irc/message.go: `NewReader`, `ReadMessage`, `ParseMessage`; irc/helpers.go: `ReadAll`
--     Writer        irc/message.go: `ioWriter`, whose lock goroutines share
--     Codes         irc/numeric_replies.go (all of it in Codes/Numerics), and the command words that the
--                   program compares with
--     Validate      irc/validate.go
--     ClientId      irc/clientid.go
--     Mask          irc/mask/mask.go, with `regexp.QuoteMeta` as a parameter
--     Filters       irc/filters/filters.go: `RateLimit`, for a positive maximum (Filters),
--                   `AutoPong` (Pong), `AutoPing` (Ping)
--   State/          proxy/state: `Handshake`, `ChannelState` (Channel), `Session` with the map of its
--                   channels (Session)
--   Storage/        storage/storage.go as a record of operations (Storage) with its laws (Laws), and
--                   storage/ephemeral/ephemeral.go (Ephemeral) and storage/sql/sql.go (Sql), over a
--                   database that is a parameter
--   Proxy/          proxy/proxy.go
--     World         the fields of `Proxy`, its connections, and the monad of its handlers
--     Link          `setup`, `shutdown`, `dropClient`, `reset`, `sendClient`, `sendServer`
--     Log           `replayLog`, `logMessage`
--     Client        `handleClientEvent`, `handleHandshakeMessage`, `rejoinChannel`
--     Server        `handleServerEvent`
--     Run           `NewProxy`, `checkTimeout`, the loop of `Run`, and the states that it reaches
--     Threads       `ReadAll` (irc/helpers.go) and `AcceptLoop` as goroutines beside the loop of `Run`,
--                   and the loop in `shutdown` that empties a channel
--     Held, Uses    what the daemon has done to one connection, and where it keeps it
--     Agreement     what client and server hold of the handshake
--     NoPanic       panics in the loop, by the rules of World/Completes
--     Stable, Handlers
--                   the steps that the handlers are made of, and the induction over them
--   Net/            internal/netextra/ and `DialerConnector` of proxy/proxy.go (Dial), with package
--                   net's functions on addresses (HostPort)
--   Cli             cmd/irc-idler/main.go: the flags, the start of the daemon, and its starts over one
--                   database after the other (Restart)
--   Inspector       misc/pingpong-inspector/main.go: its two loops
--   Sandstorm/      the daemon for Sandstorm
--     Webui         sandstorm/webui/webui.go: the settings form, the handlers and what they send
--     Control       cmd/sandstorm-irc-idler/main.go: the files, `newDaemon`, the loop of `main`
--   Prelude/        lists, bytes, dictionaries and options that these share
-- The other modules under a part prove things about it; the modules called Tests and Proxy.Samples
-- have the concrete runs.
--
-- The proxy's handlers run one at a time, in the loop of `Run`, and call the session state and the
-- store; a message from a connection is checked by `Validate` before a handler sees it. So the
-- daemon is a function from an event (`Event`: a message or the end of a connection, a tick of the
-- clock, a new client, the stop) and a state (`World`) to a state, and an interleaving is a
-- sequence of events (`run` and `Reachable` of Proxy/Run). A handler returns `none` where the Go
-- code panics on an index out of range.
--
-- The goroutines meet the loop on unbuffered channels: a send and its receive are one step of the
-- system (`Step` of Proxy/Threads), in which any goroutine may go on at any time. A handler is one
-- step of it, and the receives in which `shutdown` empties the channel of a connection that it
-- closed come behind that step and before the next event (`IsDrained`); `ReadMessage` on a closed
-- connection returns in the end.
--
-- Strings are lists of bytes (`Bytes`). A Go map is an association list with one entry for a key;
-- where the code goes through a map, the order is a parameter (`Env.order`). A connection goes by
-- a number, and what the daemon does to its connections is a list of outputs. What lies outside
-- the program is a parameter: whether `WriteMessage` of a connection, which is an interface, fails
-- (`Env.writes`), the store (`Env.store`), the result of `Connect` and the readings of the clock
-- (in the event). Times are nanoseconds in ℕ. The quota of `RateLimit` is a natural number, which
-- it is where `maxQuota` is positive.
--
-- The loop over a log's cursor runs on fuel, one more than the cursor's size, which falls with
-- each message (`StoreLaws.size_falls`); the reader's loop runs on the length of its input, of
-- which each line takes at least one byte, and the parser's loop over parameters on the length of
-- the line. All other loops are structural.
--
-- The Sandstorm daemon is a second loop around proxies: the handlers of the web interface send it
-- events (`Event` of Sandstorm/Webui), and it starts and stops proxies, of which it keeps one
-- (`Control`). JSON, the writes of files, the capabilities and their dialers are a parameter
-- (`Platform`); what `Connect` of a proxy's connector does is in Net/Dial. The filters are machines
-- that take one communication at a time (`run` of Prelude/Machine).
--
-- The SQL store's cursor has at most as many rounds as its rows (`Database.row_count`); the digits of
-- a port run on fuel for five of them, which 16 bits need at most.
--
-- Not modelled: `NewReadWriter` and `NewReadWriteCloser`, which only pair parts, the messages to
-- the log file, the routing, templates and keys of the web interface, main's exits where it
-- cannot open what it needs for Sandstorm, the connections of the ping inspector, and the code for
-- tests.
mod Prelude
pub mod Irc
pub mod State
pub mod Storage
pub mod Proxy
pub mod Cli
pub mod Inspector
pub mod Net
pub mod Sandstorm
