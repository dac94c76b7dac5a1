-- ===== src/Lib.antt =====
-- The honeypot's own code (honeytrap) as a shallow embedding: the server that gives connections to services and
-- events to channels, the raw packet listener, the listener for agents, and services with the libraries they
-- are built on.
--
-- The server (honeytrap/server) enters the configured ports into a table. For a connection that a listener
-- accepts, `findService` looks its address up there and tries the services on the first bytes, which a
-- connection that peeks keeps for the one that is chosen; `handle` runs it and recovers from its panics.
-- What services report goes to an event bus, and through filters to channels (honeytrap/pushers).
--
-- The raw listener (honeytrap/listener/canary) reads Ethernet frames from raw sockets, parses them with
-- packages of its own, and runs a small TCP stack that answers connections on every port. `Start` hands a
-- frame to `handleARP`, `handleICMP`, `handleUDP` or `handleTCP`; `handleTCP` looks the connection up in
-- the state table, runs one segment through its machine, and answers by `send`, which puts a frame with
-- both checksums into a ring buffer. The agent listener (honeytrap/listener/agent) offers the bytes that a
-- remote agent forwards as connections. Services (honeytrap/services) answer a connection: SMTP and Redis line
-- by line, memcached too, TFTP by datagrams, IPP through an HTTP body; IPP reads with the byte decoder, and services with files go
-- through the sandboxed file system. The web interface (honeytrap/web) keeps the newest events.
--
--   Base       lists, tests, outcomes with errors and panics, Go slices, signed integers, texts, addresses
--   Server     Addr, Ports and Dispatch (server/honeytrap.go: `compareAddr`; `ToAddr` and the ports of `Run`;
--              `findService` and `handle`), Stream (server/peek-connection.go, server/timeout_conn.go), Bus
--              (pushers/filters.go, pushers/bus_channel.go, pushers/eventbus/eventbus.go, event/map.go, the subscribers
--              that `Run` enters), in honeytrap
--   Packet     one module per format, in honeytrap/listener/canary: Udp (udp/udp.go), Ethernet
--              (ethernet/ethernet.go), Icmp (icmp/icmp.go), Arp (arp/arp.go), Ipv4 (ipv4/ipv4.go,
--              ipv4/helper.go), Tcp (tcp/tcp.go), Segment (its functions with a checksum), and
--              Checksum (`csum` of tcp/tcp.go, `updateTCPChecksum` and the header checksum in
--              `send` of canary_linux.go)
--   Canary     in honeytrap/listener/canary: Types (socket.go, state.go, arpcache.go, route.go),
--              StateTable (state.go), Send (`send`), Machine (`handleTCP` from where it has a State) and
--              Handlers (all of `handleTCP`, the other handlers, and the loop of `Start` on a frame),
--              all of canary_linux.go where no other file is named; Knock (unique-set.go and knock.go, with the
--              timer that reports the groups of knocks in Timer)
--   Agent      in honeytrap/listener/agent: `receive`, `Read` and `Close` of connection.go as steps, and
--              Table (connections.go, and the loop of `serv` in agent.go on the messages of messages.go)
--   Services   in honeytrap/services: Decoder (decoder/decoder.go, decoder/encoder.go), Ipp
--              (ipp/values.go, ipp/group.go, ipp/message.go), Smtp (smtp/conn.go, smtp/message.go,
--              smtp/server.go), Filesystem (filesystem/htfs.go), Redis (redis), Tftp (tftp.go),
--              Memcached (memcached.go)
--   Web        honeytrap/web/safe_array.go
--
-- A function that can fail returns an Outcome: `ok`, `err` for an error value, `panic` for a run-time
-- panic of Go. Bytes, uint16 and uint32 values are natural numbers, with the wrap written out; IPv4
-- addresses are four numbers. Handlers take the State and return it with the list of effects that
-- they hand to the outside, in order: frames for the ring buffer, bytes for the socket, knocks.
-- Random numbers and the time are arguments.
--
-- Fuel: the option loop of the TCP parser takes the number of option bytes, since each round takes a
-- byte at least; the carry loop of the checksums takes four rounds, enough for a uint32. The loops of
-- IPP and of the mail session take fuel that `err stuck` says is used up: twice the size of its input and
-- three rounds for the session, since each state but two reads a line or ends; the number of its values for
-- a text attribute; the depth of arrays and the turns of the Redis service take one more than the lines, each of
-- which is read once; the turns of memcached take one more than the bytes; while the loops of IPP over groups and over the values of a boolean have no bound in
-- the source. The libraries that the mail session calls (net/textproto, net/mail, crypto/tls, strconv) are
-- a record of functions, and os.Lstat is an argument; so are package net for the addresses, regexp, bufio,
-- strconv and the rate limiter where the server, Redis, TFTP and memcached call them.
--
-- Not modelled: epoll, raw sockets and `transmit`, which are system calls; the ring buffer, which is
-- the library rbuf; the readers of /proc/net; the goroutines that serve a connection of the raw
-- listener; locks, but as the steps that they make one; HTTP and TLS, which are libraries (services/ja3 is a copy of one); the other services
-- (services/telnet/terminal.go, services/vnc and services/ftp are copies of libraries too), the channels that push events out,
-- storage, and of start-up all but the ports and filters; the Python pipeline around the honeypot.
pub mod Base
pub mod Packet
pub mod Canary
pub mod Agent
pub mod Web
pub mod Server
pub mod Services
