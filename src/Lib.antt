-- ===== src/Lib.antt =====
-- pinetd4: an inetd-like server on Qt whose core routes TCP connections and datagrams to daemons that
-- are loaded as modules. The development models the core's routing, the buffered TCP connection, the
-- publish/subscribe daemon, the daemons for lines, frames, records and devices, the Bitcoin data
-- types, and the node that speaks the Bitcoin protocol.
--
-- How the parts interact: a listening port (mod/core/CoreTcp.cpp, CoreUdp.cpp, CoreUdg.cpp) is wired
-- to a daemon by Qt signal connections; a TCP connection becomes a client of that daemon
-- (mod/core/ClientTcp.cpp), whose `doRead` hands what was received to `handleBuffer`, which each
-- daemon implements, and whose `write` buffers what the socket does not take.
--
-- The files:
--   Prelude       Boolean tests, lists, byte strings, maps, Base64, decimal numbers and files: what the
--                 program uses of QByteArray, QList, QMap, QSet and QFile, as it is documented.
--   DataStream    QDataStream in both byte orders, on a list of bytes.
--   Core          mod/core: Core/Port, Core/Tcp, Core/Udp and Core/Udg are the ports (`setTarget`,
--                 `targetDestroyed`, `incomingConnection`, `receiveDatagram`, `message`), Core/Wiring what
--                 follows for every sequence of calls; Core/ClientTcp is `ClientTcp` (`write`,
--                 `flush`, `doRead`), Core/ClientTcp/Stream its sequences of calls.
--                 Core/Clients is Daemon.cpp and Client.cpp, the clients that a daemon knows.
--                 Core/Modules is the loading of modules and Core/Config the settings, both of
--                 mod/core/Core.cpp (`modprobe`, `reloadSymbols`, `reloadConfig`, `getConfig`),
--                 with `pinetd_preload` of the main.cpp of bitcoinconnector and midasinput.
--   Ps            mod/daemon/ps: Ps/Server and Ps/Masters are ModPS.cpp, Ps/Client is ModPSClient.cpp,
--                 Ps/System the daemon with its clients, run by one event at a time. Ps/Refcount is
--                 about the table of subscriptions, Ps/Framing about the packets of a client, and
--                 Ps/Delivery about `pushPacket`.
--   Line          mod/ext/tcpline/ClientTcpLine.cpp, and mod/daemon/broadcast on it.
--   RConnect      mod/daemon/rconnect/ModRConnectClient.cpp: frames between clients.
--   Irc           mod/daemon/kumoircd/ModKumoIRCdClient.cpp: lines of IRC messages and replies;
--                 Irc/Raw is the numbers of the replies, in ModKumoIRCdClient.hpp.
--   Bitcoin       mod/ext/bitcoin: Bitcoin/Stream is BitcoinStream.cpp, Bitcoin/Tx BitcoinTx.cpp,
--                 Bitcoin/NetAddr BitcoinNetAddr.cpp, Bitcoin/Block BitcoinBlock.cpp.
--   Connector     mod/daemon/bitcoinconnector/ModBitcoinConnectorClient.cpp: the frames of the Bitcoin
--                 protocol; Connector/Inventory is the slots for "inv", "getdata" and "ping",
--                 and Connector/Handshake `sendVersion` and the slots for "version" and "verack".
--                 Connector/Store is the cache, the queue and the database of ModBitcoinConnector.cpp,
--                 Connector/Blocks the slots for "tx", "block" and "addr" and `sendGetBlocks`,
--                 Connector/Peers the settings and the peers, and Connector/Client all the slots
--                 on one state, with Connector/Gossip for two nodes that exchange packets.
--                 Connector/Nested is the slot for "tx", called while others wait.
--                 Connector/Knowledge is an abstract node without cache and database,
--                 against which the code is held.
--   ElasticSearch mod/ext/elasticsearch/ElasticSearch.cpp, with JSON values; the server's answers
--                 are a parameter, and ElasticSearch/Documents says what is asked of it.
--   Echo, Netflow, Midas, VServ, Vps
--                 mod/daemon/echo, netflow, midasinput, vserv and vps; Amqp is the calls that
--                 they make of the AMQP library.
--   Chargen       mod/daemon/chargen: the lines of the generator; Chargen/Same is
--                 mod/daemon/chargensame, whose lines go to every client.
--   Tests         runs at concrete inputs.
--
-- Qt is the program's standard library. Containers and QDataStream have definitions; what a socket
-- answers to a write or a read, the clock, the hash function and what reading an unset variable
-- gives are arguments. `none` in Ps is the end of the process: a write through a null socket, or the
-- `abort` of `channelDelRef`; in Core/Modules and Irc a read of a list past its end.
--
-- Bounds and fuel: integers are natural numbers, cut to their width where the code stores them in
-- one. Every loop over a buffer runs on the buffer's length as fuel, and each round but the last
-- takes a byte at least, so that the theorems about whole buffers need no bound on it,
-- except for Connector, whose loop may remove nothing: there the fuel is an argument. `pushPacket`
-- calls itself at most once, so that its fuel is two. `modprobe` has fuel for the ranks of modules, by
-- which those that a module needs or preloads come first. The node's cache holds 100 entries, and with
-- the identifiers that a server makes nothing that was stored is found under a hash: the theorems about
-- what the node learns are about as many transactions and blocks as the cache has room for.
--
-- Not modelled: threads and locks (every call runs whole), signals across threads, the syntax of the
-- settings file, the dynamic loader, log output, the nested event loops in which mod/ext/elasticsearch
-- waits for the server (but for the slot of Connector/Nested), and the AMQP library (mod/ext/qamqp),
-- a copy of another project's.
pub mod Prelude
pub mod DataStream
pub mod Core
pub mod Ps
pub mod Line
pub mod RConnect
pub mod Irc
pub mod Chargen
pub mod Echo
pub mod Netflow
pub mod Amqp
pub mod Midas
pub mod VServ
pub mod Vps
pub mod Bitcoin
pub mod ElasticSearch
pub mod Connector
pub mod Tests
