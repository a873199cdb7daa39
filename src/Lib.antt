-- ===== src/Lib.antt =====
-- Cornus 2: atomic commitment on disaggregated storage, in the paper's version and a new version. A
-- node answers clients over HTTP and other nodes over TCP; each transaction has one coordinator and
-- some participants, which log in a separate simulated DBMS and exchange messages.
--
-- Base: options, lists, byte strings, association lists, `std::to_string`, `std::stoul`, `std::stoi`, and
--   the parts of a text before and behind a delimiter.
-- Config: Cornus/include/config. Config/Transaction is TransactionConfig (its constructor and
--   `to_string`, which a VOTEREQ carries), Config/Host the constructor of HostConfig, from the values
--   that the JSON library has read, Config/Host/Replicators what its three loops choose,
--   in the order of Config/Host/Order.
-- Dbms: DBMS/include. Dbms/Log is log.hpp, Dbms/Manager logManager.hpp. A method is a function from
--   the state to an answer and the next state, where `none` is an uncaught exception. Dbms/Manager/View
--   and Dbms/Manager/Refines relate the nested maps to one log pair for each address; Dbms/History is
--   about sequences of requests, Dbms/Print the printing of types.hpp. Dbms/Server is main.cpp: its
--   routes, and in Dbms/Server/Http its arguments and the choice of the route. Dbms/Client is
--   Cornus/include/messaging/dbms.hpp, the calls of a node; Dbms/Client/OverHttp joins the two sides.
-- Tcp: Cornus/include/messaging/tcp.hpp. Tcp/Request is TCPRequest and TCPResponse, Tcp/Frame how both
--   stand on a byte stream (`encodeIntoBuffer`, `getRequest`, `tryDecodeResponse`), Tcp/Socket
--   `trySendData` with `send` and `recv`, Tcp/Connection `handle_connection`, Tcp/Server the rest of
--   TCPServer, Tcp/Client TCPClient, Tcp/Async its asynchronous requests. Tcp/Connection/Serving,
--   Tcp/Connection/Chunks and Tcp/Connection/Conversation are about messages that arrive in pieces,
--   Tcp/Connection/Bounds and Tcp/Connection/Returning about the buffer and the end of the loop,
--   Tcp/Rpc about a client and a server together. Tcp/Hello is the pair of programs in
--   Cornus/include/messaging/test, Tcp/Typed is Cornus/include/messaging/Response.hpp.
-- Node: Cornus/include/messaging/GlobalMessageHandler.hpp; Node/TxId is `getUniqueTransactionId`,
--   in Node/TxId/Racing with the steps of its calls on several threads,
--   Node/Handlers the three maps of running handlers and the callbacks, Node/Handlers/Delivery which
--   handler a message reaches, Node/Requests what the callbacks' threads and the requests of clients
--   do, Node/Requests/EndToEnd a message's way from one node to another over Tcp, Node/Main the start
--   of a node (Cornus/main.cpp), Node/TypeName `type_name` of Cornus/include/utils.hpp. Node/Queue is
--   messageQueue.hpp with its order (Node/Queue/Order) and deadlines (Node/Queue/Deadline).
-- Handler: Cornus/include/transactionHandlers. Handler/Prog holds trees of effects (a call of the
--   DBMS, a message, a wait, the worker, the timer), Handler/Sender is Sender.hpp, Handler/Wire the
--   requests that it builds, Handler/Links its map of connections with their sockets, Handler/Paper the
--   paper's coordinator and participant with `terminationProtocol`, Handler/New the new version's
--   coordinator, participant, replicator and committer with `terminationProtocol` and `logFinal`.
--   Handler/Alone runs one handler to its end, with a queue of messages that have arrived;
--   Handler/Paper/Ends, Handler/New/Outcomes and Handler/New/Parties say how it ends, Handler/Poll and
--   Handler/Paper/Scan what the messages and the logs decide. Handler/Timer is
--   Cornus/include/lib/timer.hpp, Handler/Worker Cornus/include/worker.
-- Protocol: one transaction of the paper's version, all nodes together. Protocol/System interleaves
--   the effects of the handlers, the DBMS (the functions of Dbms/Manager) and the network;
--   Protocol/World, Protocol/Handlers, Protocol/Invariant and Protocol/Preserve carry the proof,
--   Protocol/Agreement its results, Protocol/Durable is about what is logged, Protocol/Effects and
--   Protocol/Nonblocking about a handler that acts alone, with the waits for responses of
--   Protocol/Waiting, Protocol/Mail about the messages under
--   way and in queues, and Protocol/Schedule runs schedules.
-- NewProtocol: one transaction of the new version, all nodes together: the coordinator, the background
--   thread that runs `finishTransaction`, the participants, and the replicators and committers that
--   WILLCOMMIT and OVERRIDECOMMIT start, with the callbacks of Node/Handlers. NewProtocol/System has the
--   steps; NewProtocol/Progress, NewProtocol/Safe, NewProtocol/Handlers, NewProtocol/Invariant,
--   NewProtocol/Growth, NewProtocol/Moves and NewProtocol/Preserve carry the proof,
--   NewProtocol/Agreement and NewProtocol/Nonblocking its results, NewProtocol/Waiting adds the waits of
--   the participants for responses, NewProtocol/Schedule runs schedules.
-- Checks: concrete inputs.
--
-- Machine integers: a transaction id is kept modulo 2^64 and the node's counter modulo 2^32, as in the
-- source; host names and messages are lists of byte values. Fuel: `voting` and `new_voting` count the
-- messages that the coordinator reads, so more fuel than messages is enough, and for one transaction of
-- the paper's version more than participants; every other result about the protocol holds for each
-- fuel. `digits` has one more than the number, and each round divides it by ten. `handle_connection` and `receive_loop` count calls of `recv`: each call but the last takes a
-- byte or an error that has arrived, so more fuel than these is enough. A buffer is the list of its
-- bytes in use, of which there are at most 512 as in the source. `sort` is the sorted arrangement that
-- `std::sort` returns.
--
-- The calls of the operating system on a socket are parameters: a script of what arrives, with errors,
-- a script of what `send` takes, and the results of the calls that set a socket up. The order in which
-- an unordered_map is visited is a parameter too, and so are the client and the router of the HTTP
-- library. Each connection and each callback has a thread of its own; what these share is the maps of
-- handlers, which a mutex protects, so their critical sections come in some order, and the counter of
-- transaction ids, which nothing protects: Node/TxId/Racing interleaves its reads and writes.
-- Elsewhere a call that takes an id is one that no other overlaps. The version that is compiled is a
-- parameter of Node/Requests.
--
-- A system state has one transaction. Every participant may start at any time, whether or not its
-- VOTEREQ has arrived, the worker may accept or refuse, the network may reorder or lose messages, and
-- a wait may time out whenever the queue is empty; this allows more runs than the program has. A
-- message for a handler that is not there is a lost one. Crashes of a node, which stop its handler for
-- good, are the runs in which it makes no further step. An exception of the DBMS stops the step.
-- The participants of a transaction are distinct nodes, as the clients' format has it: there is one
-- handler for each. A handler that waits for the response to a request is, in Protocol/System and
-- NewProtocol/System, one that makes no step; Protocol/Waiting and NewProtocol/Waiting say when it
-- may go on. A response comes from the server of the other node, not from a handler, or is the end of
-- the connection; a handler whose peer gives neither waits for ever, as `recv` has no timeout. In the
-- new version a DECISIONCOMPLETED may reach any replicator of its node, where the program has the one
-- that started last.
--
-- Not modelled: the HTTP and JSON libraries (third party); descriptors that stay open; the latencies
-- that the DBMS only sleeps; console output but for the texts that the printing operators build.
pub mod Base
pub mod Config
pub mod Dbms
pub mod Node
pub mod Handler
pub mod Protocol
pub mod NewProtocol
pub mod Tcp
pub mod Checks
