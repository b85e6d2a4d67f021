-- ===== src/Lib.antt =====
-- The Bourse server: clients connect over TCP, log in as traders, and send requests to an exchange.
--
-- The program's parts, and the modules that model them:
--   * src/client_registry.c (Registry/): the descriptors of the connected clients, in an array
--     guarded by four semaphores. Registry/Defs has each function under its own name; Contents and
--     Invariant say what an array in order is; Register, Unregister and Waiting are about the single
--     calls, History about sequences of them. Interface is include/client_registry.h as a record
--     of operations and laws, and Draining a client of it, the shutdown. Threads has
--     creg_register and creg_unregister one access to the registry at a time (Steps), and what
--     each thread holds of it (Order); Alone sets the steps of one thread beside the calls.
--   * src/protocol.c and include/protocol.h (Protocol/): packets over a byte stream. Protocol/Types
--     has the structures and their bytes, Payloads those of the requests, Wire the connections, and
--     Defs proto_send_packet and proto_recv_packet. Messages has the requests and the answers as
--     the comment at the top of protocol.h lists them, and the packet of a request.
--   * src/trader.c (Trader/): the traders, as objects at addresses, each with a recursive mutex, and
--     the table all_traders. Store is the memory, Table the searches and the reference counts,
--     Session trader_login and trader_logout, Account the balances, Packets the sending; the other
--     modules are proofs about these. Directory is include/trader.h: accounts and sessions by the
--     names of the traders, without objects, table or mutexes (Spec); Calls are the same calls of
--     trader.c, and View is what a state of trader.c stands for. Broadcast is the loop over the
--     table. Threads has trader_increase_balance and trader_decrease_balance one memory access at
--     a time, and Race trader_login by two threads, cut at the places where they meet.
--   * src/server.c (Server/): the thread that serves one client, brs_client_service. Requests has
--     the branch of each packet type as a function, Service the loop and the registration around it.
--     Reference says what each request of the protocol does and answers, in numbers and names in
--     place of bytes, Session is the login of include/server.h as a step relation, Rounds a round of
--     the loop, Conversation all the rounds of a session, Thread the thread around them.
--   * src/main.c (Main/): the start of the program, its shutdown, and the handler of SIGHUP (Defs).
--     Accept has the loop that accepts connections, beside the threads that it starts, and Hangup
--     the handler between their steps. In Defs the shutdown of a connection is a parameter, with
--     what POSIX says of it as laws; Farewell sets the shutdown beside the service loop.
-- The service thread calls the registry when a client comes and goes, the protocol for each packet,
-- and the traders for logins, accounts and answers. These calls are lifted from the part of the state
-- that they act on to the whole (on_wire, on_traders, on_market, on_registry).
--
-- Names keep the words of the source, in lower case with underscores: creg_register, trader_login,
-- searchForEmptySlot is search_for_empty_slot. A call is a function from a state to an Outcome
-- (Base/Calls): it returns in a new state, it waits, or it is undefined behaviour. A pointer to a
-- trader is an address, NULL is none. A call takes the thread that makes it as the parameter me.
--
-- Bounds: the registry has 1024 slots (FD_SETSIZE) and the table 64 entries (MAX_TRADERS); funds and
-- quantities wrap at 2^32, sizes at 2^16. An int of the program counts clients or references and is
-- an integer without bounds. The machine is little-endian. The number of threads in
-- Registry/Threads and Trader/Threads is any. The service loop runs on fuel, one unit for each
-- packet, and says so when the fuel has run out.
--
-- Not modelled: the exchange, which is an archive of object files (lib/bourse.a; its calls are the
-- parameter Exchange); src/csapp.c, a copy of another project's library (its calls are the parameters
-- Semaphores and Rio, with what they are documented to do as laws); debug output; errno; in main,
-- sigaction and Open_listenfd, and what Accept returns, which is a parameter.
-- malloc(3) does not fail and gives no address twice, and what a fresh block holds is a parameter.
-- But for Main/Accept, Registry/Threads, Trader/Threads and Trader/Race, each theorem is about the
-- calls of one thread: other threads appear as owners of mutexes only. In Registry/Threads each
-- thread makes one call of creg_register and then one of creg_unregister; the calls of the main
-- thread, creg_wait_for_empty and creg_shutdown_all, are not steps there.
pub mod Base
pub mod Registry
pub mod Protocol
pub mod Trader
pub mod Server
pub mod Main
