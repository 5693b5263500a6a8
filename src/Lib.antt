-- ===== src/Lib.antt =====
-- The animate service: a server that keeps canvases, sprites and placements for its clients, and a
-- client program. The two talk over a pair of FIFOs per client: the client sends one request per line,
-- the server one response per line. On the server the main thread accepts clients, reads their lines
-- and hands them to a pool of workers; a worker runs a request on the user database and the handle
-- store and puts its response in order with the client's other ones.
--
-- Which file models what:
-- * ServerCommon (server_common.h): the state of a client, a pending response, a request.
-- * Auth (auth.c): the user database. auth_load reads the file with fgets on fuel, one more than the
--   bytes of the file; each round reads a byte at least, so it is enough. Auth/Saved has files of entries and remarks.
-- * Handles (handles.c): the handle store (Handles/Store), the barrier of a canvas (Handles/Barrier)
--   and sequences of calls (Handles/Run). A pointer to an object of the animate library is a number,
--   0 for NULL; a pointer to a record is its id; the objects handed back to the library and the
--   broadcasts are a list of effects. A caller of the barrier that waits is a value, and wait_turn is
--   what it does when it wakes up.
-- * Threadpool (threadpool.c): the queues and their operations (Threadpool/Queues), each the body of
--   one critical section, and what a worker does under the mutex (worker_turn). The linked list of
--   queues is a list, and the pointers to a client and to its queue are the client's pid.
--   Threadpool/Response has send_ordered_response: the array of pending responses is a function of the
--   slot, the outcomes of the calls of write are a list, and the loop is on fuel 1024, the size of the
--   window: a round frees a slot of the window, and the slots that are filled lie in it.
-- * Rpc (rpc.c): requests. Rpc/Text has the responses, the tokens and the parsers, Rpc/Create,
--   Rpc/Place, Rpc/Share and Rpc/Generate the commands, Rpc/Ffmpeg the running of ffmpeg, and
--   Rpc/Request rpc_handle_request. A request that waits on a barrier stops with a value that says how it goes on (resume). What the animate
--   library, the allocator, the clock and the files do is a record of outcomes (Environment), and what
--   other threads do between two frames of a movie is a function on the store.
-- * Server (server_main.c): accepting, reading and closing clients, and the cutting of a client's bytes
--   into requests. The outcomes of system calls are arguments.
--   Server/Main has the rounds of the loop over all clients: what the system calls do in a round is
--   a record (Happening), and the descriptors that are closed and the FIFOs that are unlinked are kept
--   in order. Server/Start has what comes before the loop.
-- * Service (threadpool.c, worker_main, with the handler of rpc.c): any number of workers and the main
--   thread as a step relation on the pool, the store, the clients and what the workers have in hand. A
--   step is one critical section, a request up to its wait on a barrier, one turn of such a wait, or
--   the sending of a response. A ledger beside it lists the requests by what has become of them. A pid
--   stands for one client: the main thread keeps the clients that it has closed in its list, and takes
--   no second one with the pid of the first.
--   Service/Conserve has the ledger, Service/Aside and Unique the numbers of the requests, and
--   Service/Pending, Order, Replied, Kept and Ordered the order of the responses. Service/Reached,
--   Main, Sweep and Rounds show that the rounds of Server's main thread are made of these steps, and
--   Service/System has the whole server, from its start on.
-- * Client (client_main.c): the client program: its start (Client/Start), one line of its input
--   (Client/Loop), the texts that it takes apart (Client/Text), what it shows for a response
--   (Client/Display), reading and writing on its FIFOs (Client/Io), and the loop over the whole input
--   with the Disconnect at its end (Client/Run). The loop is on fuel, one more than the bytes of the
--   input; each round takes a byte at least, so it is enough. The calls of read and write are lists of
--   outcomes; after the last one the FIFO is closed.
-- * Connection (connection.c, client_connection.c): the names of a client's FIFOs, their creation and
--   removal on a list of the names that exist, where each call of unlink and mkfifo may fail, the client's wait for its signal and its descriptors
--   (Connection/ClientSide), and the handshake of any number of clients with the server as a step
--   relation (Connection/Handshake): a step is one access to a variable that a signal handler shares
--   with its program, or one system call.
-- * CString models what the sources use of the C library: strings that end at NUL, strtok_r, strncpy,
--   strtoull and strtoll with 64-bit results, the decimal output of printf, and fgets. Common has the
--   shared names, Boolean tests and lemmas on lists.
--
-- Numbers are natural numbers; a counter of 64 bits has its wrap-around written out. Allocations,
-- system calls and calls of the animate library have their outcome as an argument, so a theorem holds
-- for each of their outcomes.
--
-- Not modelled: the system calls as such (their outcomes are arguments), the masking of signals, threads
-- and mutexes as such (an operation is one critical section), the animate library, the debug output on
-- stderr, the copy of each response that rpc.c prints on stdout, the frees of memory, and the main
-- functions of animate_client.c and animate_server.c, which no other code uses. A reply is one step, so
-- that a close of the client's descriptor while a worker writes to it is not in the model. Within Rpc
-- the text of a response is taken to find memory (where it does not, response_code and the like return
-- NULL); Service has what a worker does then. In a movie the other threads may change the store between
-- two frames, but not the name of the client.
pub mod Common
pub mod CString
pub mod ServerCommon
pub mod Auth
pub mod Handles
pub mod Threadpool
pub mod Rpc
pub mod Client
pub mod Server
pub mod Service
pub mod Connection
