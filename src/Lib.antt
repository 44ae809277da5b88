-- ===== src/Lib.antt =====
-- A model of PL/Container: the protocol that a database backend and the process of a
-- user-defined function in its container speak over a socket, and, on the side of the backend,
-- the calls, the queries and their plans, the containers, the procedure cache and the
-- configuration.
--
-- The parts, and the files that model them:
--
-- * src/common/comm_connectivity.c buffers a socket in both directions. `Connectivity.Buffer`
--   has one `plcBuffer` with plcBufferMaybeReset and plcBufferMaybeResize; `Connectivity.Socket`
--   has the loops around recv and send (plcSocketRecv, plcSocketSend); `Connectivity.Conn` has
--   `plcConn` with plcBufferAppend, plcBufferMaybeFlush, plcBufferFlush, plcBufferReceive and
--   plcBufferRead. `Connectivity.Buffer.Laws`, `Connectivity.Socket.Laws`,
--   `Connectivity.Conn.Write` and `Connectivity.Conn.Read` hold their proofs where the kernel
--   reports no error, `Connectivity.Conn.Lossless` and `Connectivity.Conn.Safety` what holds
--   whatever it does.
-- * src/common/messages/*.h and src/common/comm_messages.c are the messages: `Message.Datatype`,
--   `Message.Value` and `Message.Struct`.
-- * src/common/comm_channel.c turns messages into bytes on a connection and back. Every function
--   of it keeps its name: `Channel.Primitive` (numbers and strings), `Channel.TypeInfo` (types),
--   `Channel.Object` (values), `Channel.Argument`, `Channel.Send` (plcontainer_channel_send and
--   the messages that it writes) and `Channel.Receive` (plcontainer_channel_receive). The
--   `Encoding` modules describe the wire format independently of the code, and which values it
--   can carry; `Channel.Action` says how reads and writes are put together (`res |= ...`, loops
--   with `&& res == 0`, early returns), and its children when such a chain succeeds.
--   `Channel.RoundTrip` joins the two ends.
-- * src/function_cache.c keeps the five procedures that were used last: `FunctionCache`, refined
--   to a list in `FunctionCache.Refine`, by way of `FunctionCache.Shift` and
--   `FunctionCache.Search`.
-- * src/sqlhandler.c keeps the prepared plans of a connection in 32 slots: `PplanSlots`, with
--   the list of the free ones in `PplanSlots.FreeList`, what insert and delete do to it in
--   `PplanSlots.Laws` and all that can be reached in `PplanSlots.Reachable`. `SqlHandler` is
--   handle_sql_message and what it calls: `State` and `Heap` the blocks of the plans, `Execute`
--   and `Prepare` its branches, `Results` the messages that it answers with. What SPI, the
--   catalogs and the type functions return are parameters.
-- * src/subtransaction_handler.c keeps the subtransactions that a function opened explicitly:
--   `Subtransaction`. PostgreSQL is a parameter, which begins and ends subtransactions or
--   reports an error; a nesting level is counted for it. An answer goes out by `Channel.Send`.
-- * src/containers.c keeps the containers of a session. `Container.Declaration` reads the line
--   "#container: id" of a function (parse_container_meta, check_runtime_id); `Regex` and `Sound`
--   below it describe what it is to accept. `Container.Slots` has the array of containers and
--   its accessors, `Container.Start` start_backend with its retries and delays,
--   `Container.Backend` the questions to the backend, `Container.Delete` delete_containers and
--   `Container.Cleanup` the process that waits for the end of a container. The replies of the
--   backend, of fork and of the container are parameters, one for each round of a loop; a result
--   of the backend is read by its sign.
-- * src/plcontainer.c handles the calls. `CallHandler.State` has what it keeps between them,
--   with DeleteBackendsWhenError; `CallHandler.Handler` the end of a call and its errors;
--   `CallHandler` the loop over the messages of the client. The functions that a query calls are
--   calls of the handler in turn, so the script of a call is a tree, and so are the definitions.
--   A call uses `Container.Delete` and `Subtransaction`. `CallHandler.SetReturning` is
--   plcontainer_function_handler for rows.
-- * src/plc_configuration.c reads the configuration. `Configuration.Content` is XML_READ_CONTENT
--   and the arrays that it grows. `Configuration.Runtime` has the entry of a runtime;
--   `Runtime.Setting` and `Runtime.Read` are parse_runtime_configuration, its loops over the
--   children in order, and `Runtime.Outcomes` carries a predicate through them.
--   `Configuration.Document` is get_runtime_configurations over the document and
--   plc_get_runtime_configuration. The document that libxml2 makes, pg_atoi and the resource
--   groups are parameters. An error carries what `value` points to, since PG_CATCH frees it. The
--   counts of shared directories and of device requests are those of the lists.
-- * `Outcome` has the ways in which a call ends, `Common` the shared names and lemmas, `Tests`
--   the theorems applied to examples.
--
-- How the code is read:
--
-- * The kernel is a list of events for each direction, which a connection carries: what recv and
--   send return is scripted by them. An empty list of receive events is a wait that does not
--   end; past its events send takes all that it is given. `Read.IsLive` is a peer that sends
--   segments of any size, `Write.IsReady` a kernel that takes any number of bytes at a time.
-- * plc_elog(ERROR, ...) does not return; it is the outcome `raised`. The use of a variable that
--   a failed read left indeterminate, signed overflow, and a block that is written past its end
--   are the outcome `undefined`.
-- * Numbers that travel are bit patterns, in the byte order of x86, since the code copies them
--   as they are in memory; the test for a negative one is on the top bit. Sizes and offsets are
--   natural numbers: the sums of the buffer functions are taken to stay below 2^31. Strings are
--   the characters before the NUL.
-- * Allocation succeeds or raises, as PLy_malloc and pmalloc do; where the size is the sum of a
--   received length and a constant, the sum is that of an `int`. What only frees memory is left out,
--   except in the procedure cache, where the calls of free_proc_info are recorded.
-- * A wait without end and a crash of the backend end a call of the handler as `unfinished`; an
--   attempt to connect may raise an error or wait for the pong without end.
-- * PLCONTAINER_VERSION is generated by the build and a parameter here.
-- * A type is nested as deep as the peer says, so receive_type recurses on fuel. The receiver
--   starts with more fuel than there are bytes to come, and a type that can be carried has a
--   wire format at least as long as it is deep. The loops of a flush and of a receive have fuel
--   for the bytes they have to move, of which each round moves one at least. The loop of
--   connection attempts has fuel for 54 rounds, and the delays reach the timeout after 53. An
--   array of the configuration calls itself once for a larger block.
-- * isspace and isblank are those of the C locale. SPI_finish is taken to succeed. The names of
--   containers that are kept in shared memory, the memory contexts and the masks of signals are
--   left out of the call handler.
--
-- Not modelled: connecting, the masking of signals, the Docker interface (src/plc_docker_api.c)
-- and the views of the containers (src/plc_container_info.c), reading the file of the
-- configuration, its display, the content of a backend and the privileges of users
-- (src/plc_configuration.c), the conversions of PostgreSQL values (src/plc_typeio.c), the
-- validator and the start-up of the library (src/plcontainer.c), and the Python and R clients,
-- which are mostly calls of libraries.
pub mod Common
pub mod Outcome
pub mod Connectivity
pub mod Message
pub mod Channel
pub mod FunctionCache
pub mod PplanSlots
pub mod Subtransaction
pub mod Container
pub mod SqlHandler
pub mod CallHandler
pub mod Configuration
pub mod Tests
