-- ===== src/Lib.antt =====
-- Building blocks for the i.MX95: a verification library over the C sources of libbb/, services/
-- and the parts that build on them.
--
-- The program is a set of services around a message bus. libbb/bb_pool.c is the frame pool that
-- the audio pipeline of middleware/bb_audio_stream.c moves its data through: a lock-free ring
-- between one producer and one consumer, and a mutex-protected queue for several producers.
-- services/bb-busd.c is the daemon that every block connects to: it reads lines from its
-- clients, keeps a table of subscriptions and forwards published messages.
--
-- Common holds the names that all modules share, C strings as lists of bytes, the scanning
-- functions of the C library that the program calls, files (Common.Stdio), and 32-bit signed
-- arithmetic.
--
-- Framing is the line loop that the daemon and the client library run over a receive buffer.
--
-- Pool models libbb/bb_pool.c function by function; a pointer to a frame is its index. Pool.Spsc
-- says what each call does on a well-formed ring, Pool.Queue puts the calls of the two threads
-- in any order (Step, Reach) with the frame that each thread holds, and Pool.Queue.Safety has
-- what follows for every order. Pool.Mpsc and Pool.Balance are about the mutex-protected queue,
-- Pool.Serve puts its calls in any order, Pool.Order about the order in which it serves,
-- Pool.Alloc about bb_pool_init and bb_pool_destroy. What calloc, malloc and mmap answer is a
-- parameter. Each call is one step: the loads and the exchange inside a call are not interleaved
-- with the other thread's.
--
-- Busd models services/bb-busd.c: the table and the commands in Busd itself, the event loop in
-- Busd.Events, where an event carries what accept and recv return. The loop of remove_client
-- takes the length of the array as fuel, which is enough since each round shortens what is left.
--
-- Persist models bb_persist_config_get and bb_persist_config_set of libbb/bb_persist.c over a
-- store that gives each path its bytes (Common.Stdio: fopen, fgets, rename). Whether the file
-- and the temporary file open, what gets to the disk of the text that is written, and whether
-- the file is renamed are parameters (System). The fgets loop reads through a buffer of 511
-- bytes and is structural in the file. Persist.Lines has settings as a list of lines, with
-- find_line and update as the independent description; Persist.Config and Persist.Update have
-- the calls against it, Persist.Unended a file without a last line end.
--
-- Json models the writer and the getters of libbb/bb_json.c; the buffer is a list of cells, and
-- a store outside it is the result none. Json.Build has what one call leaves in the buffer,
-- Json.Object a whole object against its text (members), Json.Overrun a text that does not fit,
-- Json.Getters the search for a key and the copy of a string. A client that writes one object is
-- write_object, which makes the calls in their order.
--
-- Bus models libbb/bb_bus.c, the client of the daemon; what the socket calls return is an
-- argument, what is sent and the calls of the handler are results. Bus.Receive has the receive
-- path over a stream in chunks.
--
-- Web models services/bb-webd.c. Web.Builder is the inline JSON builder (jw_t), whose jw_raw
-- leaves a text out that does not fit; Web.Http has the responses and what is read of files;
-- Web.Status, Web.Status.Tables and Web.Status.Devices the text that each GET handler makes;
-- Web.Form the handlers of the control API, whose files written and commands run are values
-- (Effect); Web.Request the parser of requests, the routes and the static files; Web.Server the
-- clients and the body of the event loop, where an event carries what accept and recv return. A
-- Board gives what the kernel answers (files, directories, sysinfo, statfs) and how a double is
-- printed, a Site in addition which files open, which commands succeed, the page of the
-- dashboard and for which sizes malloc answers. The result none is a store outside a buffer or
-- an array, or a sum in atoi_len that an int does not hold; atoi and atol are the functions of
-- glibc, which keep the number in a long. An uninitialised variable has the value that a Board
-- gives for it and the number of lines behind it. Web.Form.Sent has what the form parser of the
-- LED copies from the body, Web.Form.Led what is written, Web.Form.Overflow the values that a
-- buffer does not hold, Web.Request.Walk the way of a path through its directories,
-- Web.Server.Events why the event loop can leave a buffer. A description of JSON texts (object,
-- array) stands in Web.Builder.Objects, a reader of JSON strings in Web.Builder.Escape, a reader
-- of responses (IsFramed) in Web.Http.Framed. The digits of a 64-bit number take 20 as fuel,
-- since 2^64 is below 10^20.
--
-- Persist.Logs models the boot log and the update log and the machine id, Persist.Mfg the
-- manufacturing data, Persist.Mount the mounting of the partition. Persist.Logs.Boot and
-- Persist.Logs.Update have what is read back after any number of entries was added to a log,
-- Persist.Logs.Members where the names stand in a line, Persist.Mfg.Checked the state after any
-- sequence of calls.
--
-- Block models libbb/bb_block.c: what a block does is a list of acts (BlockAct), and the main
-- loop goes over the rounds that are given, each with what clears running or ends the loop; what
-- is stored into running and state is an act too. Block.Loop has the messages as texts and the
-- end of the loop. Block.Driver models hal/bb_hal_led.c and Block.Led blocks/bb-led/main.c: the
-- commands, and the thread over rounds that carry what it reads of its flag; Block.Led.Blink is
-- about the thread, Block.Led.Overrun about an event that its array does not hold. The arrays on
-- the stack are fields, since they hold anything at first.
--
-- Not modelled: the setup of sockets and signals, the text of the dashboard page, the audio
-- threads, the update tool, the hardware layer but for its LED driver, recovery, the log and the
-- command line tools. They are listed with the reason in the manifest's components.
pub mod Common
pub mod Framing
pub mod Pool
pub mod Busd
pub mod Persist
pub mod Json
pub mod Bus
pub mod Web
pub mod Block
