-- ===== src/Lib.antt =====
-- extlib, a C library for small devices: byte buffers, a packet protocol, and a message bus over it.
--
-- The parts, and the files that model them:
-- * src/atbuf.c, a byte buffer that grows: Atbuf. The record has the fields of `struct atbuf`, with
--   the block as a list of bytes. Offsets and lengths are `size_t` with their wrap-around at 2^64.
--   A failed `assert` is `abort`, a copy outside its block `fault`, and the answers of the allocator
--   are arguments.
-- * src/ringbuf.c, a byte ring of fixed size: Ringbuf, in the same way. Queue has the operations and
--   laws that the two buffers share, and runs of calls beside an abstract queue of bytes.
-- * src/crc16.c, the checksum by a table: Crc16. Crc16.Reference has the division bit by bit,
--   and compares it with the table on each of the 65536 remainders.
-- * src/svcx.c, a hub of services found by the beginning of a header: Svcx.
-- * src/srrp.h and src/srrp.c, the packets: Srrp has `struct srrp_packet`, Srrp.Fields the `sscanf`
--   calls, Srrp.Read the readers, Srrp.Write the writers and Srrp.Next `srrp_next_packet_offset`. A
--   reader's argument is the memory from its pointer on; a copy that passes the end of the memory or
--   of a field is `fault`, and so is a packet with a text that no NUL ends within its field.
-- * src/apix.c and src/apix-private.h, the bus: Bus has the tables and what `apibus_send`,
--   `find_station`, `add_station` and `clear_unalive_station` do; Bus.Parse is `parse_packet`,
--   Bus.Requests is `handle_request`, Bus.Responses is `handle_response`, Bus.Topics is
--   `handle_topic_msg` with its three handlers, Bus.Poll is `apibus_poll` with any operations of the
--   sinks, and Bus.Sinks has the sinks and the calls on a descriptor.
-- * src/apix-posix.c and src/apix-stm32.c, the sinks: Posix has the descriptors and `unix_poll`,
--   where `FD_SET` of a descriptor from `FD_SETSIZE`, 1024, on is `fault`, Posix.Open the three
--   ways to open one, Posix.Accept a client that connects, Posix.Several many that send,
--   Posix.Settings and Posix.Serial the serial lines, Posix.Ops the tables of operations,
--   Posix.Disable `apibus_disable_posix`, Posix.Destroy `apibus_destroy`, and Posix.Server the bus
--   with these sinks; Stm32 is the board.
-- * src/err.c, the messages of errors in a hash table: Err.
-- * src/posix/timer.c and src/posix/task.c: Timer, and Task, whose thread and calls take steps in any
--   order.
-- * src/posix/module.c, the loaded modules: Module, with their parameters in Module.Param.
-- * src/log.c, messages from a level on: Log. src/stdlibx.c, random UUIDs: Stdlibx.
-- * src/opt.c and src/opt.h, the options of a program: Opt. src/stringx.c: Stringx.
-- * src/json.c, values at a path: Json. A place in a text is what stands from there on.
-- * Text has C strings as bytes without the NUL, and the comparisons, searches and `sscanf`
--   conversions that the code uses; Common has the lists, the tests and the outcomes that all files share.
--
-- How they interact: a sink puts the bytes that the system gives into the `atbuf` of a descriptor;
-- `apibus_poll` reads packets out of it and queues them as requests, responses and topic messages;
-- the handlers pass them on through `apibus_send`. The list of what was sent stands for the devices.
-- A request keeps the checksum of its header and data, and a response names it. In Bus.Poll the
-- operation that polls a sink is an argument; Posix.Ops puts in those of src/apix-posix.c, with what
-- the system answers to them, and Posix.Server follows the bytes from a socket through the bus.
--
-- Lists of the kernel's kind are sequences with `list_add` at the front. The clock is an argument
-- of each function that reads it, one reading for a call, or two where `timer_loop` and `apibus_poll`
-- compare them. Functions are by recursion on their data, with three bounds. The loop of
-- `topic_unsub_handler` has the count of the array, which it cannot exceed. `parse_packet` has a round
-- for each byte and one, and every round but the last takes a byte or more. The `do` loop of
-- `timer_loop` has the microseconds of the clock and of two seconds, and every round adds one or more.
--
-- Not modelled: the parsing of addresses by the system, and `unlink` and `close`, which change no
-- state of the program; src/list.h, a copy of another project's lists; src/tests and src/demos, which
-- only call the library; what only frees memory. Memory for the tables is taken to be there, as the
-- code does.
pub mod Common
pub mod Atbuf
pub mod Queue
pub mod Ringbuf
pub mod Text
pub mod Srrp
pub mod Bus
pub mod Crc16
pub mod Svcx
pub mod Err
pub mod Timer
pub mod Task
pub mod Log
pub mod Module
pub mod Stringx
pub mod Opt
pub mod Json
pub mod Posix
pub mod Stdlibx
pub mod Stm32
