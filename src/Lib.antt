-- ===== src/Lib.antt =====
-- A model of the OSDP master, with the theorems that it satisfies.
--
-- The program polls the devices ("slaves") of an RS485 bus one after the other and passes messages
-- between them and an MQTT broker. Its parts, from below, and the files that model them:
--
-- * crc16.c is Crc: `crc16_add` over a list of bytes. Crc/Reference defines the shift register bit by
--   bit; Crc/Detect inverts a step of the check.
-- * timespec.h and the two orders of osdpprotocol.cpp are Timespec and Timespec/Order. A reading of the
--   monotonic clock has natural fields; a difference has fields in ℤ.
-- * `class protocol` of osdpprotocol.h and osdpprotocol.cpp is Protocol, with the receiving functions in
--   Protocol/Input and the sending ones in Protocol/Output. The record Protocol holds the fields of the
--   class and, for the operating system, a script: an event for each `read` that finds no unread byte
--   (bytes of any number, an interrupt, no data, an error), one for each `write` (so many bytes taken,
--   an interrupt, a refusal, an error), the readings of the clock and whether a flush succeeds. What
--   the program sends and waits for is kept in the state. A script that has ended is the result
--   `starved`, an exception of the source is `throw`, and an access outside a buffer is `fault`.
--   Protocol/Input/Safe and Protocol/Output/Defined are about the buffers, Protocol/Input/Frames about a
--   message for this device, Protocol/Input/Flyby about one for another, Protocol/Input/Timeout,
--   Protocol/Input/Idle, Protocol/Input/Fed and Protocol/Input/Silence about a line that falls silent.
-- * sync_queue.h is Queue, where each operation is a step on the list of the elements; Queue/Fifo is about
--   `wait`.
-- * `class osdpslave` is Slave: one record, with a list for the queue, and for the methods that publish
--   or read the clock a Site that holds both.
-- * `busprotocol::slave_poll` of osdpmaster.cpp is Bus: the list of slaves, the current one as a place
--   in it, and every call of the layers below. Bus/Select is about the choice of the next slave,
--   Bus/Poll about the reply, Bus/Invariant about what every call keeps, and Bus/Defined about when no
--   call does anything undefined. Bus/Messages has the callbacks of the broker, `message_callback` and
--   `message_for_slave`, and Bus/Setup `add_slave`.
-- * `prepcom` and `close` are Port. A Device holds the answers of the operating system, the descriptors of
--   the process and what the port has been set to. Port/Format is about the format of a character,
--   Port/Calls and Port/Prepare about the failures of the calls.
-- * `busprotocol::run` is Master, over a Bus and a Device; Master/Reopen is about its recovery,
--   Master/Invariant about the states that its rounds and messages of the broker reach, and
--   Master/Defined about sequences of them in which nothing is undefined. Master/Thread is about
--   `busprotocol_run`, the body of the thread.
-- * `xparse_config` and the slaves of `main` are Config; the lookups of the property tree are parameters.
--   Config/Start goes from the file to the open port, and Config/Whole on to all that follows.
-- * The rest of `main` is Config/Arguments (the loop over `argv`, with its two indices; Config/Arguments/Options
--   says what it comes to), Config/Logging (the items of the log's settings) and Config/Broker (the calls of
--   the broker's library, whose results are a script, `mosq_errcheck` and `log_callback`). Config/Main puts
--   them together in the order of the source, up to the start of the thread.
-- * `logprotocol::datalog` is Log; Log/Dump reads its lines back.
-- * split.h is Topic, and Topic/Join about both of its functions.
-- * katomic.h is Katomic, with the builtins of GCC. blob.h and blob.cpp are Blob: a store of blocks with
--   their counts, and a list of the program's objects, each a pointer to a block or null; a deleted block
--   is gone for good, and any use of it is a `fault`. Blob/Counting is about the counts, Blob/Values and
--   Blob/Writing about what an object holds, Blob/Calls about sequences of calls. Blob/Hex has the stream
--   operators. The other parts take a message for its bytes.
--
-- Run is the monad of all stateful code; Prelude holds the Boolean tests, lists over the native numbers
-- and the laws of bit operations. Tests has runs of the model and an instance of each theorem.
--
-- Loops: each loop of the receiving side takes fuel, and is called with `work` of the state and one
-- more, where `work` counts a step for each event of the script and each byte that it brings, since
-- each round of a loop takes a byte or an event. The loop of
-- `write` is recursive in the events, that of the slaves takes the number of slaves and one more, and
-- that of `split` the length of the text. `reopen` takes a number of rounds, of which one more than there
-- are system calls before all succeed is enough, and the endless loop of `run` the number of its rounds.
-- The numbers of the configuration are not negative; those that are kept in a char are cut to it.
-- Numbers of a fixed width are natural numbers with the modulus written out where the source can wrap
-- around.
--
-- A script of the port that ends while a loop still reads gives `starved`, so that what is said of all
-- scripts does not say that a read returns: on a port that has hung up, where every `read` gives 0 bytes,
-- `readsoh` reads for ever. Protocol/Input/Silence has the scripts on which it returns.
--
-- Threads: the calls of the broker's thread and of the polling thread are taken as whole ones in any order
-- (Master/Invariant and Master/Defined). The lock of a queue is not modelled, and `front` takes none.
--
-- Undefined behaviour is `fault`: an access outside a buffer or a vector, `&content[0]` of an empty blob,
-- and the log call of a command in `message_for_slave`, which hands an array of char to `%d`; what the
-- command does behind that call is `obey`.
--
-- Not modelled: the scripts in Python, the layout of a line of the log, and what the serial protocol logs.
-- mosquitto_publish adds to a list. Parameters are libuuid's `uuid_unparse`, libc's `strtol`, `strtoul`,
-- `cfmakeraw`, `cfsetispeed` and `cfsetospeed`, the numbers of the rates, the lookups of the property tree,
-- the texts of the broker's errors and the numbers of its levels, and the address of a slave's uuid, on
-- which the loop of `mem_zero` depends.
mod Prelude
pub mod Crc
pub mod Timespec
pub mod Run
pub mod Protocol
pub mod Slave
pub mod Queue
pub mod Topic
pub mod Katomic
pub mod Blob
pub mod Log
pub mod Port
pub mod Bus
pub mod Master
pub mod Config
mod Tests
