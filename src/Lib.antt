-- ===== src/Lib.antt =====
-- The printer emulator of the Diverter: the protocol engine `printem` and its two clients.
--
-- The engine (Printer-Emulator) reads bytes from an RS-485 line, on which the 1022 CPU polls a
-- printer module, and plays that module: it answers polls, asks for Reports, History and log
-- records, and writes them to files. Clients (PE-Control, PE-Console) send it requests over System
-- V message queues (Common) and get its answers. The requests become bits of a control word that
-- the engine reads at its next poll.
--
-- Which file models what:
--   Flags            the bits of utils.h and parser.h, the constants of message_services.h
--   Outcome          C code that goes on or does what C leaves undefined
--   Text             atoi and strcmp as the programs use them
--   Filename         unique_filename (Printer-Emulator/utils.c); its laws are in Filename/Laws
--   Parser/State     the globals of Printer-Emulator/parser.c as the record `Engine`, `state_t`
--   Parser/Buffer    the buffer and the steps that handlers share
--   Parser/SteadyState, Report, History, LogMode
--                    the handlers SS_*, RPT_*, HST_* and LOG_*: `handle_ss_pause` is SS_Pause
--   Parser/Header    parse_open, parse_header (`dispatch` is its switch) and parse_close
--   Parser/Bounds, Faults, Overflow, Status, Files, Leaks, Polls, Requests, Notices, Snapshots,
--   Graph, Runs      what the engine keeps and does, by subject; Parser/Chunks is about bytes that
--                    come in several reads
--   Parser/Triple    statements about runs over several bytes, and how they are put together
--   Parser/Transfer  the records of a transfer from the wire to the file, for the three kinds of
--                    file; Whole, History and Log follow a whole sequence of each kind, Lines and
--                    Logging the records of a log
--   Server           control_receive_msg (Printer-Emulator/utils.c) and the server side of
--                    Common/message_services.c, with its Laws;
--                    Server/Delivery follows a Report or History from a client's request to its
--                    file, and Server/Logging a log to the request that ends it
--   Client           the client side of Common/message_services.c
--   Control          PE-Control/main.c, with its Laws; Control/Service is what it relies on in the
--                    engine; Control/Report, Control/Logs and Control/Rivals join PE-Control, its
--                    queue and the engine for a whole Report or History, for a log, and for two
--                    clients at once; Control/Reads does it for the live loop
--   Terminal         PE-Console/client_utils.c
--   Console          PE-Console/main.c, with its Laws; Console/Cleanup is about the terminal, and
--                    Console/Acknowledged and Console/Exits join the console, its queue and the
--                    engine for the end of both
--   Options          the options of Printer-Emulator/main.c (`take_option` is its switch), with
--                    Laws and Ending
--   Serial           serial_port_open (Printer-Emulator/utils.c), with Laws
--   Main             the sanity check and the live loop of Printer-Emulator/main.c; Main/Run is its
--                    `main` as a whole, one function for each stretch of the code; what is proved
--                    of them is in Main/Ends, Starts, Replays, Passive, Session, Readings and
--                    Stream
--   Capture          the hex dump (DumpHex of Printer-Emulator/utils.c), the capture loop and the
--                    unit test's reader (Printer-Emulator/main.c) in Dump, Scan and Reader;
--                    Layout, Rows, Joining, Datagrams, RoundTrip and Replay relate the two
--   Tests            concrete runs, and each theorem at a concrete input
--
-- How the model stands to the code. A handler takes a byte and the state and returns the new state
-- or a fault; a fault is an access outside an array, such as `buffer[256]`, a stream operation on
-- NULL or, in the options, `atoi` of a number that is no `int`. `buffer` is a function from indices to bytes, so that stale bytes behind `buffer_len` are
-- there to be read as in the code. What the engine does to the outside is a list of events, latest
-- first. What the system answers (fopen, localtime, msgrcv, read, time) is an argument. Flag words
-- are numbers with the operations of C; Prelude/Bits proves the laws of single bits.
--
-- There is no fuel: the loops run over the bytes, rounds, responses or turns that they are given.
-- Times are seconds as natural numbers.
--
-- Not modelled: printing to the terminal and the debug dumps, priorities, signal installation, the
-- SIGINT handler of the engine and `setserial`. A read of the live loop that fails is one of no
-- bytes. The fields of `sscanf` are read as the C library reads them, each of at most two characters.
-- The write to the port always succeeds in the model, as the code does not look at its result; nor
-- does it at that of `fwrite` but for a debug message. Where `strftime` fails the name is left
-- unspecified by C.
mod Prelude
pub mod Outcome
pub mod Text
pub mod Flags
pub mod Filename
pub mod Parser
pub mod Serial
pub mod Capture
pub mod Server
pub mod Options
pub mod Main
pub mod Client
pub mod Control
pub mod Console
pub mod Terminal
mod Tests
