-- ===== src/Lib.antt =====
-- wazo-libsccp is an Asterisk channel driver for phones that speak SCCP. A server accepts connections
-- and gives each a session, a thread that reads messages through a deserializer, runs timers, and hands
-- the messages to the device of the phone. A device keeps the calls of its one line, which Asterisk's
-- threads reach through the callbacks of channels. Threads send messages to a session through a
-- synchronised queue, whose event descriptor the session polls.
--
-- The files and what they model:
--   Queue         sccp_queue.c, the plain queue: sccp_queue_init, _put, _get, _move and the others.
--   Queue/Sync    sccp_queue.c, the synchronised queue over an event descriptor, which is an interface
--                 record (EventFd) with what eventfd(2) promises. Trace runs sequences of operations;
--                 Order and Signal hold the proofs.
--   Deserializer  sccp_msg.c, sccp_deserializer_init, _read and _pop, and of sccp_session.c the loop of
--                 sccp_session_on_sock_events. Bounds, Frame, Stream, Drain and Receive hold the proofs.
--   Device        sccp_device.c. Types has the structures; Core the tasks for the time without the lock,
--                 the panic, and what is sent; Calls do_hold to do_answer_options; Forward call
--                 forwarding and do-not-disturb; Dial start_the_call; Softkeys and Messages the handlers
--                 of the phone's messages, to sccp_device_handle_msg; Channel the callbacks of Asterisk
--                 and the timers. Valid says when a device is well formed, and Links, Safety, Clear,
--                 Moves, Same, Start, Transfer, Keys, Input, Events, Requests and Steps hold the proofs
--                 about it; Refs is about references to channels, Kept about the database, and Held
--                 about a call that is answered on hold.
--   Setup         sccp_device.c: how a device is created, registered, reloaded and destroyed, with its line,
--                 its speed dials and its subscriptions, and who holds a reference to what. Speeddials
--                 has the speed dials, Life the creation and the reload, Register the registration, the
--                 end, and the answers to requests for data, which Requests hands out. Asterisk's
--                 extension states are an interface record (Hints). Create, Makes, Holds, Watches,
--                 Reload, Ends and Lookup hold the proofs.
--   Config        sccp_config.c: Alloc has the allocation of its structures, Options the handlers of
--                 options, Build the line and the speed dials of a device, Apply pre_apply_config and
--                 the lookups. Like, Turn, Devices, Lines, Guest, Ordered, Applied, Served, Turns and
--                 Complete hold the proofs.
--   Task          sccp_task.c, over a heap that is an interface record (Heap). Valid, Detach, Ends, Run
--                 and Wait hold the proofs.
--   Registry      sccp_device_registry.c, over containers that are interface records (Container).
--                 Contents, Restores, Names, Found and Complete hold the proofs.
--   Session       sccp_session.c: the calls of other threads and of the device, and the timers. Handle
--                 has what the thread does with its queue, its socket and a registration, Loop the
--                 loop of sccp_session_run, its end, creation and destruction. Keeps, Moves and
--                 Sock are about single steps, Refs and Life about references to configurations, Devices and
--                 Outcome about the registry, Stops about how a session ends.
--   Server        sccp_server.c. Refs and Released are about references to configurations, Sessions and
--                 Joined about references to sessions.
--   Messages      sccp_msg.c, the builders of messages whose fields are all 32-bit words; Bytes is
--                 about their frames in a stream, and Read about what a phone reads from them.
--   Common        names of the libraries, Boolean tests, and lists over the native numbers.
--
-- How the code corresponds: a function that changes a structure returns the new one. A subchannel's
-- address is a number, `heap` is the memory, and the line's AST_LIST is a list of addresses. A test is a
-- Bool, and -1 is `false`. What a device sends, and what it calls in Asterisk, is recorded in `out`,
-- newest first. Whether an allocation succeeds is read from `mem`, for all allocations to come.
-- Where the code asks Asterisk, the answer is an argument (CallSetup, Outside, ast_db_get), and
-- ast_copy_string is a field of the configuration. An unlock runs the queued tasks, with no other thread
-- in between; what other threads do before and after are further steps.
--
-- Bounds and fuel: sizes of the deserializer wrap at 2^64 and lengths in messages at 2^32, as size_t and
-- uint32_t do; call numbers wrap at 2^32. The loop that pops messages takes fuel, and its theorems hold
-- for fuel above the number of messages; every message takes at least 12 bytes of the buffer of 3072. The loop of a task runner's
-- run takes fuel too: more than there are due tasks is enough, and each round takes one off the heap.
--
-- How the parts meet: Session uses Queue, Deserializer, Task and Registry as they are. A device stands
-- there as the record of its entry points (DeviceApi), each of which answers with the calls that it
-- makes back into the session; the functions of Device are not yet put behind that record. A session's
-- thread and other threads take turns: a round is one step, and so is a call of another thread. Setup
-- has a Device in its Phone, and gives it the fields of the configuration that calls read. Config finds
-- names with the containers of Registry.
--
-- Not modelled: of the configuration, the registration of options with Asterisk and the handlers that
-- only hand a value on to it; the messages with text and the templates as bytes (that they are sent, and
-- with what, is recorded); printing, the media frames, and reference counts of subchannels, of which
-- Setup only counts those that hold the line. Of the messages of a phone, what is sent for soft key
-- templates, the time, the version and subscriptions is an argument, and its capabilities are not
-- kept. Of the server and the session, socket
-- options, addresses and logs.
pub mod Common
pub mod Queue
pub mod Deserializer
pub mod Device
pub mod Config
pub mod Messages
pub mod Registry
pub mod Server
pub mod Session
pub mod Setup
pub mod Task
