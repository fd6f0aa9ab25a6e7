-- ===== src/Lib.antt =====
-- Server-Unit: a server that hands user data and processing templates to connected workers.
--
-- Monitors of the database fill the template registry and the sender sink. The sender core, a job
-- that the task scheduler keeps in a thread, sends the templates to each new worker and the user
-- data to the worker with the least load, as packets in the worker's queue. A worker that asks
-- gets the next packet and acknowledges it; a timer looks for packets that nobody acknowledged.
--
-- - Base: conditionals, lists, and `Outcome`, how a call ends: with a result, blocked on a
--   semaphore for ever, or at a fault, which is behaviour that C++ leaves undefined or an exception
--   that nobody catches. A heap is a function from addresses to live objects.
-- - Task: include/task.hpp, include/packet.hpp, include/process.hpp, include/flag.h.
-- - Json: packet_processor/packet_constructor.cpp over a JSON library, which is a parameter
--   (`JsonLib`); Json/Schema: the schemas of the server as data, with the schema validator as a
--   parameter (`SchemaLib`). Double: the type `double`, a parameter (`DoubleLib`).
-- - Config: configs.cpp and what the dialogue of main.cpp changes of it.
-- - Sink: sink/sink_stack.cpp. Pool: sched/task_pool.cpp. Scheduler: sched/task_scheduler.cpp, with
--   `sched_round` for a turn of `sched_task`, and `visit_slot` for a turn of `thread_task` in
--   Scheduler/Runner; Scheduler/Exit: `exit_sched`.
-- - Timeout: sched/timeout.cpp. Worker: worker_node/worker.cpp. Registry:
--   worker_node/worker_registry.cpp. Outgoing: packet_processor/outgoing_data_registry.cpp.
-- - Templates: sender_unit/userdata_template_registry.cpp. Instances:
--   sender_unit/worker_instance_list.cpp. Sender: sender_unit/sender_core.cpp and user_data.cpp,
--   with `SenderCoreData` in SenderData.
-- - Expiry: `Timeout::execute` of sched/timeout.cpp. Status:
--   packet_processor/process_status_packet.cpp.
-- - Sql: services/sql_access.cpp over a database that is a parameter (`SqlLib`). Extractor:
--   data_extractor/data_extractor.cpp, with the file system as a function. Monitor: a turn of the
--   loops of services/monitor_user_table.cpp and services/monitor_instance_table.cpp;
--   Monitor/Threads: these loops, and that of services/timeout_timer.cpp.
-- - DataPacket: packet_processor/process_data_packet.cpp. Validator:
--   packet_processor/packet_validator.cpp, the job that takes a packet out of the receiver sink.
-- - Socket: socket/prevalidate_json.cpp and `session::on_read` of socket/socket.cpp, from the text of
--   a message to the reply. Socket/Session: the callbacks of `session`; Socket/Listener: `listener`
--   and `startSocket`; Socket/Network: all connections, with the callbacks in any order. Boost.Beast
--   is third-party code: how an operation ends that the server starts is an event.
-- - Start: main.cpp from the shared objects to the sender core, and the first message to the server.
--   Start/Program: `main` from the dialogue to the service of the socket.
-- - State: the objects that main.cpp creates and the calls on several of them. `updateTaskStatus` keeps
--   its calls of `updateStatusInDb` in a list, and is a fault where it makes one while the database
--   cannot be reached; State/Statuses makes the calls on a database, and the validator does so with
--   those of the packet that it processes.
-- - Scheduler/System: the turns of the scheduler thread and of the worker threads in any order.
--
-- Functions keep the names of the source in snake case. A method on an object takes its state and
-- returns the new state. A pointer is an address or an `Option`; memory that the code reads without
-- having written it is an argument. Whole calls are steps: what other threads do inside a call is
-- not modelled, except where a semaphore would block the call itself, and in `wait_for_packet`,
-- where the turns of the other threads between two polls are a function.
--
-- Fuel: the inner loop of `thread_task`, the loop of `generateWorkerUid`, that of a session which
-- waits for a packet, those of `exit_sched` and of the threads of services/ need not end, so they
-- take fuel and return none when it runs out; how much is enough is a hypothesis of the theorems on
-- them. The outer loop of `thread_task` is cut after a number of turns. All other loops are
-- structural.
--
-- Not modelled: logging, the dialogue's output, sleeps, the condition variable of the scheduler,
-- the options of the streams, the endless loop at the end of `main`, and the third-party code:
-- Boost.Beast, lib/ and include/json.hpp. That a file which is to be written can be opened is taken
-- for granted.
pub mod Base
pub mod Task
pub mod Json
pub mod Double
pub mod Config
pub mod Sink
pub mod Pool
pub mod Scheduler
pub mod Timeout
pub mod Worker
pub mod SenderData
pub mod Registry
pub mod Outgoing
pub mod Templates
pub mod Instances
pub mod State
pub mod Status
pub mod Expiry
pub mod Sender
pub mod Sql
pub mod Extractor
pub mod Monitor
pub mod DataPacket
pub mod Validator
pub mod Socket
pub mod Start
