-- ===== src/Lib.antt =====
-- A service that pulls media streams by ffmpeg children and keeps its streams in a MongoDB
-- database, with the watchdog that restarts it: the code under injectService/pull/src and
-- injectService/pulld/src.
--
-- The service is one process with several threads. The HTTP thread parses a request and puts an
-- event into the queue of one worker, in turn; a worker takes the events of its queue and starts,
-- restarts or kills children; the schedule thread forks dead children again. All of them share
-- the records of the database. The service holds the lock of a pid file; the watchdog tries that
-- lock every five seconds and, when it gets it, frees the host's registration in the database and
-- starts the service.
--
-- Which file models which part (paths below injectService/):
--   Common             pull/src/app/common.h
--   World              the state: pull/src/app/serverBiz.h with the database and the kernel
--   Cache              the operations of `ServerBiz` on the database, pull/src/app/serverBiz.cpp
--   Biz                its queues and threads, the same file
--   Process            `ProcessCtlModule`, pull/src/app/processCommonApi.cpp
--   Mongo, Bson        `MongoAdaptor`, pull/src/app/mongoCommonApi.cpp and
--                      pulld/src/mongodb/mongo_adaptor.cpp, and the documents it is given
--   Json               the reads of jsoncpp's values
--   RestApi            `CRestApi`, pull/src/app/rest_api.cpp
--   Ini                `CIniReader`, pull/src/config/iniReader.cpp and pulld/src/config/iniReader.cpp
--   Utils, Paths       `CUtils`, pull/src/utils/utils.cpp, and `get_cur_path` of
--                      pulld/src/global_conf.cpp
--   Title              the process title, pulld/src/global_conf.cpp
--   Main               pull/src/main.cpp, with `run` of `CRestApi`
--   Pulld              pulld/src/main.cpp
--   Log                `CLog`, pulld/src/log/pure_log.cpp and pure_log.h (`new_file` in Log/Files,
--                      `prt` in Log/Prints)
--   PString            pulld/src/string/p_string.cpp
--   External           the code that is called and is not in the repository's sources
--   Base               lists, texts, numbers and tests
--   Examples           a database, a reader and a kernel that meet the laws, and runs on them
--
-- A text is a list of bytes. An operation is an `Action`: from the state it gives an outcome (a
-- value, a failed `assert`, `exit`, or undefined behaviour) and the state behind it. A pointer
-- that may be null is an `Option`; a write out of bounds, a division by zero and an uncaught
-- exception are outcomes, never left out. Names are the code's. A class is a module:
-- `ServerBiz::put_data` is `Biz.put_data`, `CRestApi::start` is `RestApi.start`.
--
-- What the sources call and do not hold (libmongoc with its server, jsoncpp, the system calls) is
-- the record `External`, over which every definition is stated. What theorems rely on of it is
-- stated in External/Laws: what an insertion, an update and a removal do to the documents of a
-- collection, what a query matches, and that jsoncpp reads what libbson prints. Examples/Machine
-- gives an `External` that meets these laws.
--
-- What is stated of all the threads together is stated of serial runs: runs in which a call of
-- `put_data`, a round of the loop of `worker_loop` with one event and a look of the schedule
-- thread for dead processes never overlap. Nothing in the code keeps them from overlapping:
-- `put_data` holds a mutex, but the worker's calls on its queue and on the database do not.
-- Biz/Turns keeps the history of a serial run, the events that were put and those that were
-- handled; Biz/Overtakes follows two requests for one stream through the queues of two workers.
-- Process/Race has two calls of `spawn_process` that overlap, with the look-up and the insertion
-- as two steps. Biz/Overlaps takes one worker and the schedule thread apart at every call on the
-- database and the kernel, and lets these calls come in any order.
--
-- Process/Registry says what the children and their records are for: a set of streams, which a
-- start adds to, a stop takes from and a reload leaves. Process/Views reads that set off the
-- database.
--
-- Loops are structural recursion, or recursion on fuel: `Ini.load_lines` has the length of the
-- file, since each round reads one character at least; `Paths.slash_loop` has one round more than
-- the path has characters; `Biz.worker_drain` is given its fuel, and one round more than there
-- are events is enough; `Pulld.watch` is given, for each round, whether a signal comes in it.
--
-- `MongoLaws` takes it that a find does not fail. A `char *` is the memory from the pointer on,
-- and what reads it as a C string reads up to the first null byte.
--
-- Not modelled: the service's log by log4cplus; the overlap of more threads than these; the outer
-- loops of the threads, which never end, and their waits; the child's side of `fork`, which execs
-- ffmpeg; memory that is released.
pub mod Base
pub mod Bson
pub mod External
pub mod Common
pub mod World
pub mod Utils
pub mod Paths
pub mod Title
pub mod Log
pub mod Mongo
pub mod Json
pub mod Cache
pub mod Process
pub mod Biz
pub mod Ini
pub mod PString
pub mod Pulld
pub mod Main
pub mod RestApi
mod Examples
