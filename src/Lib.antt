-- ===== src/Lib.antt =====
-- coseq runs sequences (coroutines) in modules. A module is a thread with an inbox of events and a
-- scheduler, which runs each sequence on a fiber of its own; sequences ask other modules for sequences,
-- wait for replies and timers, notify listeners and lock their module. The library is coseq/coseq.c with
-- its interface coseq/coseq_if.h.
--
-- Parts, and the files that model them:
--
-- Types.antt: the structs. A list with head and tail is a List; a pointer to a fiber is a number that is
--   never used twice, so that a pointer to a freed fiber finds nothing.
-- Time.antt: `now_ts`, `ts_add_ms`, `ts_lt`.
-- Queue.antt: the queues of events and replies with their head and tail pointers; elsewhere they are lists.
-- Event.antt: `make_ev`, `defer_ev`. Waiting.antt: `pending_add`, `pending_peek`, `pending_take`.
-- Fibers.antt: `set_src`, `new_fiber`, `reap_done`.
-- Request.antt: `coseq_request`, `coseq_request_timeout`, `coseq_request_async`, `coseq_send`,
--   `coseq_reply`, `coseq_wait_timeout` and the accessors. Gather.antt: `coseq_wait_reply`,
--   `coseq_gather`. Notify.antt: `coseq_reg_notify`, `coseq_unreg_notify`, `coseq_notify`. Lock.antt:
--   `coseq_lock`, `coseq_unlock`. Thread.antt: how these reach the state of their thread.
-- Sequence.antt: `fiber_entry` and `resume`, with what a sequence does between two resumptions.
-- Scheduler.antt: `handle_reply` and one round of `sched_loop`.
-- Instance.antt: `post` and `create_coseq`. Instance/Mailbox.antt: `ext_deliver`, `_request_sync`,
--   `_request_async`. Instance/Setup.antt: `_setup`, `stop_modules`, `_teardown`, `_destroy`.
--
-- Scheduler/Reach.antt and Scheduler/Balance: the life of a module, from `_setup` on, as rounds of its
--   scheduler with events between them, the accounts of its fibers' outstanding replies, and the ids of
--   its requests.
-- System.antt: the instance as a whole, the threads of its modules and external callers in any
--   interleaving.
-- Program.antt: the code of a sequence as a tree of library calls, and its run on a fiber.
--   Program/Host.antt: a module whose fibers have such code, by the rounds of its scheduler.
-- Samples.antt: the sequences of the programs that come with the library, as such code: Samples/C.antt for
--   samples/sample.c, Samples/Cpp.antt for samplespp/sample.cpp, Samples/Suite.antt and
--   Samples/SuiteModules.antt for testpp/main.cpp; Samples/Methods.antt for how the C++ layer finds them.
--   Samples/Client.antt: the `main` functions as programs over the calls of an instance,
--   Samples/Mains.antt those of the samples and Samples/SuiteMain.antt that of the tests.
-- Log.antt: `coseq_set_log_cb`, `coseq__log` and its macros, and `set_log_cb` of coseqpp/coseqpp.cpp.
-- Wrapper.antt: the C++ layer. Wrapper/Source.antt and Wrapper/Iface.antt: `result`, `reply`, `source` and
--   `iface` of coseqpp/coseqpp_if.h. Wrapper/Manager.antt: `module_base` of coseqpp/coseqpp_base.h and
--   `manager` of coseqpp/coseqpp.cpp.
--
-- The other files below a part prove what their comments say of it; Base.antt and its children are shared
-- helpers, Fixtures.antt and the tests (Tests, ReplyTests, SampleTests) run the definitions on concrete states.
--
-- How the parts interact: the state of a thread at work (`Thread`) is its module, the instance's counter
-- of client ids, and the list of what it has done to the rest of the instance (`Effect`): posts to inboxes
-- and replies to external callers. Instance/Post.antt performs that list on the instance. Effects of other
-- threads on an inbox come between rounds, as `receive`.
--
-- What is input: the code of sequences, as lists of library calls (`Burst`), or as programs (Program.antt)
-- where these are known; the clock; the outcome of each allocation (`Alloc`), of `getcontext`, and of the
-- pthreads calls of a setup (`Pthreads`). The theorems hold for all of them unless they say otherwise.
--
-- Bounds: request ids are 32 bits wide and wrap, client ids and module indices in a source 8 bits. A gather
-- loops on fuel, one more than the length of its queue, which is enough, since each of its turns takes a
-- record of the queue, waits, or ends. The endless loops of the samples have a number
-- of rounds to go, which is arbitrary, and end in a failure that no theorem meets before it is used up. All
-- other loops are recursions on lists or on a count of entries.
-- `time_t` and `size_t` do not overflow.
--
-- What is not modelled: machine contexts and stacks (a `swapcontext` that fails), mutexes and condition
-- variables, a `_teardown` while threads are at work, and the places where the library writes a log
-- message. The `main` functions are given as programs and not run on the instance, and that they set their
-- log callbacks is left out. What the samples print is kept, as formats with their arguments, what the
-- tests print is not; the callback of `coseq_gather` is given
-- the replies and calls nothing of the library; `snprintf` and `std::to_string` are a parameter of the loops that notify.
pub mod Base
pub mod Time
pub mod Types
pub mod Event
pub mod Waiting
pub mod Fibers
pub mod Thread
pub mod Request
pub mod Gather
pub mod Notify
pub mod Lock
pub mod Sequence
pub mod Scheduler
pub mod Instance
pub mod Program
pub mod Samples
pub mod Queue
pub mod System
pub mod Wrapper
pub mod Log
pub mod Fixtures
