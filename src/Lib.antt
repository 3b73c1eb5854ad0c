-- ===== src/Lib.antt =====
-- Models of the network programs, the thread pool and the blocking queues of this collection of C++
-- examples. Each file names the source that it is about; a definition has the name of its function,
-- or of the loop or branch of a main that it is the body of. What a system call, the heap or the
-- clock returns is an argument, so a theorem holds for all their replies; what a program does to
-- the outside is part of the state or a list of actions. Numbers are natural: a failed call is a
-- case of its own, and a width of 16 bits is written out.
--
-- Common holds the names of the libraries, Boolean tests, lists, the result of C code over buffers
-- (done, overrun for an access outside a buffer, diverged for a loop whose fuel has run out) and
-- writes into buffers.
--
-- Dns is network/dns. Query builds the request of async_dns_client.cpp: dns_create_header,
-- dns_create_question and dns_build_request over the bytes of their buffers. Name is dns_parse_name
-- and the loop that skips a question, Response is dns_parse_response; both loops have fuel, one for
-- each label or pointer, and the theorems say how much is enough. inet_ntop is a parameter. Async
-- is the context with its commit, its event thread and the release of a list, with the open
-- sockets, the interest list of epoll and the number of live heap blocks as state; Main is the
-- table of names with both loops of main, and Sync the client of sync_dns_client.cpp.
--
-- Echo is network/echo. Sys holds what the programs see of the system calls. Slots is the array of
-- client descriptors, shared by Select (d3_select_echo_server.cpp) and Poll
-- (d4_poll_echo_server.cpp); a turn of a server is a pass of its loop. Epoll is
-- d5_epoll_echo_server.cpp, Worker the loops of the threaded and of the forking server with
-- sig_chld, the str_echo of the threaded one over its buffer, and the race of the threads for the
-- variable of the loop; and Client the four clients.
--
-- C1000k is network/demo4_c1000k_server.cpp: the list of blocks of items and its growth, where the
-- list of replies of malloc bounds the loop, and the events of the server; and, in Client,
-- demo4_c1000k_client.cpp, a round of its main at a time. Demos is demo1_socket.cpp, the routine of
-- a thread, demo2_select.cpp, a pass of its loop at a time, and demo3_epoll.cpp, the events of one
-- wait.
--
-- ThreadPool is thread_pool/demo_threadpool.h and demo_threadpool.cpp, as a system of workers whose
-- steps interleave freely with calls of exec and stop; Clients has the calls of
-- test_threadpool.cpp. SyncQueue is condition_variable: both queues behind one interface of a
-- first-in first-out channel, and the producer and consumer of demo1_sync_queue.cpp. What a thread
-- does under a lock is one step, up to a wait or to the end. In the pool a wait is a step that is
-- not possible until its condition holds; in the queues a condition variable is the list of the
-- threads that wait on it, a notification takes one of them off, and a wait may also end without
-- one.
--
-- Libev is libev. Memory is a heap of typed blocks by address, where an access through a null or
-- freed pointer is an overrun; Server is demo1_echo_server.cpp and Client demo1_echo_client.cpp.
-- The calls of the loop are steps: of the listening socket, or of a started watcher with an event
-- that it waits for, or with an error, before which libev stops the watcher.
--
-- Udp is network/udp: dg_echo in the parent, Client with both loops of the client, and Select with
-- the server for both protocols. The wrappers of unp.h end the process on an error; an array on the
-- stack has any contents at first.
--
-- Ownership is rvalue_reference. Blocks is a heap whose blocks are released at most once, Scope the
-- end of a scope, which destroys its objects in the reverse of the order of their construction, for
-- any class whose destructor gives back what the object owns. Holder is the class A of
-- demo1_deep_copy.cpp, demo1_move_constructor.cpp and demo1_shallow_copy.cpp, with Get and main,
-- and Text is the class MyString of demo2_move_semantics.cpp; Text/Values has the same statements
-- on plain values. A program is a list of uses of a class, in any order. The compilers construct
-- what Get returns in place of the object that it initialises, and new does not fail.
--
-- Locks is mutex: Counter is demo1_mutex.cpp, where any thread takes the next step and the
-- increment is a read and a write, Guard is demo4_lock_guard.cpp, where an exception is a case of
-- what a call returns, and Queue is demo5_unique_lock.cpp. The counters stay within an int.
--
-- Not modelled: the textbook helpers in basic_lib, which the programs only call; what the child of
-- the forking server does with a descriptor that is taken for a pointer; the contents of addresses
-- and options of sockets; what is printed, where it is not part of a behaviour; memory orderings;
-- the remaining demonstrations of language features and of the thread library.
pub mod Common
pub mod Dns
pub mod Echo
pub mod ThreadPool
pub mod SyncQueue
pub mod C1000k
pub mod Libev
pub mod Udp
pub mod Demos
pub mod Ownership
pub mod Locks
