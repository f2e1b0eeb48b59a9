-- ===== src/Lib.antt =====
-- Verification of the C programs of this repository. Each is a program of its own; the development
-- has one module for each, over the shared module Base.
--
-- qspinlock/ is the Linux queued spinlock in user space: qspinlock.c has the slow path of locking,
-- qspinlock.h the fast path and the unlock, include/qspinlock_types.h the 32-bit lock word.
--   Qspinlock/Lock.antt has the lock word as a record of its bytes, its view as a number and the
--   operations on it; Qspinlock/Thread.antt has one thread, with a constructor of Pc for each shared
--   access of queued_spin_lock, queued_spin_lock_slowpath and queued_spin_unlock, and `advance` for
--   the access and the local code up to the next one; Qspinlock/System.antt interleaves the threads,
--   one access at a time and in any order, as worker_thread of test.c runs them. A queue node is the
--   index of its thread, NULL is `none`, so the array `qnodes` is three functions of the index.
--   Qspinlock/Move.antt and Qspinlock/Cover.antt flatten a thread's access into a relation,
--   Qspinlock/Invariant.antt has the invariant of the system and its preservation.
--   Qspinlock/Progress/ has, for each reason to wait, the thread that will end it, and
--   Qspinlock/Order.antt follows two threads of the queue through the steps of all.
--   Memory is sequentially consistent: the barriers and the acquire and release variants of the
--   primitives are no steps, and the arm64 assembly under include/atomic/ is not modelled. The
--   threads are at most MAX_USER_THREADS, as test.c makes sure.
--
-- ceph-utf8/ceph-utf8.c has two UTF-8 encoders and a decoder, and checks them against each other.
--   Utf8/Defs.antt has them, with a buffer as a list of bytes. The loop of high_bits_set runs on fuel
--   9, which is enough for a byte; the loop of main that decodes runs on the length of its data, and
--   each round takes a byte or more. Utf8/Spec.antt says what the bytes of a code point are.
--   The benchmark and load_test_file, which is compiled out, are not modelled.
--
-- utf8-len.c counts the characters of a UTF-8 text. Utf8Len/Defs.antt has it: the loop runs on the
--   length of the text as fuel, a round takes a byte or more. Utf8Len/Chars.antt says what a text of n
--   characters is.
--
-- ceph-hash.c has a string hash with a 32-bit and with a 64-bit accumulator: StrHash/Defs.antt.
--
-- ascii.c tests a buffer for ASCII by 64-bit words and by vectors of 16 bytes: Ascii/Defs.antt, with
--   the loops on the length of the buffer as fuel and a vector as a list of its lanes. The assembly of
--   ascii.S is not modelled; the self-test takes the function that it tests as a parameter.
--
-- tlpi/tail.c prints the last lines of a file: Tail/Defs.antt has its arguments, the ring of line starts
--   and the first loop of main, over a list of what the reads do; `atoi` is a parameter. Offsets are
--   kept modulo 2 ^ 32. Tail/Output.antt has the loop that copies the lines to the output.
--
-- va2pa/va2pa.c and va2pa/vmmalloc_fork.c read entries of /proc/PID/pagemap: Pagemap/Defs.antt, with
--   `open` and `pread` as parameters. The loop runs on fuel 8, as each round reads one of eight bytes or
--   ends it.
--
-- rdma/03_file-transfer/rdma-file-transfer/ sends a file over RDMA: Transfer/Defs.antt has the contexts of
--   client.c and server.c and their on_completion callbacks, and the delivery of what they post, in
--   order, each into a posted receive, with the sender's buffer read at the delivery. The fuel of `run`
--   is a count of deliveries. A read of the file may give any number of bytes, also more than BUFFER_SIZE. Transfer/Loop.antt has the event loop of common.c, with the callbacks as
--   parameters, over a list of events that ends when rdma_get_cm_event fails. The verbs library is not
--   modelled beyond that, nor are the registration of the buffers and the server's on_disconnect.
--
-- rdma/02_read-write/ exchanges the keys of two buffers and reads or writes a message: Exchange/Defs.antt
--   has one peer, with on_event of rdma-client.c and rdma-server.c and on_completion of rdma-common.c, and
--   the work that it posts as a list. The content of the buffers is not modelled, and the calls of the
--   verbs library succeed.
--
-- tlpi/client-server.c is a client that passes lines on and a server that runs the commands in them.
--   ClientServer/Writen.antt has writen, ClientServer/Defs.antt the server and ClientServer/Client.antt
--   the client. A descriptor is the list of what its reads, writes and polls do, which bounds each loop;
--   `chdir` and the output of `ls` are parameters, and the loop of server_ls runs on the length of that
--   output. ClientServer/Session.antt says what a conversation is. main is not modelled.
--
-- rdma/01_basic-client-server/ has a client and a server that exchange one message: Connect/Calls.antt has the
--   calls of the verbs library, which a parameter lets fail, and the functions that client.c and server.c
--   share; Connect/Client.antt and Connect/Server.antt have their handlers and main, over a list of events
--   and completions in the order in which the two threads take them. The calls made are kept in a log, from
--   which Connect/Accounts.antt reads what is held. The contents of the buffers are not modelled.
--
-- mysql/vio-bench/ and mysql/vio-bench2/ measure a server that answers commands: of 141 bytes by 24 bytes in
--   the first, of 100 bytes by 100 bytes in the second, as their config.h say.
--   Vio/Defs.antt has vio_wait, vio_read and vio_write; the servers and the two clients have versions of
--   them that differ in what they do on EAGAIN, which is a parameter. Vio/Handlers.antt has the loops of
--   vio-bench/vio-server.cc and of the two vio-client.cc, and Vio/Bench.antt those of
--   vio-bench2/vio-server.cc, on fuel. A socket is the list of what its calls
--   do, and the bytes that will arrive. A round takes a command off the stream, so as much fuel as the
--   stream has commands, and one more, is enough. The clocks, the threads and the setting up of the
--   sockets are not modelled.
--
-- mysql/io-bench/mydd.cc writes a file by threads or by asynchronous requests. MyDd/Defs.antt has the
--   threads, the loop over the requests and the choice that main makes. A call succeeds or not as a list
--   says, which bounds the loop of the requests; the threads run on the count of their blocks.
--
-- cpp/sort-range.cc sorts by counting, cpp/mode-range.cc finds the most frequent value and cpp/minmax.cc
--   (Counting/MinMax.antt) the least and the greatest one: Counting/Defs.antt
--   has count_sort, count_mode and stl_mode. An array of counts is a list, whose writes out of range
--   change nothing; Counting/Ranks.antt has the place of a value in the stable order. The unordered_map is a
--   list of entries, and the order in which it is walked through is a parameter. `max - min + 1` is `none`
--   where it overflows a `long`, and the two functions with it.
--
-- c2c-lat/c2c-lat.cc measures how long two cores take to hand a variable to and fro. Latency/Defs.antt has the
--   two threads of test_latency, one access to a shared variable at a time and in any order, with a
--   constructor of Peer and Main for each place of an access; memory is sequentially consistent.
--   Latency/Options.antt has the options of main, as getopt_long gives them.
--
-- cpp/pext.cc extracts bits by a table: Pext/Defs.antt has the table and the loop, and Pext/Bits.antt what the
--   instruction does, bit by bit. The loops run on their counts.
--
-- rabin.c makes two steps of a rolling hash in two ways: Rabin/Defs.antt has both.
--
-- What is not modelled: the other C++ programs, the Go, Java, Python and JavaScript programs, the inline assembly, the
-- programs that measure the machine or only call the operating system, and the timing code of the
-- programs above.
pub mod Base
pub mod Utf8
pub mod Qspinlock
pub mod Connect
pub mod Vio
pub mod MyDd
pub mod Counting
pub mod Latency
pub mod Pext
pub mod Rabin
pub mod ClientServer
pub mod Utf8Len
pub mod StrHash
pub mod Tail
pub mod Ascii
pub mod Pagemap
pub mod Transfer
pub mod Exchange
