-- ===== src/Lib.antt =====
-- Models of the programs of this repository, and what is proved of them. Paths are from the
-- repository's root. Prelude holds the helpers that all share: lists and numbers, bytes, tests, and
-- the two bit operations. The programs are separate, but for the Greeter's clients and service, and
-- for the probes, which take their targets from the flag of IpPort.
--
-- Greeter models grpcdemo/server_async.cc, the asynchronous gRPC server. Greeter/Tag has tagify and
-- detagify, which pack a session and an event into the tag that gRPC hands back; Greeter/Session
-- the class GreeterSession (ProcessEvent, SendResponse); Greeter/Server the class GreeterServer:
-- the session map (AddNewSession, GetSession, RemoveSession), one function for the inner loop's
-- body of the accepter and of the worker thread, one for a round of the broadcast thread, and Start
-- and Stop. A handler returns the new state and the calls that it makes of gRPC.
-- Greeter/Session/Protocol puts a session beside its stream, and Greeter/Server/System the server
-- beside its two completion queues, as step relations: a completion arrives only for a call that
-- was made, in any order. In Greeter/Server/System/Once each call completes at most once. The three
-- threads take turns at whole completions and rounds, as the session map's mutex and each session's
-- make them.
-- HttpParser models misc/fsmlite_test.cpp: the checkers and actions of HttpRequestParser_fsm, in
-- HttpParser/Table the transition table, and in HttpParser/Main the loop of main. The classes
-- Request and HeaderList, absl and base's text functions are the parameter HttpBase, the library
-- fsmlite is the parameter FsmLite with its documented rule, the first row that fits is executed.
-- HandlerMemory and Echo model asio/allocation/allocation.cpp and
-- asio/buffer/reference_counted_buffer.cpp: handler_memory over a heap that is a parameter, the
-- connection's doWrite in both ways, doRead, and the accept loop. Echo/Handlers joins the two:
-- where asio keeps the handler of each operation, and who owns the connection; Echo/SharedBuffers
-- has the vector that the copies of a shared_const_buffer share.
-- AsyncClient models grpcdemo/client_async2.cpp: run, sendRequest, stop, and the callback thread;
-- AsyncClient/Program its main and the signal handler, beside that thread.
-- Service models grpcdemo/service_impl.cc: the four calls of the synchronous service. SyncClient
-- models grpcdemo/client.cpp, which calls them; SyncClient/Duplex puts the two threads of its last
-- call and the service at the two ends of a stream, as a step relation. AsyncStream models
-- grpcdemo/client_async.cpp in the same way: the two threads of run, and stop, which a signal calls
-- at any time.
-- IpPort models common/abseil_flag_ipport.hpp and .cpp, with absl's split and number parser as the
-- parameter Absl.
-- ConsoleClient models asio/allocation/client.cpp, with main's arguments in ConsoleClient/Start,
-- Timer asio/timer/timer3.cpp (Timer/Ticks), timer4.cpp and timer5.cpp. WindowSize models
-- linux/ioctl.cpp.
-- HttpProbe models http/tcp_reuse.cpp: the connection, the request, and in HttpProbe/Program main;
-- the TLS probes share all but main.
-- Tls models tls/tls_session_ticket.cpp (Tls/Ticket) and tls/tls_false_start.cpp (Tls/FalseStart):
-- create_ssl_conn, what is done with the session, the requests and main (Program), over a log of
-- the calls of OpenSSL whose results are arguments. Both build on create_tcp_conn of HttpProbe.
-- Tls/Ticket/Info models print_ssl_session_info, over what OpenSSL has of the session.
-- Daytime models the two servers and the client of asio/daytime.
-- ProducerConsumer models misc/producer_consumer.cpp as a step relation over critical sections.
-- Inventory models abseil/abseil_sync.cpp in the same way.
-- Hmac models openssl/hmac.cpp, with OpenSSL's digest and HMAC as the parameter Crypto.
-- Signature models openssl/signature_benchmark.cpp: the interface Worker, the workers and main,
-- with OpenSSL's elliptic curves as the parameter Curves.
-- Services models asio/use_service.cpp, with the registry of an io_context as the parameter
-- Registry.
-- Signals models the examples of misc/lsignal.cpp, with that library as the parameter Lsignal.
-- AnyObjects models protobuf/any.cc with the library as the parameter Protobuf, StudentJson
-- protobuf/pb24json.cc with its conversion as the parameter Json.
-- Allocators models memory/custom_new_delete.cpp and memory/custom_allocator.cpp, over the heap
-- that HandlerMemory takes. IntSequence models mpl/make_int_seq.cpp, and SaltedHash
-- misc/hash_with_salt.cpp.
-- Fibonacci models f4 of misc/matrix_fast_power.cpp, and f1 of misc/const_expr.cpp, with its main
-- in Fibonacci/Sums.
--
-- Fuel: Fibonacci.f4 runs its loop on as much fuel as its argument, which is enough by the result
-- below; Timer.run and Timer.Ticks.run_ticks complete as many waits as they are given. Numbers of
-- 64 bits keep their wrap-around, an `int` that leaves its range in Fibonacci is an overflow, the
-- counting `int` of ProducerConsumer, which runs for ever, is not bounded, and a write past an
-- array's end is none.
--
-- Not modelled: printing, logging, sleeping and time; the network, gRPC, asio, OpenSSL and absl,
-- but for the parameters above; a failure to allocate; a read of the probes that blocks for good;
-- what SSL_shutdown does on a null pointer; a std::thread's memory order, as every shared field is
-- read and written under a mutex or is atomic; the demonstrations of libraries and of language
-- features in std, in memory/shared_ptr.cpp, and in the rest of abseil, asio, grpcdemo, misc and
-- openssl.
pub mod Prelude
pub mod Greeter
pub mod HttpParser
pub mod HandlerMemory
pub mod Echo
pub mod SaltedHash
pub mod Service
pub mod Services
pub mod Hmac
pub mod ProducerConsumer
pub mod Fibonacci
pub mod Timer
pub mod HttpProbe
pub mod Tls
pub mod WindowSize
pub mod IntSequence
pub mod Inventory
pub mod AsyncStream
pub mod Signature
pub mod Signals
pub mod Daytime
pub mod StudentJson
pub mod SyncClient
pub mod IpPort
pub mod ConsoleClient
pub mod Allocators
pub mod AnyObjects
pub mod AsyncClient
