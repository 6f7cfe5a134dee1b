-- ===== src/Lib.antt =====
-- A UDP over TCP tunnel and its libraries: a client proxy (src/libtcpclientproxy) that turns the
-- datagrams of each UDP sender into a TCP connection of its own to a server, a server proxy
-- (src/libtcpserverproxy) that turns TCP connections into datagrams to one UDP peer, the TCP and UDP
-- classes over ACE that both stand on (src/libtcp, src/libudp, src/libacetools), a client that
-- checks the numbers in what an example server sends it (src/notifiable_client), and the parsing of
-- arguments and the questions to the user (src/libargsparser).
--
-- Std holds the operations of std::string, std::to_string, std::stoi, maps and std::cin that the code
-- uses. Common is include/common: Common/Endpoint is Endpoint.h, Common/Buffer is Buffer.h,
-- OwnedBuffer.h and src/common/Constants.h; Common/Keys is about Endpoint::to_string as a key. Io is
-- SocketIO.cpp with IOResult.h, Io/Signal is SignalRegistration.cpp,
-- Io/LocalAddresses is LocalAddresses.cpp with ACEInitializer.cpp. Tcp/Session is the class of a
-- connection at either end, Tcp/Client is AceTcpClient.cpp, Tcp/Echo is TcpEchoHandler.cpp and
-- Tcp/Notifying is NotificationHandler.cpp of src/libtcp/examples; Tcp/Server is AceTcpServer.cpp and
-- Tcp/Acceptor is AceTcpServerAcceptor.cpp, over any handler of clients, a record of operations.
-- Udp/Client is AceUdpClient.cpp, Udp/Session is AceUdpClientSession.cpp, Udp/Server is
-- AceUdpServer.cpp, over any handler of datagrams, and Udp/Echo is UdpEchoHandler.cpp.
--
-- ClientProxy/Binding is UdpTcpBinding.cpp, ClientProxy/Manager is BindingFactory.cpp with
-- BindingManager.cpp, ClientProxy/SessionHandler is UdpSessionHandler.cpp, ClientProxy/Handler is
-- ClientProxyUdpHandler.cpp and ClientProxy/Assembly is TcpClientProxy.cpp, which builds them and the
-- UDP server. ClientProxy/Spec is an abstract relay, that keeps for each sender the connection it
-- has; ClientProxy/View gives the relay that a client proxy stands for. ServerProxy/UdpHandler is
-- ServerProxyUdpHandler.cpp, ServerProxy/Forwarder is UdpForwarder.cpp, ServerProxy/ClientHandler is
-- ServerProxyClientHandler.cpp with ClientKeyManager.cpp and SessionManager.cpp, and
-- ServerProxy/Assembly is TcpServerProxy.cpp. Tunnel joins both proxies: what the server proxy's UDP
-- client has sent is what the client proxy's UDP server receives.
--
-- Notifiable/Message, Notifiable/Validator, Notifiable/Stream, Notifiable/Threads and
-- Notifiable/Client (its connect, start and stop) are NotifiableClient.cpp. Args/Parser is the parser
-- of src/libargsparser with NotifiableClientArgs.cpp, Args/UserInput is UserInputHandler.cpp with
-- InteractiveConfigurator.cpp and Args/PortCleanup is PortCleanup.cpp. Programs/EchoTest is
-- src/tcpclient/main.cpp and Programs/Background is BackgroundRunner.h with BackgroundServer.h. The
-- other modules beside these hold proofs; Examples holds runs at concrete inputs.
--
-- The state of each part is a record with the fields of the class. Every method is a function of the
-- name of the method, in snake case, that takes the state and gives the result and the new state;
-- std::runtime_error is the outcome `thrown` of Sys/Exec, and catch clauses stand where they do in
-- the code. ACE and the operating system are the parameter `Os` of Sys/World: it answers each call,
-- by the number of the call in its thread. Each call and its answer, and each log entry, is kept in
-- the `World` of the thread, and the theorems speak of the lists of calls. What is assumed of `Os` is
-- `IsPosix`: a receiving call with a positive value has put that many bytes into the buffer, at most
-- as many as were asked for, and a negative value is -1. Where two calls are the two ends of a
-- network, that one gives what the other was given is a hypothesis of the theorem. A write is what a
-- sending call was given (`writes_out`), or what the call took of it (`accepted`).
--
-- A thread's loop `while (!cancelled)` runs at most a given number of rounds. It is shown that it
-- ends, with one round more than the calls that are left until the flag is set. The loop of
-- `process_response` has more rounds than the text has bytes, and the loops that ask the user have
-- more rounds than the input has bytes, which is shown to be enough.
--
-- Two threads are modelled where an order of their steps is written out (ServerProxy/SharedBuffer)
-- and in Programs/Background, a relation on the steps of the runner and of its owner, with exceptions
-- as steps; whether the server keeps a stop that comes before its start is a parameter there. All else
-- is about one thread, and another one may act between two calls of the functions: stopping a task is
-- what its thread still does once its flag is set, and whether the threads of the notifiable client
-- end is an argument of its `stop`. Not modelled: the text that vsnprintf makes of a format and its
-- arguments, a parameter of the loggers in Sys/Logger (src/liblogger); what ACE and the questions
-- print; ACE::init and ACE::fini; the main programs of the proxies and servers, which build the
-- classes above and wait for a signal; the answers of the user to `get_listen_endpoint` and to the
-- question whether a process that holds the port is to be stopped, which are arguments.
pub mod Base
pub mod Std
pub mod Common
pub mod Sys
pub mod Io
pub mod Tcp
pub mod Udp
pub mod ServerProxy
pub mod ClientProxy
pub mod Tunnel
pub mod Notifiable
pub mod Args
pub mod Programs
pub mod Examples
