-- ===== src/Lib.antt =====
-- The chat server and client of ChattingServer_v1.1 and the packets they speak, and the server, the client
-- and the load generator of ChattingServer_v1.0, as definitions that run.
--
-- The program is a chat. Its server runs on I/O completion ports: a thread accepts connections and makes
-- users; worker threads turn received bytes into packets and queue them; a logic thread takes the queue and
-- changes users and rooms, and queues packets for users; a sender thread encodes these onto the sockets.
--
-- Files, and the code (under ChattingServer_v1.1) that each is about:
--   Stream         NetworkLib/Stream.h. The array is the list of its 1024 bytes; `operator<<` is
--                  `write_int` and `write_str`, `operator>>` is `read_int` and `read_str`. Stream/Write
--                  and Stream/Read say what a stream holds and what it reads back.
--   Packet/Types   NetworkLib/PacketType.h, ClientPacket.h, ServerPacket.h: a constructor for each class.
--   Packet/Wire    the virtual functions `encode` and `decode` of these classes.
--   Packet/Factory NetworkLib/PacketFactory.h.
--   Packet/Encoded, Packet/Sendable, Packet/Decoded, Packet/Bounds: the wire format, and the proofs.
--   IoData         NetworkLib/IoData.h (`SetData`) with `OnRecv` and `SendPacket` of
--                  ChattingServer/Session.cpp; IoData/* has what a peer makes of a packet.
--   Containers     `std::set` and `std::map` with numbers for keys, as ascending lists.
--   Server/World   ChattingServer/Session.h, ChatUser.h, Room.h, Package.h: the objects, and one record
--                  `World` with the fields of UserManager, RoomManager, SendServer and LogicProcess.
--   Server/Rooms   ChattingServer/Room.cpp, RoomManager.cpp.
--   Server/Users   ChattingServer/UserManager.cpp, and the connecting half of Session.cpp.
--   Server/Logic   ChattingServer/LogicProcessFunc.cpp: a function for each packet that is handled.
--   Server/Threads a round of each thread's loop: ChatServer.cpp, LogicProcess.h, SendServer.h.
--   Server/Delivery the loop of SendServer.h over a queue, as `run_sends`; Server/Reception a packet on
--                  its way through a worker and the logic.
--   Server/Shutdown the destructor of ChattingServer/UserManager.h.
--   Server/Cast, Server/Connect, Server/Invariant/*, Server/Hazards, Server/Races: the proofs.
--   Conversation   a line from the client that types it, through the rounds of the server's threads, to a
--                  client that prints it: `say_and_send`, `relay`, and the rounds of the reader;
--                  Conversation/Shout the same for a line for all, and
--                  Conversation/Whisper for one user.
--   Workers        the worker threads around the completion port, by their numbers, and `DestroyThreads`
--                  of ChattingServer/IOCPServer.cpp and of that of version 1.0; Workers/Start the way
--                  there from main.cpp. Workers/Moves and Workers/Stop: the proofs.
--   Client/Commands ChattingClient/RoomDisplay.h, `SendChat`; Client/Lobby and Client/Room the displays of
--                  LobbyDisplay.h and RoomDisplay.h; Client/State ChattingClient/Client.h and ClientFunc.cpp;
--                  Client/Threads the threads and pages of ChattingClient/Client.cpp. Client/Exchange,
--                  Client/Displays, Client/Hazards: the client and the server, and the proofs.
--   Legacy         the files of ChattingServer_v1.0: Legacy/User ChattingServer/ClientInfo.cpp and
--                  UserInfo.h, Legacy/Manager ClientManager.h, Legacy/Cast ChatClientManager.h,
--                  Legacy/Packets Packet.h and PacketInfo.h,
--                  Legacy/Process PacketManager.h and .hpp, Legacy/Threads ChatServer.cpp, Legacy/Client and
--                  Legacy/Messages ChattingClient/IOCPClient.cpp, Legacy/Typing its loops over what is
--                  typed, Legacy/Screen and Legacy/Rows ChattingClient/Position.h with `RecvThread`.
--                  Legacy/Completed has the workers' rounds after some sends.
--                  Legacy/Manager/*, Legacy/RoomCast, Legacy/Exits, Legacy/Lines, Legacy/Names, Legacy/Heard,
--                  Legacy/Talk, Legacy/Rows/*: the proofs.
--   Stress         ChattingServer_v1.0/StressServer: Stress/Csv CsvParser.cpp, Stress/Clients
--                  ClientInfo.cpp, Stress/Threads StressServer.cpp and StressServer.h. Stress/Csv/Lines,
--                  Stress/Entry, Stress/Talk, Stress/Steady, Stress/Rounds, Stress/Reach: the proofs.
--   Base, Bytes    lists, tests, results and little-endian numbers. Tests: runs on a small server.
--
-- Objects behind pointers: `World.heap` has the users that were not deleted, by address, and a `User*` or
-- `Session*` is an address. Rooms are never deleted, and a `Room*` is the room's number. A call through a
-- null pointer, through a pointer to a deleted user, past an array or into `memcpy_s` with too large a
-- size is a `fault`, so that a theorem with `ok` on its right says that none of these happens. Numbers of
-- users wrap at 32 bits and those of rooms at 16. What the program leaves to chance is an argument: the
-- `junk` in uninitialised variables, the address of a new user, the system's `Answers` while a socket is
-- connected, and the `Completion` that a worker is handed. The threads
-- interleave by whole rounds: the server takes no locks, and what it does when two threads are inside
-- one container at once is not modelled. Only `run_sends` counts rounds, a round for each queued package.
--
-- Invariant of the server (`IsSound`): every registered pointer is to a user with that number, every user
-- is registered under the number of the user and of the session, and a user is a member of a room just if
-- the user's own field names that room. `Conforms` is what the protocol asks of a packet, and
-- `Effect` describes what each packet does by the fields that change.
--
-- A worker tests the flag, waits or has ended, and a completion that it takes is handled at once: `Run` is
-- any sequence of such moves and of completions that arrive, and `Reach` of Stress/Reach any sequence of
-- rounds of the load generator.
--
-- The client's display is a value with a number: a page that holds the number of another display holds a
-- pointer to one that was deleted. In the pool of version 1.0 a client is its index, the queue of free
-- clients is a list, and `Reach` counts the clients whose first receive failed. `split_from` has fuel for
-- each byte of the line, and each round takes one byte at least. `print_pieces` says `none` where its fuel
-- is used up: fuel for each byte of the text is enough where the loop ends.
--
-- Not modelled: what the system calls do, whose answers are arguments; the closing of handles and sockets
-- once the workers have ended, and the start and the joining of the other threads; logging; drawing on
-- the console but for the lines of a room; and the load generator of version 1.1, which is commented out.
pub mod Base
pub mod Bytes
pub mod Stream
pub mod Packet
pub mod IoData
pub mod Containers
pub mod Conversation
pub mod Server
pub mod Client
pub mod Workers
pub mod Stress
pub mod Legacy
pub mod Tests
