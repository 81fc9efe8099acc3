-- ===== src/Lib.antt =====
-- A model of Mockly, a server that mocks HTTP and nineteen other protocols, with the theorems that
-- make its parts correct. Paths are those of the repository.
--
-- Every definition takes the values that the program reads from outside, such as the instant of a
-- call of time.Now, the number that a random generator draws, or a decoder of the standard library,
-- as an argument. A method that runs under one lock is one function from the old state to the result
-- and the new state. A map of Go is a list with one pair for each key, in the order in which a range
-- over the map meets the pairs; Go leaves that order open, and so do the theorems.
--
-- The parts and their files:
--   Base: tests on numbers, byte strings with the functions of package strings, maps, integers.
--   State: internal/state/store.go, the key-value store behind stateful mocks, and the template
--     functions of internal/engine/store.go. State/Race.antt splits Get at its lock.
--   Config: the records of internal/config/config.go that the other parts read; Config/Http.antt
--     holds those of an HTTP mock, Config/Faults.antt those of the faults.
--   Engine: internal/engine/matcher.go. Engine/Match.antt is HTTPMatch, which calls the tests of
--     Engine/Path.antt (paths), Engine/Values.antt (headers, queries), Engine/Body.antt and
--     Engine/Body/Xml.antt (bodies) and Engine/Auth.antt (authentication), reads the state store,
--     and renders with Engine/Render.antt. Engine/Diagnose.antt is HTTPDiagnose,
--     Engine/WebSocket.antt WSMatch and WSMatchFrame. A call of the standard library is a field of
--     the record Platform or of the record Renderer.
--   HttpServer: internal/protocols/httpserver/server.go. HttpServer/Handle.antt is handleRequest,
--     which counts the call (HttpServer/Counts.antt), chooses the entry of a sequence
--     (HttpServer/Sequence.antt), lets a scenario patch it (HttpServer/Reply.antt) and applies the
--     faults; it calls http_match, http_diagnose, patch_for, rate_limited, resolve_delay, roll_fault
--     and effective_fault of the other parts. HttpServer/Ntlm.antt is the handshake in front of it,
--     HttpServer/Truncate.antt the response that is cut off.
--   Messages: the MessageStore of internal/protocols/mqttserver/server.go and natsserver/server.go, a
--     ring buffer, and the one of amqpserver/server.go, a slice, which kafkaserver and stompserver
--     write alike.
--   Amqp: internal/protocols/amqpserver/server.go. Amqp/Wire.antt holds the frames,
--     Amqp/Connection.antt the state of a connection, Amqp/Routing.antt and Amqp/Topic.antt the way of
--     a message to its queues and mocks, Amqp/Publish.antt what is delivered.
--   Topics: the patterns of internal/protocols/mqttserver/server.go and natsserver/server.go.
--   Logger: internal/logger/logger.go. Logger/Channels.antt holds the sends and the closing of the
--     channels, Logger/Wait.antt WaitFor, both as steps that follow each other in any order.
--   Redis: internal/protocols/redisserver/datastore.go, with Redis/Hashes.antt and Redis/Lists.antt
--     for the methods on hashes and lists. Each reading of the clock is an argument.
--     Redis/Commands.antt is internal/protocols/redisserver/command_stateful.go over that store.
--   Snmp: internal/protocols/snmpserver/oid.go. The search runs on fuel, one round for each item of
--     the table, and each round leaves fewer places. Snmp/Agent.antt is the dispatch of
--     internal/protocols/snmpserver/agent.go over that search.
--   Scenarios: internal/scenarios/store.go. Scenarios/Faults.antt is internal/scenarios/faults.go;
--     the other children hold the proofs.
--
-- The templates are functions of the text, the request and the state store; the store that they see
-- is the one that the matcher is given, as the program's start arranges it. Upper and lower case are
-- those of ASCII, and white space is that of Unicode in UTF-8. A loop over the mocks reads the clock
-- once for all the conditions that it looks up; from one such loop to the next, and behind a delay,
-- the instants are different arguments. What a server does outside its own state, such as a delay, a
-- delivery or an entry of the request log, is a value in its result.
--
-- Not modelled: the other protocol servers, the recording of upstream answers and the events of a
-- stream, the management API, the command line, the importers and the clients, which are mostly input
-- and output.
--
-- An error rate is read in units of 2 ^ -53, which is all that the program can tell apart.
pub mod Base
pub mod State
pub mod Topics
pub mod Engine
pub mod Config
pub mod Scenarios
pub mod Amqp
pub mod HttpServer
pub mod Logger
pub mod Messages
pub mod Redis
pub mod Snmp
