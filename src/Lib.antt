-- ===== src/Lib.antt =====
-- A model of greylist, a policy server for Postfix that keeps unknown senders waiting.
--
-- Postfix sends one request for each recipient, `key=value` lines with an empty line at the end. The
-- server (src/server.h) reads them with the parser (src/parser.h) into a triplet (src/triplet.h) of
-- client, sender and recipient, asks the core (src/core.cpp) for a decision, and answers with an
-- action (src/action.h). The core is a chain of matchers, each with a policy: a whitelist, or the
-- greylist (src/greylist.h), which keeps its triplets in a table behind a data source.
--
-- Which file models which part:
--   Utils            src/utils.h: numbers to text and back, and lower case
--   IpAddress        src/ipaddress.h, src/ipaddress.cpp: the client's address and names
--   Triplet          src/triplet.h
--   Core             src/core.h, src/core.cpp: the chain
--   Action           src/action.h: the answers
--   DataSource       src/datasource.h: the interface, a query as the list of the calls that build it
--   DbDataSource     src/dbdatasource.h: the SQL texts
--   TokenList        src/tokenlist.h
--   Tokens           src/tokens.h: the tables, and the enumerations that index them
--   Parser           src/parser.h
--   Server           src/server.h: the classes SocketReader and TripletWriter; Handle, the requests of
--                    one connection; Sockets, the threads of run and of the handlers around the
--                    clients' sockets; Monitor, the thread that watches the signal
--   TcpListener      src/tcplistener.cpp: the listening socket, over the calls of the system
--   Signals          src/system.cpp: the signal handler
--   Session          what a matcher and a policy work on
--   Matchers         src/exactmatch.h, src/patternmatch.h, src/allmatcher.h, src/whitelist.h and,
--                    in RegEx, src/regexcpp.h
--   Caches           src/cacherefresh.h, src/cachehandler.h, src/cachedexactmatch.h and
--                    src/cachedpatternmatch.h: the matchers with a cache
--   Greylist         src/greylist.h; Table compares it with greylisting that has no table
--   ConfigFileReader src/configfilereader.h: the lines of the configuration; Opening, the file
--   System           src/system.h and the creators that it calls (src/databasecreator.h,
--                    src/dbdatasourcecreator.h, src/matchcreator.h, src/whitelistcreator.h,
--                    src/greylistcreator.h, src/servercreator.h): the configuration turned into
--                    a core, the server's arguments, and the loop that reloads
--   Scheduler        src/simplescheduler.h: the workers and the caller as threads, interleaved
--   Daemon           the loop of src/system.h with the listening socket of each server
--   Main             src/main.cpp, and how it ends
--   Base             shared types and lemmas; Tests the theorems at concrete inputs
--
-- Texts are lists of bytes. A `std::map` is an association list in the order of its keys. A call that
-- may throw returns a `Result`, whose error is the text of the exception; what was written before the
-- exception stays written. A getter that fills a cache returns the object that it leaves behind.
--
-- The loops on fuel: `parse` gives one round more than its reader has left, and each round but the
-- last uses up one at least; `initNumeric` gets one round more than the address has bytes, and each
-- uses up a dot; `handle` gets one round more than its socket has bytes, and each that goes on uses
-- up one at least; the constructor of `ConfigReader` gets two more than the bytes of its file, and
-- each line but the last uses up one; `parseConfigurationSections` gets one more than the lines, and
-- each round uses up one.
--
-- Threads are step relations: a step is an access to something shared, or a section under a lock, and
-- the states are those that any order of steps reaches. Server.Sockets takes the scheduler for a queue
-- that may refuse a task; the scheduler's own threads are in Scheduler.
--
-- Parameters, since their code is elsewhere: the database library, the system calls for sockets, files
-- and signals, the clock, the resolver, regular expressions, and what an `unsigned` holds that was
-- never set. A record `IsLawful` or `IsStore` has what the documentation of such calls promises.
--
-- Not modelled: the rate that `stats` prints, a float; what goes to the log and to standard output and
-- is no error; the servers and caches of earlier versions, which are not built any more; and the
-- copies of other projects, for sockets, databases and thread pools.
pub mod Base
pub mod Utils
pub mod IpAddress
pub mod Triplet
pub mod Core
pub mod Action
pub mod DataSource
pub mod DbDataSource
pub mod TokenList
pub mod Tokens
pub mod Parser
pub mod Server
pub mod TcpListener
pub mod Signals
pub mod Main
pub mod Daemon
pub mod Session
pub mod Greylist
pub mod Matchers
pub mod Tests
pub mod Caches
pub mod ConfigFileReader
pub mod System
pub mod Scheduler
