-- ===== src/Lib.antt =====
-- py-qgis-server: a front end for QGIS server that distributes HTTP requests to worker processes.
--
-- The parts and how they interact. A request passes the access policies
-- (src/pyqgisserver/middleware.py) to an HTTP handler (src/pyqgisserver/handlers), which gives it
-- to a client (zeromq/client.py), which sends it to the broker (zeromq/broker.py) under a fresh id.
-- The broker keeps requests in a bounded queue and hands each to a worker that has announced
-- itself. The worker (zeromq/worker.py, src/pyqgisserver/qgsworker.py) lets QGIS write its answer
-- through a response adaptor and sends it back in one message or in chunks; the client puts the
-- chunks together. Workers tell the supervisor (zeromq/supervisor.py) when they are busy, and it
-- kills those that stall. The pool (zeromq/pool.py) replaces workers that have exited, and the pool
-- server (src/pyqgisserver/qgspool.py) kills workers when memory runs short. Projects are kept by
-- the cache manager (src/pyqgisserver/qgscache/cachemanager.py) in an LRU cache
-- (src/pyqgisserver/utils/lru.py), and the workers report updates to the cache observer
-- (qgscache/observer.py).
--
-- Files and what they model:
--   Prelude     shared names, Boolean tests, equality instances, lists, results, actions that may
--               raise
--   Dict        Python dictionaries in insertion order, with their laws
--   Lru         class lrucache: one function for each method; Lru/Recency has its effect on the
--               entries, and Reads, Renewal and Trim help it and Cache
--   Http        handle_request of handlers/asynchandler.py; Http/Calls is what it works on,
--               Services the arguments of owshandler.py and oapihandler.py, Headers, Proxy and Base
--               the rest of basehandler.py; Writes, Views, Counting, Relay and Services/Limits
--               prove
--   Policies    middleware.py and the filters of src/pyqgisservercontrib/core; Policies/Routes
--               proves
--   Management  RequestHandler of management/apis/handler.py; Management/Apis has the handlers of
--               apis/cache.py and apis/plugins.py, Management/Pages those of management/server.py;
--               Flags and Finishing prove
--   Plugins     plugins.py; Plugins/Versions is about the version test
--   Components  the component manager of src/pyqgisservercontrib/core; Components/Singletons
--               proves, Components/Watch is watchfiles.py, Components/Config is ConfigService of
--               config.py
--   Delivery    Client, Stream and Http joined: an answer from QGIS to the HTTP client; Objects,
--               Whole and Served prove
--   Monitors    src/pyqgisserver/monitors: tags and passfile, with Monitors/Publisher for the
--               monitor itself; Tags, Passfile and Publisher/Routing prove
--   Settings    load_configuration of config.py, with Settings/Defaults for the options, and
--               Settings/CommandLine for read_configuration and main of server.py; Lookup, Loading,
--               Files and the children of CommandLine prove
--   Pages       handlers/statushandler.py, landingpage.py and stats.py; Pages/Served proves
--   Runtime     run_server of runtime.py; Runtime/Memo is utils/decorators.py and monitor.py
--   Text        Python's texts where the code looks into them, as lists of code points
--   Cache       QgsCacheManager: Cache/Urls is resolve_alias, Cache/Refresh has the operations on
--               many entries, Cache/Times is get_modified_time, Cache/Handlers reads projects, with
--               handlers/file_handler.py, Cache/Postgres is handlers/postgres_handler.py and
--               Cache/Secure about it; Updates, Lookups, Order, Paths and Progress prove
--   Observer    class Server of qgscache/observer.py; Observer/Life has its declaration, its client
--               and its loop, Observer/Keys is about one project among others, and Runs proves
--   Broker      run_broker: on_backend, on_frontend and dispatch are the three blocks of the loop,
--               turn is one round and turns any number of them; Assign, Dispatch, Sockets, Turns,
--               Runs prove
--   Messages    the frames of an answer
--   WorkerStart init_server of qgsworker.py and utils/qgis.py; Order is the order of events, and
--               Options, Application and Starts prove
--   Worker      RequestHandler of zeromq/worker.py: send and _write; Worker/Loop is run_worker, and
--               Brackets and Failures prove
--   Response    class Response of qgsworker.py
--   QgisRequest class QgsRequestHandler of qgsworker.py; QgisRequest/State is what a request works
--               on; QgisRequest/Report is get_report; Served, Refusals and Heads prove
--   Client      AsyncResponseHandler and AsyncClient; Client/Isolation is about interleaved
--               requests
--   Stream      Response, Worker and Client joined: an answer from its writing to its reading
--   Supervisor  both classes of zeromq/supervisor.py; Notifier, Timers and Kills prove
--   Pool        class Pool; Pool/Upkeep proves
--   Oom         check_oom_status of qgspool.py; Order and Relief prove
--   PoolServer  the rest of qgspool.py; PoolServer/Waiting proves
--
-- How the code is read. A class is a record, a method a function that returns the new record beside
-- its result, and raises through Result or through the actions of Prelude/Actions. Identities,
-- message ids and keys are texts, which are only compared; Cache/Urls also joins texts, and takes
-- the URL functions of the library as parameters, and where Http and Plugins look into a text it is
-- a list of code points. Contents are lists of numbers. Instants and durations are natural numbers
-- in one unit, in Cache microseconds and in Http milliseconds, and shares of memory in a small
-- unit, so that no rounding is modelled; an earlier instant minus a later one is 0 here where
-- Python has a negative number, which passes the same tests. What pickle wraps is a value of
-- Messages.Payload. The network, the clock, the scheduler, the operating system and the choice of
-- set.pop are arguments: the theorems hold for all of them.
--
-- Bounds and fuel. The inner loop of the broker takes one worker away in each round, so it gets the
-- number of available workers as fuel; Broker/Assign shows that it is enough. The digits of a
-- number are computed with the number as fuel, which is enough by Text/Numbers. The wait for
-- reports recurs on the seconds that are left of ten. All other loops recur on the list that they
-- consume.
--
-- Not modelled: socket options, logging, the HTTP server, and QGIS itself.
pub mod Prelude
pub mod Dict
pub mod Cache
pub mod Lru
pub mod Broker
pub mod Messages
pub mod Worker
pub mod Response
pub mod Client
pub mod Stream
pub mod Supervisor
pub mod Pool
pub mod Oom
pub mod Observer
pub mod QgisRequest
pub mod Text
pub mod Plugins
pub mod Http
pub mod Policies
pub mod Management
pub mod Components
pub mod PoolServer
pub mod Runtime
pub mod Delivery
pub mod Monitors
pub mod Settings
pub mod WorkerStart
pub mod Pages
