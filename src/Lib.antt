-- ===== src/Lib.antt =====
-- A verification of the ride service of this repository: riders request rides, drivers accept, start
-- and complete them, both may cancel, and both rate each other afterwards.
--
-- The parts, and the files that model them (sources are under src/ride_service/):
--   models.py, db/tables.py        Models: the entities, the enums with their texts, the rows.
--   repositories/                  Repositories/User, Driver, Ride, Rating: the conversions between
--                                  entities and rows (_ride_from_row is ride_from_row) and each query
--                                  and write; Laws and Queries are what the services rely on.
--   services/ride.py               Services/Ride: one definition for each method of RideService, by the
--                                  method's name. Services/Ride/Lifecycle states what a ride may become,
--                                  without the code; Refinement shows that the methods keep to it;
--                                  Acceptance and Cancellation are about one method each.
--   services/driver.py             Services/Driver: the methods of DriverService.
--   services/rating.py             Services/Rating: the method rate and its parts; Rating/Once.
--   pricing.py                     Pricing, over Decimal, which models decimal.Decimal; Surge, Cache.
--   geo.py                         Geo; Geo/Symmetry.
--   dispatch.py                    Dispatch; Dispatch/Nearby, Offers.
--   sse.py                         Sse: the registry and a running stream; Sse/Delivery.
--   kafka_producer.py              Kafka: what is sent, as a log of topics and ride ids.
--   kafka_consumer.py              Consumer: the handlers and the loop on messages; Consumer/Reach;
--                                  Consumer/Values: the same loop on messages as bytes.
--   stale_ride_retry.py            Retry: one round, and the loop over rounds with any change in
--                                  the pauses.
--   services/ride.py, as coroutines Interleaving: the methods as tasks that give way at each await,
--                                  one step for a call of a repository, of pricing as a whole, or of
--                                  the producer; a save of a driver is two steps, the row and the
--                                  availability set. Schedule lets any calls of the five methods take
--                                  their steps in any order, with ticks of the rest of the program
--                                  that leave the rides alone; releasing is async with on the lock.
--                                  Alone, OneWinner, Deadlock, Races and Requests are about them.
--   config.py, schemas.py          Config, Schemas: settings, requests and responses.
--   rate_limit.py                  RateLimit.
--   auth/                          Auth/Jwt, Cookies, Dependencies; Auth/Presented.
--   routers/                       Routers/Auth, Driver, Rides: one definition for each endpoint, its
--                                  Depends parameters run first; Routers/Guards, Tokens,
--                                  Accounts, Limits.
--   ride_offer_listener.py         Listener: the loop over the messages of Redis; Listener/Delivery.
--   redis_client.py, and the       Process/Clients: configure, get and dispose, one definition for the
--   same functions of              three modules, and one for each function by its name; Effects,
--   rate_limit.py and              Opening, Bound and Stable are what these do. Race, Leak and Alone have
--   kafka_producer.py              get_producer in two parts, before and after its await.
--   start and stop of              Process/Background: the functions; Stops, Disowned, Startup and
--   kafka_consumer.py,             Serving are what they leave of the process.
--   stale_ride_retry.py,
--   ride_offer_listener.py,
--   and db/engine.py
--   main.py, state.py              Process/Lifespan: startup, shutdown and lifespan; Owned, Shutdown,
--                                  Dead, Starting, Uptime; Pools is the engine.
--   migrations/versions/           Migrations/Versions (from the root of the repository): the tables,
--                                  indexes and columns of the three revisions; Undone.
--
-- A Process has the objects that these modules make, each known by its number in a list (Objects):
-- the connections, which are open or not and belong to an event loop, and the tasks, which run, have
-- ended or were cancelled. The globals of the modules are the numbers of objects. Libraries is what
-- the client libraries decide: whether they accept an address, and whether a server answers at an
-- attempt to reach it, and how full a pool is after a session. A cancelled task ends at once, and closing a connection does not fail.
--
-- System puts the services together: a request is one call of a method, and serve runs requests one
-- after the other. System/Effects, Invariant, History and Availability are about any such sequence.
--
-- State and errors. World (in Env) is the state behind the service: the four tables of Postgres, the
-- sets, the geo-index and the texts of Redis, the log of Kafka and of published offers, the registry
-- of streams, the clock, and how many uuids were drawn. A method is an action of Exec on a World; it
-- returns a result or an error, and in both cases the world as it left it, since no write is undone
-- when a later step raises. Error has HTTPException with its status and detail and the exceptions
-- that the framework turns into an internal error.
--
-- Site (in Web) is the state of an endpoint: the World, the counters of the limiters, and how many
-- salts were drawn. Web/Laws states what is relied on of the libraries of the web layer: a token
-- decodes to its claims until its expiry, a hash accepts its password,
-- a limiter grants as many calls of a key in a window as its limit says.
--
-- What the code does not implement is a parameter, the record Env: float arithmetic and the functions
-- of math, the tables behind SQLAlchemy, Redis, uuid4, the texts of decimals and of JSON. Env/Laws
-- states the documented behaviour that theorems use: a table maps a key to the row last put there and
-- a select returns each matching row once, the sets, the expiry of texts, the count of a geo search, and
-- that uuid4 does not repeat. Memory is an environment in memory that has these properties, on which
-- Tests runs the examples. A float is a bit pattern that only these operations read. A database
-- constraint that fails, a position that Redis rejects, and the exceptions of math and of decimal are
-- errors of the model; a connection that fails is not modelled.
--
-- Bounds. Decimal works with the 28 digits of the default context. The stream of Sse runs on fuel, one
-- unit for each item that it takes from its queue; the theorem on it holds for any fuel above the
-- number of events. The search for nearby drivers asks for twenty results, as in the source.
--
-- Not modelled: calls of different services that interleave (a request of System runs to its end
-- before the next), the timing of the retry, parsing and validation of requests, the health endpoint,
-- migrations/env.py, and the tests. The operations of Alembic are a parameter, the record Database. The clients of Process are not the ones that the services of World call: a World is what
-- the servers hold, and a call of it reaches them.
pub mod Base
pub mod Exec
pub mod Objects
pub mod Decimal
pub mod Config
pub mod Text
pub mod Models
pub mod Schemas
pub mod Sse
pub mod Env
pub mod Repositories
pub mod Geo
pub mod Pricing
pub mod Kafka
pub mod Dispatch
pub mod Consumer
pub mod Retry
pub mod Services
pub mod Web
pub mod RateLimit
pub mod Auth
pub mod Routers
pub mod Listener
pub mod Interleaving
pub mod Process
pub mod Migrations
pub mod System
pub mod Memory
pub mod Tests
