-- ===== src/Lib.antt =====
-- Realtime Ops Platform: the queue of jobs, the alerts and incidents that failures raise, and the
-- realtime feed of operators. The code is TypeScript on NestJS; this library models its services.
--
-- How the parts work together. The API (apps/api-gateway) calls the services of libs/application. The
-- job service inserts a job and sends a message to the queue `jobs.processing`; the consumer of
-- apps/processing-service hands each message to the job processor, which takes a lock in Redis, runs
-- one attempt, and writes the job, the attempt and, on failure, an alert and perhaps an incident.
-- Every service publishes events to the exchange `ops.events`, which apps/realtime-gateway emits to
-- the rooms of its sockets. Operators acknowledge and resolve alerts and incidents over the API.
--
-- The model. An action of a service is a function from the calls made so far to an outcome, a value
-- or an exception, and the calls made by then, newest first (Runtime.Monad). The calls are those that
-- leave the program: TypeORM repositories, ioredis, amqplib, socket.io and the clock (Runtime.Calls).
-- What they answer is an environment, an argument of every action: it may answer anything, or throw,
-- at every call, and may depend on all calls before. The theorems hold for every environment, so they
-- cover what other processes do to the database and to Redis between two calls. A call that throws is
-- recorded too, since its effect may have happened. No recursion needs fuel: the loops of the source
-- go over lists, or count to 30 in `waitForDatabase`; `read_pages`, which is a client and no code of
-- the source, goes over the number of pages that the service reports, and `rounds` over a number of
-- retries. Where a theorem says that code returns, it assumes that every call is answered (`Works`),
-- and for a whole run that the database and Redis answer as documented (`Database`).
--
-- Which file models which part:
--   Core             libs/core/src: enums, entities, and the values of JSON objects
--   Runtime          exceptions, environment, calls; the rules for what an action keeps and
--                    establishes, and what a list of calls shows of one part of the outside
--   Messaging        libs/messaging/src: publishToQueue, publishEvent and the routing keys
--   Events           libs/application/src/events/realtime-event-publisher.service.ts
--   Records          AuditService.log, NotificationService.create, RedisLockService, getClient
--   Reports          what actions keep that only notify, audit and publish, and that they return
--                    where every call is answered
--   Jobs.Service     libs/application/src/jobs/job.service.ts: create, getById, getStatus, retry
--   Jobs.Rows        the rows that job-processor.service.ts writes, and evaluateFailure
--   Jobs.Processor   libs/application/src/jobs/job-processor.service.ts: process and its helpers,
--                    each part of a method a definition of its own, composed as the method is
--   Jobs.Processor.Exclusion  several workers at one job, their calls to Redis in any order;
--                    Jobs.Processor.Leases and Timing are about a lock that expires after 60 seconds
--   Jobs.Lifecycle   the lifecycle of docs/domain-model.md as a step relation, in terms of which
--                    the service and the processor are described
--   Consumer         the callback of `consume` and the handler of job-processing.consumer.ts
--   Incidents        libs/application/src/incidents/incident.service.ts, and Incidents.Lifecycle,
--                    its lifecycle in docs/domain-model.md
--   Alerts           libs/application/src/alerts/alert.service.ts: create, getById, acknowledge
--   Realtime         apps/realtime-gateway/src: subscribe, unsubscribe, broadcast, the event consumer
--   Listing          `list` of the four services, and their pages; Listing.Orders is
--                    about the order that a database may give rows in
--   Auth             libs/auth/src: the token, the guard, the rate limit (Auth.Limits within a
--                    window, Auth.Counters, Staying, Bursts and Lockouts over
--                    time); handleConnection of the gateway
--   Health           libs/application/src/health/health.service.ts
--   Jobs.Status      libs/application/src/jobs/processing-status.service.ts
--   Http             apps/api-gateway/src: the controllers and DTOs; libs/common/src: the exception
--                    filter and the response interceptor
--                    Http.Routes, Serving, Guards and Guarding are about a whole request:
--                    the routes, the guards in the order of api-gateway.module.ts, the pipes, the
--                    controller and the filter, in the order that NestJS documents for them;
--                    Http.Accounts is about what any method leaves on record
--   Wiring           apps/*/src/*.module.ts and libs/*/src/*.module.ts, the constructors of all
--                    classes, main.ts of each application, and libs/database/src/typeorm.config.ts
--   Redis            libs/redis/src/redis.service.ts: connecting and closing; Messaging.Connection
--                    has that of libs/messaging/src/rabbitmq.service.ts
--   Schema           libs/database/src/migrations: the statements of up and down, and
--                    libs/core/src/entities as their decorators describe the tables
--   Scripts          scripts: the wait for the database, the migrations and the seed
--   System           the job service, the queue and the worker run one after the other, with a
--                    database that finds what was saved and a Redis that grants free locks;
--                    System.Lost is about a message that is delivered while the lock is held, and
--                    System.Races about two retries of one job at once
--   Tests            sample rows, and the theorems at them
--
-- Bounds and conventions. Numbers that the code keeps are natural numbers: priorities, counts and
-- dates in milliseconds. A number in a JSON payload is a sign, a mantissa and a power of two, which is
-- every finite double, and `failTimes` is compared exactly. A duration is an integer, as the clock
-- may go back. The number of pages is a division of natural numbers, which is what the double gives
-- for a limit up to 100 and a total under 2 ^ 45. The two numbers of the rate limit
-- are natural numbers too. An object that the code changes in place is a new record from there on.
--
-- Not modelled: NestJS, TypeORM, Swagger and class-validator themselves, of which the model has what
-- the code asks of them, and for the scope of a class what is documented; how results are written as
-- JSON; logging and what the scripts print; which of several rejected promises is the first in time.
-- The SQL of the migration is kept as what its statements say: PostgreSQL is a parameter that executes
-- them.
mod Prelude
pub mod Core
pub mod Runtime
pub mod Messaging
pub mod Events
pub mod Records
pub mod Reports
pub mod Jobs
pub mod Consumer
pub mod Incidents
pub mod Alerts
pub mod Realtime
pub mod Listing
pub mod Auth
pub mod Health
pub mod System
pub mod Schema
pub mod Scripts
pub mod Http
pub mod Redis
pub mod Wiring
mod Tests
