-- ===== src/Lib.antt =====
-- Verification of xitter: the services behind a small social network, and the workers that follow
-- their events. A request reaches a service over HTTP, the service reads and writes its own
-- Postgres tables through Prisma, and publishes events over Kafka; workers consume the events and
-- call other services. Every night a reset job wipes and reseeds the data, while a gate in each
-- worker holds its consumer.
--
-- Prelude        shared tests on numbers, lists, integers
-- Database       Prisma over Postgres, which is not part of the repository: a record of the calls
--                with their documented behaviour as laws (Database/Sample is a client that meets
--                them). A table is a list of rows.
-- Gate           packages/events/src/reset-epoch.ts: the reset epoch gate of a worker. The state is
--                the closure's variables; `proceed` is what a poll does between two awaits, so that
--                polls, handlers and rebalances interleave; `Step` and `Reach` are the schedules.
-- Seed           packages/scripts/src: seed.ts, the creation of the corpus' posts and the probe, over the
--                retries of lib/api.ts, against a posts service that is a table and a script of what
--                becomes of each request.
-- Social         apps/services/social/src/modules/social: social.service.ts over
--                social.repository.ts. A method is a function from the tables to its result, or the
--                error it throws, and the new tables.
-- Posts          apps/services/posts/src/modules: posts.repository.ts in Posts itself, with the
--                transactions rolled back where a query is rejected, and posts.service.ts in
--                Posts/Service; Posts/Threads reads a thread. `replyCount`, `likeCount` and `repostCount` are signed.
-- Feed           apps/services/feed/src/modules: feed.service.ts over feed.repository.ts and
--                checkpoint.repository.ts; Feed/Page reads a feed.
-- Fanout         apps/workers/fanout/src: handlers.ts and entries.ts, calling Feed over a network
--                that a script of outcomes describes.
-- Http           packages/service-kit/src/errors.ts: the errors and the results of a handler
-- Media          apps/services/media/src/modules: media.service.ts over media.repository.ts and keys.ts
--                (the lookup with its alt texts in Media/Lookup);
--                Media/Worker is apps/workers/media-process/src/handlers.ts, calling Media over such
--                a network.
-- Paging         packages/service-kit/src/cursor.ts and the keyset pages of a repository
-- Reset          packages/scripts/src/reset-flow.ts: the nightly reset, whose calls of the stores follow
--                a script of outcomes. Its wait for the workers' heartbeats is the barrier that Gate
--                answers.
-- RateLimiter    packages/auth-nest/src: rate-limiter.ts and rate-limit.guard.ts
-- SearchIndex    apps/workers/search-index/src: handlers.ts and documents.ts, with the writes of the
--                search service. OpenSearch is a record of its calls with laws, as Prisma is.
-- Search         apps/services/search/src/modules: search.service.ts over posts-index.ts. The query
--                language of OpenSearch is a record with its documented meaning as laws.
-- Events         packages/events/src: producer.ts, envelope.ts, consumer.ts and the tracking of handlers
--                in worker.ts. kafkajs is a sequence of fetches, from the position of a partition,
--                and of reassignments, and a send that leaves any number of copies, at least one where
--                it resolves; JSON is a record with laws.
-- Release        packages/scripts/src/release-version.ts: the version of a release
-- Auth           packages/auth-nest/src/auth.guard.ts with the clients and roles of packages/auth/src
--
-- An id, a topic, an epoch or a display name is only compared, and is a number; a text whose shape
-- matters is the list of its code units. Times are milliseconds. An operation of a service runs
-- whole, except where a file says that requests interleave. The batches of the fanout worker run on
-- fuel, the number of entries, which is enough because each batch takes at least one; the four walks
-- of a feed read and the five pages of a backfill are the bounds of the code. The chunks of the
-- search worker run on the number of their elements, which is enough as well. The wait of a reset
-- ends at the first poll after its deadline, so that its bound is the number of polls before that one.
--
-- Not modelled: HTTP, the signatures of tokens, logging, metrics and the user interfaces; what Prisma,
-- Kafka, Valkey, Keycloak, the object storage and OpenSearch do inside; and, of the
-- program itself, the sessions of the web application, and the corpus and the other steps of the seed.
pub mod Auth
pub mod Database
pub mod Events
pub mod Fanout
pub mod Feed
pub mod Gate
pub mod Http
pub mod Media
pub mod Paging
pub mod Posts
pub mod Prelude
pub mod RateLimiter
pub mod Release
pub mod Reset
pub mod Search
pub mod SearchIndex
pub mod Seed
pub mod Social
