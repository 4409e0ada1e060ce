-- ===== src/Lib.antt =====
-- Adapters of OpenFrame: repositories over databases and producers and consumers over message queues,
-- each a package of its own under packages/ with the same parts: settings (config.py), a connection
-- module, a repository or a producer and a consumer, and a plugin for the registry of openframe-core.
-- A plugin builds its repository or producer in `initialize`, closes it in `shutdown`, and gives it
-- out while it is READY; a repository takes a client from a cache of the process; every method
-- turns the exceptions of its driver into errors of openframe-core.
--
-- The files and what they model:
--   Prelude          lists, texts (lists of code points) and Boolean tests on ℕ; no code
--   Effect           Python methods as functions from a state to an outcome and a state, with
--                    `raise`, `except` and `finally`; Effect.Errors has the exceptions and the health
--                    snapshots of openframe-core as far as the adapters use them;
--                    Effect.Objects has the methods of an object in a world, Effect.Loops and
--                    Effect.Iteration the `for` and the `async for`
--   Dict             Python dicts as association lists
--   Lifecycle        what the plugin classes write alike, from plugin.py of the packages below:
--                    `_status` and the held object, initialize, shutdown, health and the getter;
--                    Lifecycle.Queue is the plugin of the queue adapters, of which Nats.Plugin,
--                    Kafka.Plugin and Rabbitmq.Plugin are instances; Lifecycle.Single the plugin of
--                    DynamoDB, MongoDB, ChromaDB and FalkorDB; Lifecycle.Checks the health check
--   Redis            packages/openframe-adapters-db-redis/openframe/adapters/db/redis: Driver
--                    (config.py and the calls of redis-py), Connection (connection.py), Keys and
--                    Repository (repository.py), Plugin (plugin.py); Spec is the abstract
--                    repository, Race and Alone the cache under several tasks
--   Postgres         packages/openframe-adapters-db-postgres/openframe/adapters/db/postgres: Driver
--                    (config.py and the calls of asyncpg), Connection (connection.py), Statements
--                    (the texts of the statements) and Repository (repository.py), Plugin (plugin.py)
--   Sql              what the repositories and plugins of SQL databases write alike; its plugin is
--                    also that of Cassandra and, with a collection for the table, of Qdrant and Milvus
--   Mysql            packages/openframe-adapters-db-mysql/openframe/adapters/db/mysql: Driver
--                    (config.py and the calls of aiomysql), Connection (connection.py), Errors,
--                    Cursors, Statements and Repository (repository.py), Plugin (plugin.py)
--   Mariadb          packages/openframe-adapters-db-mariadb/openframe/adapters/db/mariadb, whose code is
--                    that of Mysql under other names: the definitions there, on its own settings
--   Cockroach        packages/openframe-adapters-db-cockroachdb/openframe/adapters/db/cockroachdb, whose
--                    code is that of Postgres under other names, likewise
--   Dynamodb         packages/openframe-adapters-db-dynamodb/openframe/adapters/db/dynamodb: Driver
--                    (config.py and the calls of aioboto3), Connection (connection.py), Repository
--                    (repository.py), Plugin (plugin.py)
--   Qdrant           packages/openframe-adapters-db-qdrant/openframe/adapters/db/qdrant: likewise, with
--                    Points (the default hooks of repository.py)
--   Milvus           packages/openframe-adapters-db-milvus/openframe/adapters/db/milvus: likewise, with
--                    Errors (_wrap_milvus of repository.py)
--   Mongo            packages/openframe-adapters-db-mongo/openframe/adapters/db/mongo: likewise, with
--                    Documents (the documents of repository.py)
--   Chroma           packages/openframe-adapters-db-chromadb/openframe/adapters/db/chromadb: likewise,
--                    with Rows (columns to rows, of repository.py)
--   Falkor           packages/openframe-adapters-db-falkordb/openframe/adapters/db/falkordb: likewise,
--                    with Labels (the validators of config.py) and Queries (the Cypher of
--                    repository.py)
--   Cassandra        packages/openframe-adapters-db-cassandra/openframe/adapters/db/cassandra: likewise
--   Nats             packages/openframe-adapters-queue-nats/openframe/adapters/queue/nats: Driver
--                    (config.py and the calls of nats-py), Errors (errors.py, server_list and
--                    _ensure_stream), Producer (producer.py), Consumer (consumer.py), Plugin (plugin.py)
--   Kafka            packages/openframe-adapters-queue-kafka/openframe/adapters/queue/kafka: Driver
--                    (config.py and the calls of aiokafka), Producer (producer.py), Consumer
--                    (consumer.py), Plugin (plugin.py)
--   Rabbitmq         packages/openframe-adapters-queue-rabbitmq/openframe/adapters/queue/rabbitmq:
--                    Driver (config.py and the calls of aio-pika), Errors (_wrap_rabbitmq of
--                    producer.py and consumer.py), Producer, Consumer, Plugin
-- The other modules of a component hold its proofs, and Fake and Tests run them on a server in memory.
--
-- A definition has the name of the function or method that it models, without leading underscores.
-- The libraries (redis-py, asyncpg, aiomysql, aioboto3, qdrant-client, pymilvus, motor, chromadb,
-- falkordb, cassandra-driver, nats-py, aiokafka, aio-pika, asyncio, json, OpenTelemetry) are the record `Driver` of a
-- component: calls on the state of the outside world, of which a theorem assumes what it names. An
-- exception of a library is a value of a type that the driver gives, and `isinstance` says which
-- classes it has; the wording of error messages is not kept, their class, adapter, operation and cause
-- are. An awaited call with its timeout is one call of the driver, since the adapters see only whether
-- it returned or what it raised.
--
-- Loops are structural recursions on the lists they run over, but for two: the decimal digits of a number,
-- whose fuel is its successor (a number has no more digits than that), and the scans of DynamoDB, whose
-- fuel is an argument: as much as there are pages, or more than the rank of the keys that they go on
-- from, is enough (Dynamodb.Scanning, Dynamodb.Ending). The message loop
-- of a consumer runs over the list of what its iterator yields, each entry saying whether another task
-- called `close` during the wait. Tasks that share the cache of Redis clients are a step relation:
-- a step runs one task from one await to the next. Objects whose attributes a method changes (the
-- entities of MongoDB, the collection of ChromaDB, the flag of FalkorDB) are part of the process, beside
-- its caches. Settings are natural numbers, floats counted in
-- milliseconds.
--
-- Not modelled: the adapters of Oracle and InfluxDB, logging, trace headers, two tasks between
-- the test of a cache and the insertion (but for Redis), other tasks during the `finally` of subscribe,
-- negative limits and offsets, and the scripts.
pub mod Prelude
pub mod Dynamodb
pub mod Effect
pub mod Cassandra
pub mod Chroma
pub mod Cockroach
pub mod Dict
pub mod Falkor
pub mod Lifecycle
pub mod Mariadb
pub mod Milvus
pub mod Mongo
pub mod Mysql
pub mod Rabbitmq
pub mod Redis
pub mod Nats
pub mod Kafka
pub mod Postgres
pub mod Qdrant
pub mod Sql
