-- ===== src/Lib.antt =====
-- A verification library for proxysm, a service that hands out upstream proxies.
--
-- The program's parts: a health checker (src/health/checker.py) that probes each proxy and keeps its
-- counters, its status and its schedule in Redis; a rotation engine (src/rotation/engine.py) that
-- selects a proxy of a pool by Lua scripts (src/rotation/lua_scripts.py) and reads the status that
-- the checker wrote; a parser of proxy lists (src/services/import_parser.py); and a poller
-- (src/services/source_poller.py) that fetches such lists and merges them into the table of proxies.
-- Two servers (src/proxy/http_proxy.py, src/proxy/socks5_proxy.py) authenticate a client, take a
-- proxy from the engine and relay. A request logger (src/services/request_logger.py) counts what
-- went through, the counters are flushed (src/services/bandwidth.py), and rules over the records fire
-- alerts (src/services/alerts.py). The records are added up by windows of time
-- (src/services/metrics.py), stand in daily partitions (src/services/partitions.py), and are what the
-- statistics are made of (src/api/stats.py). An HTTP API (src/api) keeps the tables and pushes pools
-- to Redis.
--
-- The files:
--   Base, Text, Models: shared names; Python's str methods over lists of code points; the rows and
--     the settings (src/models, src/config.py).
--   Redis: the keys, the values, and the commands as a record of operations with their documented
--     effect, which every part that talks to Redis takes as a parameter. A read names the time, so
--     that expiry is visible. Redis/Memory is an instance.
--   Health: `check_single_proxy`, branch by branch. Health/Cycle: `check_all_proxies`,
--     `_schedule_next_check`, `_insert_health_log`. Health/Frame: which keys they leave alone.
--     Health/Runs: runs of failures. Health/Schedule: the times of the next check.
--   Rotation: the scripts. Rotation/Engine: the methods of `RotationEngine`. Rotation/RoundRobin,
--     Random, Weighted, RateLimit: a script each. Rotation/Engine/Alive, Cache, Sticky: the engine.
--   ImportParser: every function of the parser. ImportParser/Formats, Ports, Lines: lines in a given
--     format, the range of ports, whole texts.
--   SourcePoller: `_sync_proxies`. SourcePoller/Feed: the dict of the feed. SourcePoller/Merge: the
--     rows. SourcePoller/Poll: the polling. SourcePoller/Failures: the failure counter.
--   Auth: `_authenticate` of src/proxy/http_proxy.py and src/proxy/socks5_proxy.py, with the query
--     over src/models/project.py, pool.py and associations.py. Auth/Cache: its cache.
--   Socks5: the handshake of `handle_socks5_client` in src/proxy/socks5_proxy.py, over the bytes that
--     the client sent. Socks5/Request: a conforming client. Socks5/Server: the whole of
--     `handle_socks5_client`, with the choice of the upstream, the connection and the replies.
--     Socks5/Server/Access: who gets a tunnel. Socks5/Server/Relay: the loop of `_relay`.
--   Bandwidth: `flush_bandwidth` of src/services/bandwidth.py. Bandwidth/Totals: its accumulator.
--   HttpProxy: the codecs. HttpProxy/Headers: the header block and `_parse_proxy_auth`.
--     HttpProxy/Connect: `_handle_connect`. HttpProxy/Forward: `_handle_http`. HttpProxy/Client:
--     `handle_client`, which puts them together with Auth, the engine and the log. HttpProxy/Route:
--     through which upstream. HttpProxy/Owned: under which ids it is logged. HttpProxy/Gate: who
--     gets through. HttpProxy/Login: credentials, sent and read. HttpProxy/Stripped: the headers
--     that are sent on. HttpProxy/Letters: a codec for the examples.
--   RequestLogger: `RequestLogger`, and what `flush_bandwidth` reads. RequestLogger/Flow: what a
--     request adds. RequestLogger/Scan, Conserved: what of it the flush finds.
--   Metrics: `_rollup_5min`, `_rollup_1hour`, `_rollup_1day`, `rollup_metrics` and `cleanup_old_data`
--     of src/services/metrics.py. Metrics/Lookup: reads of the table. Metrics/FiveMinutes, Coarser: the
--     rows behind a rollup. Metrics/Balance: what holds of every row. Metrics/Tally, Hours: from the
--     requests to the row of an hour. Metrics/Cleanup: what is deleted. Groups: GROUP BY.
--   Partitions: `ensure_partitions` and `drop_old_partitions` of src/services/partitions.py.
--     Partitions/Dates: the calendar. Partitions/Names: the dates in names. Partitions/Days: when
--     a partition is dropped. Partitions/Asked, Created: which are created.
--   Alerts: a round of `evaluate_alerts`. Alerts/Conditions: the four conditions. Alerts/Cooldown:
--     rounds. Alerts/Dead, Rate: two of the conditions.
--   WebAuth: src/web/auth.py, `admin_auth` of src/api/deps.py, and the login of src/web/routes.py.
--     WebAuth/Token, Admin: session tokens, and who passes.
--   Api: replies and request bodies. Api/Paging: pages of a list. Api/Pools: src/api/pools.py, with
--     Members, Push and Serves on what a change of a pool does to the tables, to Redis and to the
--     rotation. Api/Projects: src/api/projects.py, with Slug and Revoked. Api/Proxies:
--     src/api/proxies.py, with Import and Check. Api/Rotation: src/api/rotation.py, with Failover.
--     Api/Sources: src/api/sources.py, with Integrity and Polls.
--     Api/Stats: src/api/stats.py, the statistics of requests in Requests and Load, those of the
--     table of metrics in Rollups and Entities; Buckets, Classes, Miscounted, Overview and Thrice on what
--     they count.
--   The Tests modules hold concrete runs.
--
-- Choices. A UUID is a number; a time is a number of milliseconds, and a latency, which the code
-- rounds to one digit, of tenths of a millisecond. A round of the checker reads the clock once. What
-- random functions draw, what a connection or a request does, what urlparse finds, the codecs and
-- what SHA-256 and HMAC give are arguments. Every loop is structural or has the bound that the code
-- gives it, but for the loop of `_relay`, which takes fuel: one round more than there are bytes is
-- enough, since each round reads a byte at least. An exception is a value of the result. A statement
-- of SQL is a function of the rows of its tables; the aggregates of the database on response times,
-- and arithmetic on floats, are arguments.
--
-- Not modelled: logging, Prometheus, the scheduler, sockets and timeouts; the API of alert rules and
-- the list of proxies with its filters; the web pages, which are templates.
pub mod Base
pub mod Models
pub mod Redis
pub mod Health
pub mod HttpProxy
pub mod Rotation
pub mod Text
pub mod WebAuth
pub mod ImportParser
pub mod SourcePoller
pub mod Auth
pub mod Socks5
pub mod Groups
pub mod Bandwidth
pub mod Metrics
pub mod Partitions
pub mod Alerts
pub mod Api
pub mod RequestLogger
