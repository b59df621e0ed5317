-- ===== src/Lib.antt =====
-- Verification library of webtool: rate limiting of web applications, with the caches, locks,
-- authentication data and keys that it rests on, and its log handlers, database client and
-- scheduler.
--
-- How the parts interact. The decorator `limiter` (webtool/throttle/decorator.py) gives a function
-- rules, which a rule manager holds. `LimitMiddleware` (webtool/throttle/middleware.py) finds the
-- handler of a request, asks its backends (webtool/auth) who the client is, searches the handler's
-- closure for the function that holds the rules, takes the rules that apply, and asks
-- `RedisLimiter` (webtool/throttle/limiter.py), which counts requests in Redis with a Lua script.
-- `JWTService` (webtool/auth/service.py) keeps the refresh tokens that it issues in a cache, under
-- a lock (webtool/cache), and loads its keys with webtool/utils/key.py. `RedisJWTService` keeps
-- them on a Redis server, with scripts of its own. The log handler (webtool/logger), the database
-- client (webtool/db) and the scheduler (webtool/auth/rotator.py) stand by themselves.
--
-- Files and sources:
--   Result                  the exceptions, and Python code that may raise.
--   Prelude                 Boolean tests, lists, integers, and `dict` as an association list in
--                           the order of insertion.
--   Cache/InMemory          webtool/cache/client.py, `InMemoryCache`: `init`, `expire`, `set`,
--                           `get`, `delete`, `aclose`. Spec has the map that it implements.
--   Cache/Lock              webtool/cache/lock.py: `acquire_loop` is the loop of both locks,
--                           `attempt` and `release` those of `AsyncInMemoryLock`. Exclusion has
--                           the steps that other tasks may take.
--   Redis                   the interface of sorted sets that the script calls, with the documented
--                           behaviour as laws, and an implementation of it for concrete runs.
--   Auth/Models             webtool/auth/models.py: `AuthData` and the payload factory.
--   Auth/Backend            webtool/auth/backend.py: headers, cookies, and the backends.
--   Auth/Service            webtool/auth/service.py, `JWTService`, and the error paths of
--                           webtool/auth/manager.py. Life, Expired, Revoked and Rotated follow a
--                           refresh token through creation, expiry, invalidation and update.
--   Auth/TokenCache         the interface of the cache that the service uses, and
--                           Auth/TokenCache/InMemory, `InMemoryCache` with its locks behind it.
--   Auth/Manager            webtool/auth/manager.py: what `decode` makes of PyJWT's answers.
--   Auth/Setup              webtool/auth/service.py: the constructor's keys, `_create_token` as
--                           `sign_token` and `_decode_token` as `check_token`.
--   Auth/TokenServer        the commands of Redis that the scripts of `RedisJWTService` call, as an
--                           interface, with an implementation for concrete runs.
--   Auth/RedisService       webtool/auth/service.py, `RedisJWTService`: its scripts `save_script`,
--                           `invalidate_script` and `search_script`, and its methods.
--   Auth/Rotator            webtool/auth/rotator.py: `wrapper` is the loop of the scheduler.
--   Cache/RedisClient       webtool/cache/client.py, `RedisConfig` and `RedisCache`.
--   Db/Client               webtool/db/client.py, `SyncDB`: `init_sync_db` is its constructor, over a
--                           heap of the caller's `dict`s, and `call_session` its generator.
--   Logging/Calendar        the dates of webtool/logger/dev_handler.py: `compute_rollover`, the
--                           text of a date, and the pattern of dated files.
--   Logging/Files           the directory of a log file, and its operations.
--   Logging/Handler         webtool/logger/dev_handler.py, `TimedRotatingFileHandler`; `emit` is
--                           that of its base classes, which calls the modelled methods.
--   Throttle/Rule           webtool/throttle/decorator.py, `LimitRule` and `LimitRuleManager`.
--   Throttle/Closure        the same file, `_find_closure_rules_function`.
--   Throttle/Decorator      the same file, `limiter`, over a heap of functions and managers.
--   Throttle/Limiter        webtool/throttle/limiter.py: `_get_ruleset`, the Lua script (`admit`,
--                           `visit`, `run_script`) and `is_deny`.
--   Throttle/Middleware     webtool/throttle/middleware.py: `_find_route_handler`,
--                           `_default_callback`, `__call__` and `apply`.
--   Utils/Key               webtool/utils/key.py: keys that are made, saved and loaded.
--
-- State is passed on explicitly. A method that reads a clock takes the readings that it makes, as
-- natural numbers: milliseconds in the caches, the locks and the scheduler, seconds in the log
-- handler, one unit of any length in the limiter.
-- The in-memory cache never suspends, and Redis runs a script as one step, so that an operation is
-- one step of a sequence in which operations of other tasks come between.
--
-- Fuel: the closure search and the search for a file name run on fuel. Two more than the number
-- of functions and the callables in their closures is enough for the first, one more than the
-- number of files for the second. A lock's loop runs over its rounds, one more than there are
-- sleeps in its timeout, and so does the scheduler's over its turns. A year takes at least 365 days, so
-- that one more than the number of days is enough for the search of a year.
--
-- Parameters: Redis, PyJWT and Keycloak, the cache as the token service uses it, JSON texts,
-- `bytes.decode`, the `cryptography` package, hash functions, `str.upper`, the application behind
-- the middleware, what `cjson` writes in Lua, the order in which a set of rules is visited, and Lua's
-- and Python's text of a number, for which a round trip is assumed.
--
-- Not modelled: what passes its arguments on to packages (`set`, `get` and `delete` of the Redis
-- cache, `SyncDB.init_db` and `close`, JSON and hashes); `AsyncDB`, which repeats `SyncDB`; errors of the file system under a log handler, a custom rotator, and an interval that
-- reaches back before 1970.
pub mod Prelude
pub mod Result
pub mod Auth
pub mod Cache
pub mod Db
pub mod Logging
pub mod Redis
pub mod Throttle
pub mod Utils
