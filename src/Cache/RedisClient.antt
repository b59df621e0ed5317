-- ===== src/Cache/RedisClient.antt =====
-- webtool/cache/client.py, `RedisConfig` and `RedisCache`: how the pool of connections is made, and
-- how the client is closed. The values of a configuration are any type, with Python's truth of them
-- and a deep copy.
pub mod Kwargs
use webtool.Prelude.{String, Bool, Option, none, some, [], ◌∷◌, str_eq, if◌then◌else◌}
use webtool.Prelude.Dict.{Dict, lookup, insert, select}
use webtool.Result.{Result, ok, err, type_error, attribute_error, key_error, ◌>>=◌}

-- The fields of the dataclass, in their order.
pub record RedisConfig (V : Type 0) : Type 0 where
  pub username : V
  pub password : V
  pub health_check_interval : V
  pub socket_timeout : V
  pub socket_connect_timeout : V
  pub socket_keepalive : V
  pub retry : V
  pub retry_on_error : V
  pub retry_on_timeout : V
  pub ssl : V
  pub max_connections : V
  pub protocol : V

-- `self.__dict__`
abbrev pub fields : {V : Type 0} → RedisConfig V → Dict V
fields c =
    ("username", c.username)
    ∷ ("password", c.password)
    ∷ ("health_check_interval", c.health_check_interval)
    ∷ ("socket_timeout", c.socket_timeout)
    ∷ ("socket_connect_timeout", c.socket_connect_timeout)
    ∷ ("socket_keepalive", c.socket_keepalive)
    ∷ ("retry", c.retry)
    ∷ ("retry_on_error", c.retry_on_error)
    ∷ ("retry_on_timeout", c.retry_on_timeout)
    ∷ ("ssl", c.ssl)
    ∷ ("max_connections", c.max_connections)
    ∷ ("protocol", c.protocol)
    ∷ []

-- What is built of the pool and the address that a client is given.
pub data Pool (V : Type 0) : Type 0 where
  given : Pool V
  from_url : String → Dict V → Pool V

-- An argument `redis_url`, where "" is false as `None` is.
abbrev full_url : Option String → Option String
full_url none = none
full_url (some url) = if str_eq url "" then none else some url

module _ {V : Type 0} (truthy : V → Bool) (deepcopy : V → V) where
  unfoldable pub to_dict : RedisConfig V → Dict V
  to_dict c = select truthy (fields c)

  abbrev pub pool_of : Option String → RedisConfig V → Result (Pool V)
  pool_of none c = err type_error
  pool_of (some url) c = ok (from_url url (insert "retry" (deepcopy c.retry) (to_dict c)))

  -- `RedisCache.__init__`: the first argument tells whether a pool was given.
  unfoldable pub init_redis : Bool → Option String → RedisConfig V → Result (Pool V)
  unfolding to_dict
  init_redis connection_pool redis_url c =
      if connection_pool then ok given else pool_of (full_url redis_url) c

-- `aclose`, over what the calls of the redis package do: `AttributeError` is caught in both steps.
module _ {S : Type 0} (client_aclose pool_aclose disconnect : S → S × Result (Unit {0})) where
  abbrev pub caught : S × Result (Unit {0}) → S × Result (Unit {0})
  caught (s, err attribute_error) = (s, ok tt)
  caught (s, r) = (s, r)

  abbrev pub then_run : (S → S × Result (Unit {0})) → S × Result (Unit {0}) → S × Result (Unit {0})
  then_run next (s, err e) = (s, err e)
  then_run next (s, ok u) = next s

  unfoldable pub aclose_redis : S → S × Result (Unit {0})
  aclose_redis s =
      then_run (λ s'. caught (then_run disconnect (pool_aclose s'))) (caught (client_aclose s))
