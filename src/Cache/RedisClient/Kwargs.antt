-- ===== src/Cache/RedisClient/Kwargs.antt =====
-- What the pool of a `RedisCache` is made with.
use webtool.Prelude.{String, ◌≡◌, refl, ap, ◌∙◌, Bool, false, some, str_eq, if◌then◌else◌}
use webtool.Prelude.Dict.{
  Dict, HasDistinctKeys, lookup, insert, filter_value, lookup-insert, lookup-select,
}
use webtool.Result.{ok}
use webtool.Cache.RedisClient.{RedisConfig, fields, from_url, to_dict, init_redis}

fields-HasDistinctKeys : {V : Type 0} (c : RedisConfig V) → HasDistinctKeys (fields c)
fields-HasDistinctKeys c = (
  (refl, (refl, (refl, (refl, (refl, (refl, (refl, (refl, (refl, (refl, (refl, tt))))))))))),
  (
    (refl, (refl, (refl, (refl, (refl, (refl, (refl, (refl, (refl, (refl, tt)))))))))),
    (
      (refl, (refl, (refl, (refl, (refl, (refl, (refl, (refl, (refl, tt))))))))),
      (
        (refl, (refl, (refl, (refl, (refl, (refl, (refl, (refl, tt)))))))),
        (
          (refl, (refl, (refl, (refl, (refl, (refl, (refl, tt))))))),
          (
            (refl, (refl, (refl, (refl, (refl, (refl, tt)))))),
            (
              (refl, (refl, (refl, (refl, (refl, tt))))),
              (
                (refl, (refl, (refl, (refl, tt)))),
                ((refl, (refl, (refl, tt))), ((refl, (refl, tt)), ((refl, tt), (tt, tt)))),
              ),
            ),
          ),
        ),
      ),
    ),
  ),
)

-- With an address and no pool, the pool is made with every setting that is true in Python's sense
-- and with no other, and with a copy of the retry policy, also if that is false.
pub init_redis-lookup :
    {V : Type 0} (truthy : V → Bool) (deepcopy : V → V) (url : String) (c : RedisConfig V)
    → str_eq url "" ≡ false
    → (kwargs : Dict V) × (init_redis truthy deepcopy false (some url) c ≡ ok (from_url url kwargs))
      × ((k : String)
          → lookup k kwargs ≡ (
              if str_eq "retry" k
              then some (deepcopy c.retry)
              else filter_value truthy (lookup k (fields c))))
unfolding init_redis to_dict
init_redis-lookup truthy deepcopy url c full = (
  insert "retry" (deepcopy c.retry) (to_dict truthy deepcopy c),
  rw full refl,
  λ k.
      lookup-insert "retry" k (deepcopy c.retry) (to_dict truthy deepcopy c)
      ∙ ap (λ o. if str_eq "retry" k then some (deepcopy c.retry) else o)
          (lookup-select truthy k (fields c) (fields-HasDistinctKeys c)),
)
