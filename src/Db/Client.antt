-- ===== src/Db/Client.antt =====
-- webtool/db/client.py, `SyncDB`: the configurations of the engine and of the sessions, as `dict`s
-- that the caller may share, and a session's life. `AsyncDB` is the same code with `await`.
pub mod Configs
pub mod Sessions
mod Tests
use webtool.Prelude.{
  ℕ, suc, String, Bool, true, false, Option, none, some, List, [], ◌∷◌, is_some, ◌==◌,
  if◌then◌else◌,
}
use webtool.Prelude.Dict.{Dict, lookup, insert}
use webtool.Result.{Exception, Result, ok, err, database_error}

-- The objects that references point to, and the next free reference.
pub record Heap (V : Type 0) : Type 0 where
  pub at : ℕ → Dict V
  pub next : ℕ

module _ {V : Type 0} where
  abbrev pub put : ℕ → Dict V → Heap V → Heap V
  put r d h = record { at = λ j. if r == j then d else h.at j; next = h.next }

  abbrev pub new : Heap V → ℕ × Heap V
  new h = (h.next, record { at = λ j. if h.next == j then [] else h.at j; next = suc h.next })

  abbrev pub full_or_new : ℕ → Dict V → Heap V → ℕ × Heap V
  full_or_new r [] h = new h
  full_or_new r (e ∷ d) h = (r, h)

  -- `args or {}`: an empty `dict` is false.
  unfoldable pub or_new : Option ℕ → Heap V → ℕ × Heap V
  or_new none h = new h
  or_new (some r) h = full_or_new r (h.at r) h

  -- `kwargs.setdefault(key, value)`
  unfoldable pub setdefault : String → V → Dict V → Dict V
  setdefault k v d = if is_some (lookup k d) then d else insert k v d

module _ {V : Type 0} (encode decode yes' no' : V) where
  unfoldable pub get_default_engine_config : ℕ → Heap V → Heap V
  get_default_engine_config r h =
      put r
        (setdefault "pool_pre_ping" yes'
          (setdefault "json_deserializer" decode (setdefault "json_serializer" encode (h.at r))))
        h

  unfoldable pub get_default_session_config : ℕ → Heap V → Heap V
  get_default_session_config r h =
      put r
        (setdefault "expire_on_commit" no'
          (setdefault "autoflush" no' (setdefault "autocommit" no' (h.at r))))
        h

  pub record SyncDb : Type 0 where
    pub engine_config : ℕ
    pub session_config : ℕ

  -- `__init__`: the engine gets `session_args`, and the sessions get `engine_args`.
  unfoldable pub init_sync_db : Option ℕ → Option ℕ → Heap V → SyncDb × Heap V
  init_sync_db engine_args session_args h =
      let (e, h₁) = or_new session_args h in
      let h₂ = get_default_engine_config e h₁ in
      let (s, h₃) = or_new engine_args h₂ in
      let h₄ = get_default_session_config s h₃ in
      (record { engine_config = e; session_config = s }, h₄)

-- `__call__`: what happens to the session of `with self.session_factory() as session`, around the
-- code that uses it. Leaving the `with` closes the session again.
module _ {S : Type 0} (rollback close : S → S × Result (Unit {0})) where
  -- `except exc.SQLAlchemyError`: an error of the rollback takes the place of the first one.
  abbrev rolled_back : Exception → S × Result (Unit {0}) → S × Result (Unit {0})
  rolled_back e (s, err e') = (s, err e')
  rolled_back e (s, ok u) = (s, err e)

  abbrev pub excepted : S × Result (Unit {0}) → S × Result (Unit {0})
  excepted (s, ok u) = (s, ok u)
  excepted (s, err database_error) = rolled_back database_error (rollback s)
  excepted (s, err e) = (s, err e)

  -- A `close` that is run whatever was raised; its own error takes the place of that one.
  abbrev closed_with : Result (Unit {0}) → S × Result (Unit {0}) → S × Result (Unit {0})
  closed_with r (s, err e) = (s, err e)
  closed_with r (s, ok u) = (s, r)

  abbrev pub and_close : S × Result (Unit {0}) → S × Result (Unit {0})
  and_close (s, r) = closed_with r (close s)

  unfoldable pub call_session : (S → S × Result (Unit {0})) → S → S × Result (Unit {0})
  call_session body s = and_close (and_close (excepted (body s)))
