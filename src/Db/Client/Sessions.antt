-- ===== src/Db/Client/Sessions.antt =====
-- How a session of `SyncDB` ends.
use webtool.Prelude.{◌≡◌, refl, ap, ◌∙◌, Bool, true, false, if◌then◌else◌}
use webtool.Result.{Result, ok, err, database_error}
use webtool.Db.Client.{excepted, and_close, call_session}

abbrev pub is_database_error : Result (Unit {0}) → Bool
is_database_error (ok u) = false
is_database_error (err database_error) = true
is_database_error (err e) = false

module _ {S : Type 0} (rollback close : S → S × Result (Unit {0}))
    (rollback_ok : (s : S) → (rollback s).1 ≡ ok tt)
    (close_ok : (s : S) → (close s).1 ≡ ok tt) where
  and_close_lem :
      (s : S) (r : Result (Unit {0})) → and_close rollback close (s, r) ≡ ((close s).0, r)
  and_close_lem s r = rw (close_ok s) refl

  excepted_lem :
      (s : S) (r : Result (Unit {0}))
      → excepted rollback close (s, r) ≡ ((if is_database_error r then (rollback s).0 else s), r)
  excepted_lem s (ok tt) = refl
  excepted_lem s (err database_error) = rw (rollback_ok s) refl
  excepted_lem s (err e) = refl

  -- Where rolling back and closing do not fail: the code that uses the session gets through what it
  -- raised, the session is rolled back before that exactly if it is an error of the database, and in
  -- every case it is closed in the end.
  pub call_session_lem :
      (body : S → S × Result (Unit {0})) (s : S)
      → ((call_session rollback close body s).1 ≡ (body s).1)
        × ((call_session rollback close body s).0
            ≡ (close
                (close (
                  if is_database_error (body s).1
                  then (rollback (body s).0).0
                  else (body s).0)).0).0)
  unfolding call_session
  call_session_lem body s =
      let left = if is_database_error (body s).1 then (rollback (body s).0).0 else (body s).0 in
      let all =
        ap (λ u. and_close rollback close (and_close rollback close u))
          (excepted_lem (body s).0 (body s).1)
        ∙ (ap (and_close rollback close) (and_close_lem left (body s).1)
            ∙ and_close_lem (close left).0 (body s).1) in
      (ap (λ (u : S × Result (Unit {0})). u.1) all, ap (λ (u : S × Result (Unit {0})). u.0) all)
