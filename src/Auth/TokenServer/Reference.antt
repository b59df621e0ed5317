-- ===== src/Auth/TokenServer/Reference.antt =====
-- A server kept as a function of time for its texts and as sorted sets that never expire: a model of
-- the laws of the cache and of the server, for concrete runs. Its locks are always free.
use webtool.Prelude.{
  ℕ, ◌+◌, ◌*◌, ◌≤◌, ◌<◌, String, ◌≡◌, ◌≢◌, ◌↔◌, refl, sym, ap, ◌∙◌, true, false, not, inl, inr,
  Bool-cases, Option, none, some, is_some, List, [], ◌∷◌, In, ltb, lt→ltb, str_eq, eq_iff, eq_refl,
  arith, if◌then◌else◌,
}
use webtool.Prelude.Dict.{Dict, lookup, insert, remove, select, lookup-insert, lookup-remove}
use webtool.Redis.SortedSets.{in_range}
use webtool.Result.{ok}
use webtool.Auth.Models.{Payload}
use webtool.Auth.TokenCache.{TokenCache}
use webtool.Auth.TokenServer.{TokenServer}

pub record Data : Type 0 where
  pub texts : ℕ → String → Option Payload
  pub sets : String → Dict ℕ

abbrev pub held : Payload → ℕ → ℕ → Option Payload
held v until t = if ltb t until then some v else none

abbrev pub with_text : String → (ℕ → Option Payload) → Data → Data
with_text k o s = record { texts = λ t j. if str_eq k j then o t else s.texts t j; sets = s.sets }

abbrev pub with_set : String → Dict ℕ → Data → Data
with_set k z s = record { texts = s.texts; sets = λ j. if str_eq k j then z else s.sets j }

pub held_before : (v : Payload) (until t : ℕ) → t < until → held v until t ≡ some v
held_before v until t lt = rw (lt→ltb t until lt) refl

pub held_after : (v : Payload) (until t : ℕ) → until ≤ t → held v until t ≡ none
held_after v until t le = ground arith

module _ {V : Type 0} (x y : V) where
  pub at_same : (k : String) → (if str_eq k k then x else y) ≡ x
  at_same k = rw (eq_refl k) refl

  pub at_other : (k j : String) → k ≢ j → (if str_eq k j then x else y) ≡ y
  at_other k j apart = let no : str_eq k j ≡ false = ground (arith, eq_iff k j, apart) in rw no refl

abbrev pub names : Dict ℕ → List String
names [] = []
names ((k, v) ∷ d) = k ∷ names d

pub In-names : (m : String) (d : Dict ℕ) → In m (names d) ↔ (is_some (lookup m d) ≡ true)
unfolding lookup
In-names m [] = (λ i. absurd i, λ e. ground arith)
In-names m ((k, v) ∷ d) =
    let below = In-names m d in
    elim (Bool-cases (str_eq k m)) [
      | inl same ↦ rw same (λ i. refl, λ e. inl (sym ((eq_iff k m).0 same)))
      | inr other ↦ rw other (
        λ i. elim i [ inl e ↦ ground (arith, eq_iff k m, e) | inr i' ↦ below.0 i' ],
        λ e. inr (below.1 e),
      )
    ]

abbrev pub reference_cache : TokenCache Payload
reference_cache = record {
  Store = Data;
  stored = λ s t k. s.texts t k;
  acquire = λ _ _ s. (s, true);
  release = λ _ _ s. (s, ok tt);
  set = λ k v ex now s. with_text k (held v (now + 1 * ex)) s;
  get = λ k now s. (s, s.texts now k);
  delete = λ k now s. (with_text k (λ _. none) s, ok tt);
  per_second = 1;
  stored-acquire = λ k j now t s token le. refl;
  stored-release = λ k j now t s token le. refl;
  stored-set = λ k v ex now t s le lt.
      at_same (held v (now + 1 * ex) t) (s.texts t k) k ∙ held_before v (now + 1 * ex) t lt;
  stored-set_expired = λ k v ex now t s pos le.
      at_same (held v (now + 1 * ex) t) (s.texts t k) k ∙ held_after v (now + 1 * ex) t le;
  stored-set_other =
      λ k j v ex now t s apart le. at_other (held v (now + 1 * ex) t) (s.texts t j) k j apart;
  stored-get = λ k j now t s le. refl;
  get_lem = λ k now s. refl;
  stored-delete = λ k j now t s le. refl;
}

abbrev pub reference_server : TokenServer reference_cache
reference_server = record {
  scores = λ s t k. s.sets k;
  set_exat = λ k v exat now s. with_text k (held v (1 * exat)) s;
  del = λ k now s. with_text k (λ _. none) s;
  zadd = λ k x m now s. with_set k (insert m x (s.sets k)) s;
  zrem = λ k m now s. with_set k (remove m (s.sets k)) s;
  expire = λ k n now s. s;
  zremrangebyscore =
      λ k lo hi now s. with_set k (select (λ x. not (in_range lo hi x)) (s.sets k)) s;
  zrange = λ k now s. names (s.sets k);
  stored-set_exat = λ k v exat now t s le lt.
      at_same (held v (1 * exat) t) (s.texts t k) k ∙ held_before v (1 * exat) t lt;
  stored-del = λ k j now t s le. refl;
  stored-zadd = λ k j m x now t s le. refl;
  stored-zrem = λ k j m now t s le. refl;
  stored-expire = λ k j n now t s apart le. refl;
  scores-acquire = λ k j now t s le. refl;
  scores-release = λ k j now t s le. refl;
  scores-get = λ k j now t s le. refl;
  scores-set = λ k j v ex now t s apart le. refl;
  scores-set_exat = λ k j v exat now t s apart le. refl;
  scores-del = λ k j now t s apart le. refl;
  scores-zadd = λ k m x now t s le.
      ap (lookup m) (at_same (insert m x (s.sets k)) (s.sets k) k)
      ∙ (lookup-insert m m x (s.sets k) ∙ at_same (some x) (lookup m (s.sets k)) m);
  scores-zrem = λ k m now t s le.
      ap (lookup m) (at_same (remove m (s.sets k)) (s.sets k) k)
      ∙ (lookup-remove m m (s.sets k) ∙ at_same none (lookup m (s.sets k)) m);
  scores-expire = λ k n now t s le lt. refl;
  scores-zremrangebyscore = λ k lo hi now t s le m.
      ap (lookup m) (at_same (select (λ x. not (in_range lo hi x)) (s.sets k)) (s.sets k) k);
  zrange_iff = λ k m now s. In-names m (s.sets k);
}
