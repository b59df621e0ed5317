-- ===== src/Cache/InMemory/Tests.antt =====
-- Concrete runs of the in-memory cache.
use webtool.Prelude.{ℕ, String, ◌≡◌, refl, true, false, none, some, List, [], ◌∷◌, arith}
use webtool.Result.{ok, err, key_error}
use webtool.Cache.InMemory.{at, never, seconds, stamp, init}
use webtool.Cache.InMemory.Spec.{
  Call, get_call, set_call, delete_call, aclose_call, got, stored, deleted, closed, serve,
  spec_serve, serve-eq-spec_serve,
}

-- A write that expires, a refused and an accepted write with `nx`, deletions, and `aclose`.
abbrev script : List (Call ℕ)
script =
    set_call "a" 1 (some (seconds 50)) none false 10 12
    ∷ get_call "a" 61
    ∷ set_call "a" 2 none (some (stamp 90)) true 61 61
    ∷ set_call "a" 3 none none true 62 63
    ∷ delete_call "a" 63
    ∷ delete_call "a" 63
    ∷ aclose_call
    ∷ []

script_replies :
    serve init script
    ≡ stored (some (record { value = 1; exp = at 62 }))
      ∷ got (some 1)
      ∷ stored none
      ∷ stored (some (record { value = 3; exp = never }))
      ∷ deleted (ok (record { value = 3; exp = never }))
      ∷ deleted (err key_error)
      ∷ closed
      ∷ []
unfolding serve init webtool.Cache.InMemory.get webtool.Cache.InMemory.set
    webtool.Cache.InMemory.delete webtool.Cache.InMemory.aclose webtool.Cache.InMemory.expiry_of
    webtool.Cache.InMemory.live webtool.Prelude.Dict.lookup webtool.Prelude.Dict.insert
    webtool.Prelude.Dict.select webtool.Prelude.Dict.remove
script_replies = refl

serve-eq-spec_serve_example : serve init script ≡ spec_serve (λ k. none) script
serve-eq-spec_serve_example = serve-eq-spec_serve 0 script (omega arith)
