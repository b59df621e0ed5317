-- ===== src/Db/Client/Tests.antt =====
-- A client with an argument for the engine and one for the sessions.
use webtool.Prelude.{String, ◌≡◌, none, some, some-injective, [], ◌∷◌, arith, ◌==◌, if◌then◌else◌}
use webtool.Prelude.Dict.{lookup}
use webtool.Db.Client.{Heap, init_sync_db}
use webtool.Db.Client.Configs.{init_sync_db-swaps}

abbrev heap : Heap String
heap = record { at = λ r. if r == 0 then ("echo", "yes") ∷ [] else ("class_", "s") ∷ []; next = 2 }

init_sync_db-swaps_example :
    (lookup "echo" (
        (init_sync_db "e" "d" "yes" "no" (some 0) (some 1) heap).1.at
          (init_sync_db "e" "d" "yes" "no" (some 0) (some 1) heap).0.engine_config)
      ≡ none)
    × (lookup "echo" (
          (init_sync_db "e" "d" "yes" "no" (some 0) (some 1) heap).1.at
            (init_sync_db "e" "d" "yes" "no" (some 0) (some 1) heap).0.session_config)
        ≡ some "yes")
unfolding lookup
init_sync_db-swaps_example =
    init_sync_db-swaps "e" "d" "yes" "no" (some 0) (some 1) heap (omega arith) (omega arith)
      (λ r e e'. ground (arith, some-injective e, some-injective e')) "echo"
