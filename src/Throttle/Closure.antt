-- ===== src/Throttle/Closure.antt =====
-- webtool/throttle/decorator.py, `_find_closure_rules_function`: a search through the functions
-- that a function's closure holds. Functions are objects of a heap, named by numbers.
pub mod Finds
pub mod Ends
mod Tests
use webtool.Prelude.{
  ℕ, zero, suc, String, Bool, true, false, ◌||◌, Option, none, some, List, [], ◌∷◌, ◌++◌, ◌==◌,
  if◌then◌else◌,
}
use webtool.Result.{Exception, Result, ok, err, value_error, ◌>>=◌}

-- `cell.cell_contents`: something that can be called, something else, or an empty cell.
pub data Cell : Type 0 where
  callable : ℕ → Cell
  opaque : Cell
  empty : Cell

-- `rules` is the attribute `_throttle_rules`, which names a rule manager.
pub record Function : Type 0 where
  pub module' : String
  pub name : String
  pub rules : Option ℕ
  pub closure : List Cell

abbrev pub Functions : Type 0
Functions = ℕ → Function

-- `current_func in visited`
abbrev pub visited? : ℕ → List ℕ → Bool
visited? f [] = false
visited? f (g ∷ gs) = f == g || visited? f gs

-- The loop over a closure's cells: what it appends to the queue. An empty cell raises `ValueError`.
unfoldable pub callables : List Cell → Result (List ℕ)
callables [] = ok []
callables (callable f ∷ cells) = do rest ← callables cells; ok (f ∷ rest)
callables (opaque ∷ cells) = callables cells
callables (empty ∷ cells) = err value_error

-- `running` stands for a loop that has more rounds to go.
pub data Search : Type 0 where
  found : ℕ → Search
  missing : Search
  raised : Exception → Search
  running : Search

-- `hasattr(current_func, THROTTLE_RULE_ATTR_NAME)`
abbrev pub has_rules : Functions → ℕ → Bool
has_rules fs f = elim (fs f).rules [ none ↦ false | some _ ↦ true ]

module _ (fs : Functions) where
  unfoldable pub search_loop : ℕ → List ℕ → List ℕ → Search
  search_loop zero queue visited = running
  search_loop (suc fuel) [] visited = missing
  search_loop (suc fuel) (f ∷ queue) visited = elim (visited? f visited) [
    | true ↦ search_loop fuel queue visited
    | false ↦ elim (has_rules fs f) [
      | true ↦ found f
      | false ↦ elim (callables (fs f).closure) [
        | err e ↦ raised e
        | ok cells ↦ search_loop fuel (queue ++ cells) (f ∷ visited)
      ]
    ]
  ]

  unfoldable pub find_closure_rules_function : ℕ → ℕ → Search
  unfolding search_loop
  find_closure_rules_function fuel f = search_loop fuel (f ∷ []) []
