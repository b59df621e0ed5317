-- ===== src/Throttle/Closure/Ends.antt =====
-- The search of a function's closure ends: among finitely many functions the fuel that suffices is
-- known beforehand, and only an empty cell makes the search raise.
use webtool.Prelude.{
  ℕ, zero, suc, ◌+◌, ◌<◌, ◌≡◌, ◌≢◌, inl, inr, refl, ap, false, Bool-cases, List, [], ◌∷◌, ◌++◌,
  ◌==◌, ==_iff, All, All-append, In, All-of_In, length, length-append, arith, if◌then◌else◌,
}
use webtool.Result.{ok, Result-cases}
use webtool.Throttle.Closure.{
  Cell, callable, opaque, empty, Functions, visited?, callables, running, has_rules, search_loop,
  find_closure_rules_function,
}
use webtool.Throttle.Closure.Finds.{loop_old, loop_found, loop_raised, loop_next, In-callables}

-- How many functions the cells of a closure hold.
abbrev pub degree : List Cell → ℕ
degree [] = 0
degree (callable f ∷ cells) = suc (degree cells)
degree (opaque ∷ cells) = degree cells
degree (empty ∷ cells) = degree cells

length-callables :
    (cells : List Cell) (l : List ℕ) → callables cells ≡ ok l → length l ≡ degree cells
unfolding callables
length-callables [] l h = ground arith
length-callables (callable f ∷ cells) l h = elim (Result-cases (callables cells)) [
  | inl (rest, e) ↦ ground (arith, length-callables cells rest e)
  | inr (x, e) ↦ ground arith
]
length-callables (opaque ∷ cells) l h = length-callables cells l h
length-callables (empty ∷ cells) l h = cc

-- The functions below `n` hold only functions below `n`.
abbrev pub IsBelow : Functions → ℕ → Type 0
IsBelow fs n = (f g : ℕ) → f < n → In (callable g) (fs f).closure → g < n

module _ (fs : Functions) where
  -- What the functions below `n` that are not visited can still add to the queue.
  abbrev pub weight : ℕ → List ℕ → ℕ
  weight zero visited = 0
  weight (suc n) visited =
      (if visited? n visited then 0 else suc (degree (fs n).closure)) + weight n visited

  weight_above :
      (n f : ℕ) (visited : List ℕ) → n < suc f → weight n (f ∷ visited) ≡ weight n visited
  weight_above zero f visited h = refl
  weight_above (suc n) f visited h = ground (arith, weight_above n f visited)

  weight_visit :
      (n f : ℕ) (visited : List ℕ)
      → f < n
      → visited? f visited ≡ false
      → weight n (f ∷ visited) + suc (degree (fs f).closure) ≡ weight n visited
  weight_visit zero f visited h new = elim h [ ]
  weight_visit (suc n) f visited h new = elim (Bool-cases (n == f)) [
    | inl same ↦
        let e : n ≡ f = (==_iff n f).0 same in
        let new' : visited? n visited ≡ false = rw e new in
        let shape : degree (fs n).closure ≡ degree (fs f).closure =
          ap (λ (k : ℕ). degree (fs k).closure) e in
        rw (same, new') (omega (arith, weight_above n f visited, shape))
    | inr other ↦ ground (arith, weight_visit n f visited)
  ]

  search_ends :
      (n : ℕ)
      → IsBelow fs n
      → (fuel : ℕ) (queue visited : List ℕ) → All (λ f. f < n) queue
      → length queue + weight n visited < fuel
      → search_loop fs fuel queue visited ≢ running
  search_ends n below zero queue visited q h = absurd (omega arith)
  search_ends n below (suc fuel) [] visited q h = unfold search_loop in (λ e. cc)
  search_ends n below (suc fuel) (f ∷ queue) visited (lt, q) h =
      elim (Bool-cases (visited? f visited)) [
        | inl old ↦
            rw (loop_old fs fuel f queue visited old)
              (search_ends n below fuel queue visited q (omega arith))
        | inr new ↦ elim (Bool-cases (has_rules fs f)) [
          | inl ruled ↦ rw (loop_found fs fuel f queue visited new ruled) (λ e. cc)
          | inr bare ↦ elim (Result-cases (callables (fs f).closure)) [
            | inl (cells, e) ↦ rw (loop_next fs fuel f queue visited cells new bare e) (
                search_ends n below fuel (queue ++ cells) (f ∷ visited)
                  (All-append (λ g. g < n) queue cells q
                    (All-of_In (λ g. g < n) cells
                      (λ g i. below f g lt (In-callables (fs f).closure cells e g i))))
                  (omega (
                    arith,
                    length-append queue cells,
                    length-callables (fs f).closure cells e,
                    weight_visit n f visited lt new,
                  )))
            | inr (x, e) ↦ rw (loop_raised fs fuel f queue visited x new bare e) (λ e'. cc)
          ]
        ]
      ]

  -- From a function below `n`, where closures of functions below `n` hold only functions below `n`,
  -- fuel beyond one more than the weight of them all is enough for the search to end.
  pub find_ends :
      (n : ℕ)
      → IsBelow fs n
      → (fuel f : ℕ) → f < n
      → 1 + weight n [] < fuel
      → find_closure_rules_function fs fuel f ≢ running
  unfolding find_closure_rules_function
  find_ends n below fuel f lt h = search_ends n below fuel (f ∷ []) [] (lt, tt) h
