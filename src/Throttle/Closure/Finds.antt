-- ===== src/Throttle/Closure/Finds.antt =====
-- What the search of a function's closure finds: functions that can be reached, and all of them.
use webtool.Prelude.{
  ℕ, zero, suc, ◌≡◌, ◌⊎◌, inl, inr, refl, true, false, Bool-cases, List, [], ◌∷◌, ◌++◌, All,
  All-append, In, In-append, All-of_In, arith,
}
use webtool.Result.{Exception, ok, err, Result-cases}
use webtool.Throttle.Closure.{
  Cell, callable, opaque, empty, Functions, visited?, callables, found, missing, raised, has_rules,
  search_loop, find_closure_rules_function,
}

-- A function can be reached from another through the cells of closures.
pub data Reachable (fs : Functions) (f : ℕ) : ℕ → Type 0 where
  here : Reachable fs f f
  next : {g h : ℕ} → Reachable fs f g → In (callable h) (fs g).closure → Reachable fs f h

callables-In :
    (cells : List Cell) (l : List ℕ)
    → callables cells ≡ ok l
    → (g : ℕ) → In (callable g) cells
    → In g l
unfolding callables
callables-In [] l h g i = absurd i
callables-In (callable f ∷ cells) l h g i = elim (Result-cases (callables cells)) [
  | inl (rest, e) ↦ ground (arith, callables-In cells rest e g)
  | inr (x, e) ↦ ground arith
]
callables-In (opaque ∷ cells) l h g i = ground (arith, callables-In cells l h g)
callables-In (empty ∷ cells) l h g i = cc

pub In-callables :
    (cells : List Cell) (l : List ℕ)
    → callables cells ≡ ok l
    → (g : ℕ) → In g l
    → In (callable g) cells
unfolding callables
In-callables [] l h g i = ground arith
In-callables (callable f ∷ cells) l h g i = elim (Result-cases (callables cells)) [
  | inl (rest, e) ↦ ground (arith, In-callables cells rest e g)
  | inr (x, e) ↦ ground arith
]
In-callables (opaque ∷ cells) l h g i = inr (In-callables cells l h g i)
In-callables (empty ∷ cells) l h g i = cc

visited→In : (f : ℕ) (v : List ℕ) → visited? f v ≡ true → In f v
visited→In f [] h = cc
visited→In f (g ∷ v) h = ground (arith, visited→In f v)

found-injective : {f g : ℕ} → found f ≡ found g → f ≡ g
found-injective h = cc

module _ (fs : Functions) where
  module _ (fuel f : ℕ) (queue visited : List ℕ) where
    pub loop_old :
        visited? f visited ≡ true
        → search_loop fs (suc fuel) (f ∷ queue) visited ≡ search_loop fs fuel queue visited
    unfolding search_loop
    loop_old e = rw (e, search_loop)

    pub loop_found :
        visited? f visited ≡ false
        → has_rules fs f ≡ true
        → search_loop fs (suc fuel) (f ∷ queue) visited ≡ found f
    unfolding search_loop
    loop_found new ruled = rw (new, ruled, search_loop)

    pub loop_raised :
        (e : Exception)
        → visited? f visited ≡ false
        → has_rules fs f ≡ false
        → callables (fs f).closure ≡ err e
        → search_loop fs (suc fuel) (f ∷ queue) visited ≡ raised e
    unfolding search_loop
    loop_raised e new bare h = rw (new, bare, h, search_loop)

    pub loop_next :
        (cells : List ℕ)
        → visited? f visited ≡ false
        → has_rules fs f ≡ false
        → callables (fs f).closure ≡ ok cells
        → search_loop fs (suc fuel) (f ∷ queue) visited
          ≡ search_loop fs fuel (queue ++ cells) (f ∷ visited)
    unfolding search_loop
    loop_next cells new bare h = rw (new, bare, h, search_loop)

  search_sound :
      (start fuel : ℕ) (queue visited : List ℕ) (g : ℕ)
      → All (Reachable fs start) queue
      → search_loop fs fuel queue visited ≡ found g
      → Reachable fs start g × (has_rules fs g ≡ true)
  unfolding search_loop
  search_sound start zero queue visited g r h = cc
  search_sound start (suc fuel) [] visited g r h = cc
  search_sound start (suc fuel) (f ∷ queue) visited g (r, rs) h =
      elim (Bool-cases (visited? f visited)) [
        | inl old ↦
            search_sound start fuel queue visited g rs (rw (loop_old fuel f queue visited old) at h)
        | inr new ↦ elim (Bool-cases (has_rules fs f)) [
          | inl ruled ↦
              let same : f ≡ g =
                found-injective (rw (loop_found fuel f queue visited new ruled) at h) in
              rw (← same) (r, ruled)
          | inr bare ↦ elim (Result-cases (callables (fs f).closure)) [
            | inl (cells, e) ↦
                search_sound start fuel (queue ++ cells) (f ∷ visited) g
                  (All-append (Reachable fs start) queue cells rs (
                    All-of_In (Reachable fs start) cells
                      (λ k i. next r (In-callables (fs f).closure cells e k i))))
                  (rw (loop_next fuel f queue visited cells new bare e) at h)
            | inr (x, e) ↦ cc (loop_raised fuel f queue visited x new bare e)
          ]
        ]
      ]

  -- What has been visited holds no rules, and what its closures hold was visited or is waiting.
  IsClosed : List ℕ → List ℕ → Type 0
  IsClosed queue visited =
      (v : ℕ)
      → In v visited
      → (has_rules fs v ≡ false)
        × ((c : ℕ) → In (callable c) (fs v).closure → In c visited ⊎ In c queue)

  -- A set of functions without rules that closures do not leave.
  abbrev Closed : List ℕ → Type 0
  Closed w =
      (v : ℕ)
      → In v w
      → (has_rules fs v ≡ false) × ((c : ℕ) → In (callable c) (fs v).closure → In c w)

  IsClosed-old :
      (f : ℕ) (queue visited : List ℕ)
      → visited? f visited ≡ true
      → IsClosed (f ∷ queue) visited
      → IsClosed queue visited
  unfolding IsClosed
  IsClosed-old f queue visited old inv v i = (
    (inv v i).0,
    λ c j. elim ((inv v i).1 c j) [
      | inl k ↦ inl k
      | inr (inl e) ↦ inl (rw e (visited→In f visited old))
      | inr (inr q) ↦ inr q
    ],
  )

  IsClosed-next :
      (f : ℕ) (queue visited cells : List ℕ)
      → has_rules fs f ≡ false
      → callables (fs f).closure ≡ ok cells
      → IsClosed (f ∷ queue) visited
      → IsClosed (queue ++ cells) (f ∷ visited)
  unfolding IsClosed
  IsClosed-next f queue visited cells bare e inv v (inl same) = rw same (
    bare,
    λ c j. inr ((In-append c queue cells).1 (inr (callables-In (fs f).closure cells e c j))),
  )
  IsClosed-next f queue visited cells bare e inv v (inr i) = (
    (inv v i).0,
    λ c j. elim ((inv v i).1 c j) [
      | inl k ↦ inl (inr k)
      | inr (inl same) ↦ inl (inl same)
      | inr (inr q) ↦ inr ((In-append c queue cells).1 (inl q))
    ],
  )

  search_complete :
      (fuel : ℕ) (queue visited : List ℕ)
      → IsClosed queue visited
      → search_loop fs fuel queue visited ≡ missing
      → (w : List ℕ) × ((g : ℕ) → In g visited ⊎ In g queue → In g w) × Closed w
  unfolding search_loop IsClosed
  search_complete zero queue visited inv h = cc
  search_complete (suc fuel) [] visited inv h = (
    visited,
    λ g i. elim i [ inl j ↦ j | inr n ↦ absurd n ],
    λ v i. ((inv v i).0, λ c j. elim ((inv v i).1 c j) [ inl k ↦ k | inr n ↦ absurd n ]),
  )
  search_complete (suc fuel) (f ∷ queue) visited inv h = elim (Bool-cases (visited? f visited)) [
    | inl old ↦
        let (w, holds, closed) =
          search_complete fuel queue visited (IsClosed-old f queue visited old inv)
            (rw (loop_old fuel f queue visited old) at h) in
        (
          w,
          λ g i. elim i [
            | inl j ↦ holds g (inl j)
            | inr (inl e) ↦ holds g (inl (rw e (visited→In f visited old)))
            | inr (inr q) ↦ holds g (inr q)
          ],
          closed,
        )
    | inr new ↦ elim (Bool-cases (has_rules fs f)) [
      | inl ruled ↦ cc (loop_found fuel f queue visited new ruled)
      | inr bare ↦ elim (Result-cases (callables (fs f).closure)) [
        | inl (cells, e) ↦
            let (w, holds, closed) =
              search_complete fuel (queue ++ cells) (f ∷ visited)
                (IsClosed-next f queue visited cells bare e inv)
                (rw (loop_next fuel f queue visited cells new bare e) at h) in
            (
              w,
              λ g i. elim i [
                | inl j ↦ holds g (inl (inr j))
                | inr (inl here') ↦ holds g (inl (inl here'))
                | inr (inr q) ↦ holds g (inr ((In-append g queue cells).1 (inl q)))
              ],
              closed,
            )
        | inr (x, e) ↦ cc (loop_raised fuel f queue visited x new bare e)
      ]
    ]
  ]

  Closed-Reachable : (w : List ℕ) (f g : ℕ) → Closed w → In f w → Reachable fs f g → In g w
  Closed-Reachable w f g closed i here = i
  Closed-Reachable w f g closed i (next {g = k} r c) =
      (closed k (Closed-Reachable w f k closed i r)).1 g c

  -- A function that is found holds rules, and can be reached through closures.
  pub find_sound :
      (fuel f g : ℕ)
      → find_closure_rules_function fs fuel f ≡ found g
      → Reachable fs f g × (has_rules fs g ≡ true)
  unfolding find_closure_rules_function
  find_sound fuel f g h = search_sound f fuel (f ∷ []) [] g (here, tt) h

  -- If none is found, no function that can be reached holds rules.
  pub find_complete :
      (fuel f : ℕ)
      → find_closure_rules_function fs fuel f ≡ missing
      → (g : ℕ) → Reachable fs f g
      → has_rules fs g ≡ false
  unfolding find_closure_rules_function
  find_complete fuel f h g r =
      let (w, holds, closed) =
        search_complete fuel (f ∷ []) [] (unfold IsClosed in λ v i. absurd i) h in
      (closed g (Closed-Reachable w f g closed (holds f (inr (inl refl))) r)).0
