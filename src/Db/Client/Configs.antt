-- ===== src/Db/Client/Configs.antt =====
-- Which configuration the engine and the sessions of a `SyncDB` get.
use webtool.Prelude.{
  ℕ, ◌<◌, ◌≤◌, String, ◌≡◌, ◌≢◌, ◌⊎◌, refl, sym, ap, ◌∙◌, inl, inr, Option, none, some,
  some-injective, [], ◌∷◌, str_eq, eq_iff, arith, if◌then◌else◌,
}
use webtool.Prelude.Dict.{Dict, lookup, lookup-insert}
use webtool.Db.Client.{
  full_or_new, Heap, put, or_new, setdefault, get_default_engine_config, get_default_session_config,
  init_sync_db,
}

module _ {V : Type 0} where
  -- What the caller gave, where nothing is an empty `dict`.
  abbrev pub given : Option ℕ → Heap V → Dict V
  given none h = []
  given (some r) h = h.at r

  abbrev pub IsRef : Option ℕ → Heap V → Type 0
  IsRef none h = Unit
  IsRef (some r) h = r < h.next

  -- The value of an argument, or else its default.
  abbrev pub or_default : Option V → Option V → Option V
  or_default none d = d
  or_default (some v) d = some v

  lookup-setdefault :
      (j k : String) (v : V) (d : Dict V)
      → lookup k (setdefault j v d) ≡ or_default (lookup k d) (if str_eq j k then some v else none)
  unfolding setdefault
  lookup-setdefault j k v d = ground (arith, lookup-insert j k v d, eq_iff j k)

  at_put_same : (r : ℕ) (d : Dict V) (h : Heap V) → (put r d h).at r ≡ d
  at_put_same r d h = ground arith

  at_put_other : (r j : ℕ) (d : Dict V) (h : Heap V) → r ≢ j → (put r d h).at j ≡ h.at j
  at_put_other r j d h apart = ground (arith, apart)

  -- What `args or {}` gives: the caller's object, or a new one; what is in it; and no other object
  -- changes.
  record IsOrNew (o : Option ℕ) (h : Heap V) (r : ℕ) (h' : Heap V) : Type 0 where
    old_or_new : (o ≡ some r) ⊎ (r ≡ h.next)
    holds : h'.at r ≡ given o h
    below : r < h'.next
    grows : h.next ≤ h'.next
    others : (j : ℕ) → j < h.next → h'.at j ≡ h.at j

  full_or_new_lem :
      (r : ℕ) (d : Dict V) (h : Heap V)
      → r < h.next
      → h.at r ≡ d
      → IsOrNew (some r) h (full_or_new r d h).0 (full_or_new r d h).1
  full_or_new_lem r [] h ref e = record {
    old_or_new = inr refl;
    holds = at_put_same h.next [] h ∙ sym e;
    below = omega arith;
    grows = omega arith;
    others = λ j lt. ground arith;
  }
  full_or_new_lem r (x ∷ d) h ref e = record {
    old_or_new = inl refl;
    holds = refl;
    below = ref;
    grows = omega arith;
    others = λ j lt. refl;
  }

  or_new_lem : (o : Option ℕ) (h : Heap V) → IsRef o h → IsOrNew o h (or_new o h).0 (or_new o h).1
  unfolding or_new
  or_new_lem none h ref = record {
    old_or_new = inr refl;
    holds = ground arith;
    below = omega arith;
    grows = omega arith;
    others = λ j lt. ground arith;
  }
  or_new_lem (some r) h ref = full_or_new_lem r (h.at r) h ref refl

  IsRef-grows : (o : Option ℕ) (h h' : Heap V) → h.next ≤ h'.next → IsRef o h → IsRef o h'
  IsRef-grows none h h' le ref = tt
  IsRef-grows (some r) h h' le ref = omega arith

  given_kept :
      (o : Option ℕ) (h h₁ : Heap V) (e : ℕ) (d : Dict V)
      → IsRef o h
      → ((j : ℕ) → j < h.next → h₁.at j ≡ h.at j)
      → ((r : ℕ) → o ≡ some r → e ≢ r)
      → given o (put e d h₁) ≡ given o h
  given_kept none h h₁ e d ref same apart = refl
  given_kept (some r) h h₁ e d ref same apart = at_put_other e r d h₁ (apart r refl) ∙ same r ref

  ref_below : (o : Option ℕ) (h : Heap V) (r : ℕ) → IsRef o h → o ≡ some r → r < h.next
  ref_below none h r ref e = ground arith
  ref_below (some q) h r ref e = rw⁻¹ (some-injective e) ref

  -- The object of one argument is not that of the other.
  old_apart :
      (o o' : Option ℕ) (h h₁ : Heap V) (e r : ℕ)
      → IsOrNew o h e h₁
      → IsRef o' h
      → ((q : ℕ) → o' ≡ some q → o ≢ some q)
      → o' ≡ some r
      → e ≢ r
  old_apart o o' h h₁ e r first ref apart given' same = elim first.old_or_new [
    | inl old ↦ apart r given' (old ∙ ap some same)
    | inr new' ↦ let below = ref_below o' h r ref given' in omega (arith, new', same, below)
  ]

module _ {V : Type 0} (encode decode yes' no' : V) where
  -- The defaults by their names.
  abbrev pub engine_default : String → Option V
  engine_default k = or_default (if str_eq "json_serializer" k then some encode else none) (
      or_default (if str_eq "json_deserializer" k then some decode else none)
        (if str_eq "pool_pre_ping" k then some yes' else none))

  abbrev pub session_default : String → Option V
  session_default k = or_default (if str_eq "autocommit" k then some no' else none) (
      or_default (if str_eq "autoflush" k then some no' else none)
        (if str_eq "expire_on_commit" k then some no' else none))

  or_default_assoc :
      (a b c d : Option V)
      → or_default (or_default (or_default a b) c) d ≡ or_default a (or_default b (or_default c d))
  or_default_assoc none none c d = refl
  or_default_assoc none (some b) c d = refl
  or_default_assoc (some a) b c d = refl

  three_defaults :
      (i j k n : String) (u v w : V) (d : Dict V)
      → lookup n (setdefault k w (setdefault j v (setdefault i u d)))
        ≡ or_default (lookup n d) (
            or_default (if str_eq i n then some u else none) (
              or_default
                (if str_eq j n then some v else none)
                (if str_eq k n then some w else none)))
  three_defaults i j k n u v w d =
      lookup-setdefault k n w (setdefault j v (setdefault i u d))
      ∙ (ap (λ o. or_default o (if str_eq k n then some w else none))
            (lookup-setdefault j n v (setdefault i u d)
              ∙ ap (λ o. or_default o (if str_eq j n then some v else none))
                  (lookup-setdefault i n u d))
          ∙ or_default_assoc (lookup n d) (if str_eq i n then some u else none)
              (if str_eq j n then some v else none) (if str_eq k n then some w else none))

  -- `SyncDB.__init__` makes the engine with what was given for the sessions, and the sessions with
  -- what was given for the engine: the engine's configuration has each value of `session_args`, and
  -- the engine's default for a name that is not there; the sessions' configuration likewise that of
  -- `engine_args`, and their own defaults. The two arguments are not one object.
  pub init_sync_db-swaps :
      (engine_args session_args : Option ℕ) (h : Heap V)
      → IsRef engine_args h
      → IsRef session_args h
      → ((r : ℕ) → engine_args ≡ some r → session_args ≢ some r)
      → (k : String)
      → (lookup k (
            (init_sync_db encode decode yes' no' engine_args session_args h).1.at
              (init_sync_db encode decode yes' no' engine_args session_args h).0.engine_config)
          ≡ or_default (lookup k (given session_args h)) (engine_default k))
        × (lookup k (
              (init_sync_db encode decode yes' no' engine_args session_args h).1.at
                (init_sync_db encode decode yes' no' engine_args session_args h).0.session_config)
            ≡ or_default (lookup k (given engine_args h)) (session_default k))
  unfolding init_sync_db get_default_engine_config get_default_session_config
  init_sync_db-swaps engine_args session_args h engine_ref session_ref apart k =
      let e = (or_new session_args h).0 in
      let h₁ = (or_new session_args h).1 in
      let first = or_new_lem session_args h session_ref in
      let engine =
        setdefault "pool_pre_ping" yes'
          (setdefault "json_deserializer" decode (setdefault "json_serializer" encode (h₁.at e))) in
      let h₂ = put e engine h₁ in
      let second =
        or_new_lem engine_args h₂ (IsRef-grows engine_args h h₂ first.grows engine_ref) in
      let s = (or_new engine_args h₂).0 in
      let h₃ = (or_new engine_args h₂).1 in
      let sessions =
        setdefault "expire_on_commit" no'
          (setdefault "autoflush" no' (setdefault "autocommit" no' (h₃.at s))) in
      let old = λ (r : ℕ). old_apart session_args engine_args h h₁ e r first engine_ref apart in
      let other : s ≢ e = elim second.old_or_new [
        | inl given' ↦ λ same. old s given' (sym same)
        | inr new' ↦ λ same. omega (arith, first.below, new', same)
      ] in
      (
        ap (lookup k) (
              at_put_other s e sessions h₃ other
              ∙ (second.others e first.below ∙ at_put_same e engine h₁))
            ∙ (three_defaults "json_serializer" "json_deserializer" "pool_pre_ping" k encode decode
                  yes' (h₁.at e)
                ∙ ap (λ d. or_default (lookup k d) (engine_default k)) first.holds),
        ap (lookup k) (at_put_same s sessions h₃)
            ∙ (three_defaults "autocommit" "autoflush" "expire_on_commit" k no' no' no' (h₃.at s)
                ∙ ap (λ d. or_default (lookup k d) (session_default k))
                    (second.holds
                      ∙ given_kept engine_args h h₁ e engine engine_ref first.others old)),
      )
