-- ===== src/Store/Tables.antt =====
-- Looking up, writing and deleting the rows of a table by their key.
use pi_agentworks.Prelude.{
  String, ◌≡◌, inl, inr, ◌⊎◌, Option, none, some, List, [], ◌∷◌, map, arith, if◌then◌else◌, str_eq,
  eq_iff, filter, In, In-cons_cases, not_In_nil, Bool-cases,
}
use pi_agentworks.StoryPlan.{includes}
use pi_agentworks.StoryPlan.Counting.{Distinct}

module _ {A : Type 0} (key : A → String) where
  -- `SELECT ... WHERE key = ?`
  unfoldable pub select : String → List A → Option A
  select k [] = none
  select k (row ∷ rows) = if str_eq (key row) k then some row else select k rows

  -- `DELETE`, for the rows whose key is not among those to retain.
  unfoldable pub retain : List String → List A → List A
  retain ids rows = filter (λ row. includes ids (key row)) rows

  -- `INSERT ... ON CONFLICT(key) DO UPDATE`: a row with the key of `fresh` is changed by `change`.
  unfoldable pub upsert : A → (A → A) → List A → List A
  upsert fresh change [] = fresh ∷ []
  upsert fresh change (row ∷ rows) =
      let rest = upsert fresh change rows in
      if str_eq (key row) (key fresh) then change row ∷ rows else row ∷ rest

  pub Key-select : (k : String) (rows : List A) {row : A} → select k rows ≡ some row → key row ≡ k
  unfolding select
  Key-select k [] h = absurd (cc)
  Key-select k (r ∷ rs) h = elim (Bool-cases (str_eq (key r) k)) [
    | inl same ↦ ground (arith, h, same, eq_iff (key r) k)
    | inr other ↦ Key-select k rs (ground (arith, h, other))
  ]

  pub In-select : (k : String) (rows : List A) {row : A} → select k rows ≡ some row → In row rows
  unfolding select
  In-select k [] h = absurd (cc)
  In-select k (r ∷ rs) {row} h = elim (Bool-cases (str_eq (key r) k)) [
    | inl same ↦ let e : r ≡ row = ground (arith, h, same) in rw e In.here
    | inr other ↦ In.there (In-select k rs (ground (arith, h, other)))
  ]

  abbrev pub keys : List A → List String
  keys rows = map key rows

  pub In-keys : {row : A} (rows : List A) → In row rows → In (key row) (keys rows)
  In-keys [] i = absurd (not_In_nil i)
  In-keys (r ∷ rs) i = elim (In-cons_cases i) [
    | inl same ↦ rw same In.here
    | inr j ↦ In.there (In-keys rs j)
  ]

  pub select_of_In :
      {row : A} (rows : List A)
      → Distinct (keys rows)
      → In row rows
      → select (key row) rows ≡ some row
  unfolding select
  select_of_In [] u i = absurd (not_In_nil i)
  select_of_In {row} (r ∷ rs) u i = elim (In-cons_cases i) [
    | inl same ↦ rw same (ground (arith, eq_iff (key r) (key r)))
    | inr j ↦ elim (Bool-cases (str_eq (key r) (key row))) [
      | inl same ↦ absurd (u.0 (rw ((eq_iff (key r) (key row)).0 same) (In-keys rs j)))
      | inr other ↦ rw other (select_of_In rs u.1 j)
    ]
  ]

  pub select-retain :
      (ids : List String) (k : String) (rows : List A)
      → select k (retain ids rows) ≡ (if includes ids k then select k rows else none)
  unfolding select retain
  select-retain ids k [] = ground arith
  select-retain ids k (r ∷ rs) = elim (Bool-cases (str_eq (key r) k)) [
    | inl same ↦
        let e = (eq_iff (key r) k).0 same in
        rw (← e) (ground (arith, select-retain ids (key r) rs, eq_iff (key r) (key r)))
    | inr other ↦ ground (arith, select-retain ids k rs, other)
  ]

  -- The row with the key of `fresh`, after the upsert.
  abbrev pub written : A → (A → A) → Option A → A
  written fresh change none = fresh
  written fresh change (some row) = change row

  pub select-upsert :
      (fresh : A) (change : A → A)
      → ((row : A) → key row ≡ key fresh → key (change row) ≡ key fresh)
      → (k : String) (rows : List A)
      → select k (upsert fresh change rows) ≡ (
          if str_eq (key fresh) k
          then some (written fresh change (select (key fresh) rows))
          else select k rows)
  unfolding select upsert
  select-upsert fresh change keeps k [] = ground arith
  select-upsert fresh change keeps k (r ∷ rs) = elim (Bool-cases (str_eq (key r) (key fresh))) [
    | inl same ↦
        let e = (eq_iff (key r) (key fresh)).0 same in rw (same, keeps r e, e) (ground arith)
    | inr other ↦ elim (Bool-cases (str_eq (key r) k)) [
      | inl hit ↦
          let e = (eq_iff (key r) k).0 hit in
          rw (other, ← e)
            (ground (
              arith,
              eq_iff (key r) (key r),
              eq_iff (key fresh) (key r),
              eq_iff (key r) (key fresh),
              other,
            ))
      | inr miss ↦ ground (arith, select-upsert fresh change keeps k rs, other, miss)
    ]
  ]

  In-keys-upsert :
      (fresh : A) (change : A → A)
      → ((row : A) → key row ≡ key fresh → key (change row) ≡ key fresh)
      → (k : String) (rows : List A) → In k (keys (upsert fresh change rows))
      → (k ≡ key fresh) ⊎ In k (keys rows)
  unfolding upsert
  In-keys-upsert fresh change keeps k [] i = elim (In-cons_cases i) [
    | inl e ↦ inl e
    | inr j ↦ inr j
  ]
  In-keys-upsert fresh change keeps k (r ∷ rs) i = elim (Bool-cases (str_eq (key r) (key fresh))) [
    | inl same ↦
        let e = (eq_iff (key r) (key fresh)).0 same in
        elim (In-cons_cases (rw same at i)) [
          | inl at_head ↦ inl (rw (← keeps r e) at_head)
          | inr j ↦ inr (In.there j)
        ]
    | inr other ↦ elim (In-cons_cases (rw other at i)) [
      | inl at_head ↦ inr (rw at_head In.here)
      | inr j ↦ elim (In-keys-upsert fresh change keeps k rs j) [
        | inl e ↦ inl e
        | inr m ↦ inr (In.there m)
      ]
    ]
  ]

  pub Distinct-upsert :
      (fresh : A) (change : A → A)
      → ((row : A) → key row ≡ key fresh → key (change row) ≡ key fresh)
      → (rows : List A) → Distinct (keys rows)
      → Distinct (keys (upsert fresh change rows))
  unfolding upsert
  Distinct-upsert fresh change keeps [] u = (not_In_nil, tt)
  Distinct-upsert fresh change keeps (r ∷ rs) u = elim (Bool-cases (str_eq (key r) (key fresh))) [
    | inl same ↦
        let e = (eq_iff (key r) (key fresh)).0 same in rw same (rw (keeps r e, ← e) u.0, u.1)
    | inr other ↦ rw other (
      λ i. elim (In-keys-upsert fresh change keeps (key r) rs i) [
        | inl e ↦ absurd (ground (arith, other, eq_iff (key r) (key fresh)))
        | inr j ↦ u.0 j
      ],
      Distinct-upsert fresh change keeps rs u.1,
    )
  ]

  In-keys-retain :
      (ids : List String) (k : String) (rows : List A)
      → In k (keys (retain ids rows))
      → In k (keys rows)
  unfolding retain
  In-keys-retain ids k [] i = i
  In-keys-retain ids k (r ∷ rs) i = elim (Bool-cases (includes ids (key r))) [
    | inl kept ↦ elim (In-cons_cases (rw kept at i)) [
      | inl e ↦ rw e In.here
      | inr j ↦ In.there (In-keys-retain ids k rs j)
    ]
    | inr gone ↦ In.there (In-keys-retain ids k rs (rw gone at i))
  ]

  pub Distinct-retain :
      (ids : List String) (rows : List A) → Distinct (keys rows) → Distinct (keys (retain ids rows))
  unfolding retain
  Distinct-retain ids [] u = tt
  Distinct-retain ids (r ∷ rs) u = elim (Bool-cases (includes ids (key r))) [
    | inl kept ↦ rw kept (λ i. u.0 (In-keys-retain ids (key r) rs i), Distinct-retain ids rs u.1)
    | inr gone ↦ rw gone (Distinct-retain ids rs u.1)
  ]
