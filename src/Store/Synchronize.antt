-- ===== src/Store/Synchronize.antt =====
-- The rows of a table after a snapshot's states are written to it: those of the others are deleted,
-- and the states are upserted one by one.
use pi_agentworks.Prelude.{
  String, ◌≡◌, refl, ◌∙◌, sym, inl, inr, true, false, Option, none, some, List, [], ◌∷◌, map, arith,
  str_eq, eq_iff, In, Bool-cases, Option-cases,
}
use pi_agentworks.StoryPlan.{includes}
use pi_agentworks.StoryPlan.Counting.{Distinct, includes_iff}
use pi_agentworks.Store.Tables.{
  select, retain, upsert, keys, written, Key-select, In-select, In-keys, select_of_In,
  select-retain, select-upsert, Distinct-upsert, Distinct-retain,
}

-- `key` is a row's key and `id` a state's; a state that has no row becomes `fresh`, and one that has
-- a row changes it.
module _ {A I : Type 0} (key : A → String) (id : I → String) (fresh : I → A)
    (change : I → A → A) where
  unfoldable pub upsert_all : List I → List A → List A
  upsert_all [] rows = rows
  upsert_all (state ∷ states) rows =
      upsert_all states (upsert key (fresh state) (change state) rows)

  unfoldable pub synchronize : List I → List A → List A
  unfolding upsert_all
  synchronize states rows = upsert_all states (retain key (map id states) rows)

  -- The row of a state, by the row that it had.
  abbrev pub row_of : I → Option A → A
  row_of state none = fresh state
  row_of state (some row) = change state row

  abbrev over : Option I → Option A → Option A
  over none old = old
  over (some state) old = some (row_of state old)

  -- The independent description: a key has a row exactly if it has a state.
  abbrev pub synchronized : Option I → Option A → Option A
  synchronized none old = none
  synchronized (some state) old = some (row_of state old)

module _ {A : Type 0} (key : A → String) where
  pub select_of_not_In :
      (k : String) (rows : List A) → ¬ In k (keys key rows) → select key k rows ≡ none
  unfolding select
  select_of_not_In k [] h = refl
  select_of_not_In k (r ∷ rs) h = elim (Bool-cases (str_eq (key r) k)) [
    | inl same ↦ absurd (h (rw (← (eq_iff (key r) k).0 same) In.here))
    | inr other ↦ rw other (select_of_not_In k rs (λ i. h (In.there i)))
  ]

  includes_of_absent :
      (k : String) (rows : List A) → select key k rows ≡ none → includes (keys key rows) k ≡ false
  unfolding select includes
  includes_of_absent k [] h = refl
  includes_of_absent k (r ∷ rs) h = elim (Bool-cases (str_eq (key r) k)) [
    | inl same ↦ absurd (ground (arith, h, same))
    | inr other ↦ rw other (includes_of_absent k rs (ground (arith, h, other)))
  ]

  pub select_of_includes :
      (k : String) (rows : List A)
      → includes (keys key rows) k ≡ true
      → (row : A) × (select key k rows ≡ some row)
  select_of_includes k rows h = elim (Option-cases (select key k rows)) [
    | inl missing ↦ absurd (ground (arith, h, includes_of_absent k rows missing))
    | inr found ↦ found
  ]

  In_of_select_some :
      (k : String) (rows : List A) {row : A} → select key k rows ≡ some row → In k (keys key rows)
  In_of_select_some k rows e =
      rw (← Key-select key k rows e) (In-keys key rows (In-select key k rows e))

module _ {A I : Type 0} (key : A → String) (id : I → String) (fresh : I → A) (change : I → A → A)
    (key-fresh : (state : I) → key (fresh state) ≡ id state)
    (key-change : (state : I) (row : A) → key (change state row) ≡ id state) where
  keeps :
      (state : I) (row : A)
      → key row ≡ key (fresh state)
      → key (change state row) ≡ key (fresh state)
  keeps state row e = key-change state row ∙ sym (key-fresh state)

  row_of_lem :
      (state : I) (old : Option A)
      → written key (fresh state) (change state) old ≡ row_of key id fresh change state old
  row_of_lem state none = refl
  row_of_lem state (some row) = refl

  select_self :
      (s : I) (rows : List A)
      → select key (id s) (upsert key (fresh s) (change s) rows)
        ≡ some (row_of key id fresh change s (select key (id s) rows))
  select_self s rows =
      let e = select-upsert key (fresh s) (change s) (keeps s) (id s) rows in
      rw (e, key-fresh s)
        (ground (arith, eq_iff (id s) (id s), row_of_lem s (select key (id s) rows)))

  select_other :
      (s : I) (k : String) (rows : List A)
      → str_eq (id s) k ≡ false
      → select key k (upsert key (fresh s) (change s) rows) ≡ select key k rows
  select_other s k rows other =
      rw (select-upsert key (fresh s) (change s) (keeps s) k rows, key-fresh s, other) refl

  select-upsert_all :
      (k : String) (states : List I) (rows : List A)
      → Distinct (keys id states)
      → select key k (upsert_all key id fresh change states rows)
        ≡ over key id fresh change (select id k states) (select key k rows)
  unfolding select upsert_all
  select-upsert_all k [] rows u = refl
  select-upsert_all k (s ∷ ss) rows u =
      let later = select-upsert_all k ss (upsert key (fresh s) (change s) rows) u.1 in
      elim (Bool-cases (str_eq (id s) k)) [
        | inl same ↦
            let e = (eq_iff (id s) k).0 same in
            rw (later, same, ← e, select_of_not_In id (id s) ss u.0, select_self s rows) refl
        | inr other ↦ rw (later, other, select_other s k rows other) refl
      ]

  -- Looking up a key in the rows afterwards is looking up its state.
  pub select-synchronize :
      (k : String) (states : List I) (rows : List A)
      → Distinct (keys id states)
      → select key k (synchronize key id fresh change states rows)
        ≡ synchronized key id fresh change (select id k states) (select key k rows)
  unfolding synchronize
  select-synchronize k states rows u =
      let e = select-upsert_all k states (retain key (map id states) rows) u in
      elim (Option-cases (select id k states)) [
        | inl missing ↦
            let absent = includes_of_absent id k states missing in
            rw (e, missing, select-retain key (map id states) k rows, absent) refl
        | inr (state, found) ↦
            let present =
              (includes_iff (map id states) k).1 (In_of_select_some id k states found) in
            rw (e, found, select-retain key (map id states) k rows, present) refl
      ]

  Distinct-upsert_all :
      (states : List I) (rows : List A)
      → Distinct (keys key rows)
      → Distinct (keys key (upsert_all key id fresh change states rows))
  unfolding upsert_all
  Distinct-upsert_all [] rows u = u
  Distinct-upsert_all (s ∷ ss) rows u =
      Distinct-upsert_all ss (upsert key (fresh s) (change s) rows)
        (Distinct-upsert key (fresh s) (change s) (keeps s) rows u)

  pub Distinct-synchronize :
      (states : List I) (rows : List A)
      → Distinct (keys key rows)
      → Distinct (keys key (synchronize key id fresh change states rows))
  unfolding synchronize
  Distinct-synchronize states rows u =
      Distinct-upsert_all states (retain key (map id states) rows)
        (Distinct-retain key (map id states) rows u)

  -- A row is there exactly if it is that of one of the states.
  pub In-synchronize :
      (states : List I) (rows : List A) {row : A}
      → Distinct (keys id states)
      → Distinct (keys key rows)
      → In row (synchronize key id fresh change states rows)
      → (state : I) × In state states
        × (row ≡ row_of key id fresh change state (select key (id state) rows))
  In-synchronize states rows {row} us ur i =
      let e =
        select_of_In key (synchronize key id fresh change states rows)
          (Distinct-synchronize states rows ur) i in
      let l = select-synchronize (key row) states rows us in
      elim (Option-cases (select id (key row) states)) [
        | inl missing ↦ absurd (ground (arith, sym e ∙ rw missing at l))
        | inr (state, found) ↦ (
          state,
          In-select id (key row) states found,
          rw (Key-select id (key row) states found) (ground (arith, sym e ∙ rw found at l)),
        )
      ]

  pub In-synchronize_of :
      (states : List I) (rows : List A) {state : I}
      → Distinct (keys id states)
      → In state states
      → In
          (row_of key id fresh change state (select key (id state) rows))
          (synchronize key id fresh change states rows)
  In-synchronize_of states rows {state} us i =
      let l = select-synchronize (id state) states rows us in
      In-select key (id state) _ (rw (select_of_In id states us i) at l)
