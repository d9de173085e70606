-- ===== src/Store/WriterFencing.antt =====
-- A writer whose lease was revoked never writes with its token again.
use pi_agentworks.Prelude.{
  ℕ, ◌≤◌, ◌<◌, String, ◌≡◌, refl, ◌∙◌, sym, ap, ◌⊎◌, inl, inr, Option, none, some, List, arith,
  eq_iff, str_eq, Bool-cases, Option-cases, subst, if◌then◌else◌,
}
use pi_agentworks.Store.{RunTables, StoryRow, WriterLeaseRow, put, put_self, put_ne}
use pi_agentworks.Store.Tables.{select, Key-select, select-upsert}
use pi_agentworks.Store.Validation.{story_id}
use pi_agentworks.Store.Writers.{rewrite}

-- The lease of a story among the rows.
abbrev pub lease_of : Option StoryRow → Option WriterLeaseRow
lease_of none = none
lease_of (some row) = row.lease

abbrev pub lease_in : Option RunTables → String → Option WriterLeaseRow
lease_in none k = none
lease_in (some tables) k = lease_of (select story_id k tables.stories)

-- No row but the story's own changes its lease, when it is rewritten.
pub lease_of-rewrite :
    (row : StoryRow) (rows : List StoryRow) (k : String)
    → lease_of (select story_id k (rewrite row rows))
      ≡ (if str_eq row.story.id k then row.lease else lease_of (select story_id k rows))
lease_of-rewrite row rows k =
    let e = select-upsert story_id row (λ old. row) (λ old h. refl) k rows in
    elim (Bool-cases (str_eq row.story.id k)) [
      | inl same ↦ elim (Option-cases (select story_id row.story.id rows)) [
        | inl missing ↦ rw (e, same, missing) refl
        | inr (old, found) ↦ rw (e, same, found) refl
      ]
      | inr other ↦ rw (e, other) refl
    ]

-- A lease that no owner with the token, or an earlier one, holds.
abbrev pub IsOver : ℕ → Option WriterLeaseRow → Type 0
IsOver token none = ⊥
IsOver token (some lease) =
    (token < lease.lease_token) ⊎ ((token ≤ lease.lease_token) × (lease.owner_agent_id ≡ none))

abbrev pub OverIn : ℕ → String → String → (String → Option RunTables) → Type 0
OverIn token r k runs = IsOver token (lease_in (runs r) k)

module _ (P : Option WriterLeaseRow → Type 0) (r k : String) where
  abbrev Holds : (String → Option RunTables) → Type 0
  Holds runs = P (lease_in (runs r) k)

  pub put-Holds :
      (run_id : String) (changed : RunTables) (runs : String → Option RunTables)
      → (run_id ≡ r → P (lease_in (some changed) k))
      → Holds runs
      → Holds (put run_id changed runs)
  put-Holds run_id changed runs here elsewhere = elim (Bool-cases (str_eq run_id r)) [
    | inl same ↦
        let e = (eq_iff run_id r).0 same in
        subst (λ tables. P (lease_in tables k))
          (sym (put_self run_id changed runs) ∙ ap (put run_id changed runs) e) (here e)
    | inr other ↦
        rw (put_ne run_id r changed runs (λ e. ground (arith, other, eq_iff run_id r))) elsewhere
  ]

  -- A row of the run is rewritten, with a lease that has the property if the old one had it.
  pub rewrite-Holds :
      (run_id story : String) (tables changed : RunTables) (row new : StoryRow)
      (runs : String → Option RunTables)
      → runs run_id ≡ some tables
      → select story_id story tables.stories ≡ some row
      → changed.stories ≡ rewrite new tables.stories
      → new.story.id ≡ row.story.id
      → (P row.lease → P new.lease)
      → Holds runs
      → Holds (put run_id changed runs)
  rewrite-Holds run_id story tables changed row new runs current chosen stories named keeps h =
      put-Holds run_id changed runs
        (λ e.
          let before : P (lease_of (select story_id k tables.stories)) =
            subst (λ found. P (lease_in found k)) (ap runs (sym e) ∙ current) h in
          rw (stories, lease_of-rewrite new tables.stories k)
            (elim (Bool-cases (str_eq new.story.id k)) [
              | inl same ↦
                  let is_k : story ≡ k =
                    sym (Key-select story_id story tables.stories chosen)
                    ∙ sym named
                    ∙ (eq_iff new.story.id k).0 same in
                  rw same (
                    keeps (
                      subst (P)
                        (ap lease_of
                          (ap (λ s. select story_id s tables.stories) (sym is_k) ∙ chosen))
                        before))
              | inr other ↦ rw other before
            ]))
        h
