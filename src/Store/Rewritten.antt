-- ===== src/Store/Rewritten.antt =====
-- What renewing, releasing and revoking a writer's lease write: the lease of one row, which keeps
-- its token, and its owner too if it still has one.
use pi_agentworks.Prelude.{
  ℕ, ◌+◌, String, ◌≡◌, refl, sym, ap, ◌⊎◌, inl, inr, Option, none, some, ◌==◌, is_some,
}
use pi_agentworks.Errors.{Result, ok, >>=-eq-ok, ok-injective, integrity, stale_writer_lease}
use pi_agentworks.Store.{
  Database, RunTables, StoryRow, WriterLeaseRow, WriterLeaseAction, renewed, released, revoked,
  FencedWrite, non_empty, check, found, as_safe_integer,
}
use pi_agentworks.Store.Lease.{assert_fence, assert_time_and_ttl}
use pi_agentworks.Store.Tables.{select}
use pi_agentworks.Store.Validation.{story_id}
use pi_agentworks.Store.Writers.{
  HeldInput, RevokeInput, Held, renew_writer_lease, release_writer_lease, revoke_writer_lease,
  update_held, assert_held_writer_lease, or_release, released_with, writer_lease_row, revoke_from,
  freed, store, with_event, rewrite, extended, update_row,
}
use pi_agentworks.Store.Outcome.{found-eq-ok}

-- No lease is made or removed, and one that is there keeps its token, and its owner or none.
abbrev pub IsKept : Option WriterLeaseRow → Option WriterLeaseRow → Type 0
IsKept none none = Unit
IsKept none (some lease) = ⊥
IsKept (some old) none = ⊥
IsKept (some old) (some lease) =
    (lease.lease_token ≡ old.lease_token)
    × ((lease.owner_agent_id ≡ none) ⊎ (lease.owner_agent_id ≡ old.owner_agent_id))

pub record Rewritten (run_id story : String) (db next : Database) : Type 0 where
  pub tables : RunTables
  pub row : StoryRow
  pub lease : Option WriterLeaseRow
  pub write : FencedWrite
  pub named : String
  pub token : ℕ
  pub owner : String
  pub action : WriterLeaseAction
  pub reason : Option String
  pub current : db.runs run_id ≡ some tables
  pub chosen : select story_id story tables.stories ≡ some row
  pub kept : IsKept row.lease lease
  pub result :
      next
      ≡ store db run_id (
          with_event
            (record tables { stories = rewrite (record row { lease = lease }) tables.stories })
            write
            named
            token
            owner
            action
            reason)

update_row-IsKept :
    (change : WriterLeaseRow → Result WriterLeaseRow) (row : Option WriterLeaseRow)
    {lease : Option WriterLeaseRow}
    → ((old l : WriterLeaseRow) → change old ≡ ok l → IsKept (some old) (some l))
    → update_row change row ≡ ok lease
    → IsKept row lease
update_row-IsKept change none keeps h = rw (← ok-injective h) tt
update_row-IsKept change (some old) keeps h =
    let (l, changed, e) = >>=-eq-ok (change old) _ h in rw (← ok-injective e) (keeps old l changed)

extended-IsKept :
    (expires_at now : ℕ) (old l : WriterLeaseRow)
    → extended expires_at now old ≡ ok l
    → IsKept (some old) (some l)
extended-IsKept expires_at now old l h =
    let (u, owned, e) =
      >>=-eq-ok (check (is_some old.owner_agent_id) (integrity "CHECK constraint failed")) _ h in
    rw (← ok-injective e) (refl, inr refl)

abbrev free : ℕ → WriterLeaseRow → Result WriterLeaseRow
free now lease = ok (freed lease now)

free-IsKept : (now : ℕ) (old l : WriterLeaseRow) → free now old ≡ ok l → IsKept (some old) (some l)
free-IsKept now old l h = rw (← ok-injective h) (refl, inl refl)

update_held-Rewritten :
    (db : Database) (input : HeldInput) (held : Held)
    (change : WriterLeaseRow → Result WriterLeaseRow) (action : WriterLeaseAction) {next : Database}
    → ((old l : WriterLeaseRow) → change old ≡ ok l → IsKept (some old) (some l))
    → update_held db input held change action ≡ ok next
    → Rewritten input.run_id input.story_id db next
unfolding update_held
update_held-Rewritten db input held change action keeps h₀ =
    let missing = integrity "FOREIGN KEY constraint failed" in
    let (tables, current, h₁) = >>=-eq-ok (found (db.runs input.run_id) missing) _ h₀ in
    let (row, chosen, h₂) =
      >>=-eq-ok (found (select story_id input.story_id tables.stories) missing) _ h₁ in
    let (lease, changed, e) = >>=-eq-ok (update_row change row.lease) _ h₂ in
    record {
      tables = tables;
      row = row;
      lease = lease;
      write = input.write;
      named = input.story_id;
      token = held.lease.lease_token;
      owner = input.owner_agent_id;
      action = action;
      reason = none;
      current = found-eq-ok (db.runs input.run_id) missing current;
      chosen = found-eq-ok (select story_id input.story_id tables.stories) missing chosen;
      kept = update_row-IsKept change row.lease keeps changed;
      result = sym (ok-injective e);
    }

pub renew_writer_lease-Rewritten :
    (db : Database) (input : HeldInput) (ttl_ms : ℕ) {next : Database × WriterLeaseRow}
    → renew_writer_lease db input ttl_ms ≡ ok next
    → Rewritten input.run_id input.story_id db next.0
unfolding renew_writer_lease
renew_writer_lease-Rewritten db input ttl_ms h₀ =
    let (u₁, timed, h₁) = >>=-eq-ok (assert_time_and_ttl input.write.now ttl_ms) _ h₀ in
    let (u₂, fenced, h₂) = >>=-eq-ok (assert_fence db input.write) _ h₁ in
    let (held, is_held, h₃) = >>=-eq-ok (assert_held_writer_lease db input) _ h₂ in
    let change = extended (input.write.now + ttl_ms) input.write.now in
    let (next, updated, e) = >>=-eq-ok (update_held db input held change renewed) _ h₃ in
    rw (← ok-injective e) (
      update_held-Rewritten db input held change renewed
        (extended-IsKept (input.write.now + ttl_ms) input.write.now) updated)

or_release-cases :
    (db : Database) (row : Option WriterLeaseRow) (release : Result (Database × WriterLeaseRow))
    {next : Database × WriterLeaseRow}
    → or_release db row release ≡ ok next
    → (next.0 ≡ db) ⊎ (release ≡ ok next)
or_release-cases db none release h = inr h
or_release-cases db (some lease) release h = inl (sym (ap (λ r. r.0) (ok-injective h)))

pub release_writer_lease-Rewritten :
    (db : Database) (input : HeldInput) {next : Database × WriterLeaseRow}
    → release_writer_lease db input ≡ ok next
    → (next.0 ≡ db) ⊎ Rewritten input.run_id input.story_id db next.0
unfolding release_writer_lease
release_writer_lease-Rewritten db input h₀ =
    let (u₁, fenced, h₁) = >>=-eq-ok (assert_fence db input.write) _ h₀ in
    elim (or_release-cases db
      (released_with (writer_lease_row db input.run_id input.story_id) input.lease_token) _ h₁) [
        | inl again ↦ inl again
        | inr first ↦
            let (held, is_held, e) = >>=-eq-ok (assert_held_writer_lease db input) _ first in
            let (next, updated, last) =
              >>=-eq-ok (update_held db input held (free input.write.now) released) _ e in
            rw (← ok-injective last) (
              inr (
                update_held-Rewritten db input held (free input.write.now) released
                  (free-IsKept input.write.now) updated))
      ]

revoke_from-Rewritten :
    (db : Database) (input : RevokeInput) (reason : String) (tables : RunTables) (row : StoryRow)
    (lease : WriterLeaseRow) (owner : Option String)
    → db.runs input.run_id ≡ some tables
    → select story_id input.story_id tables.stories ≡ some row
    → row.lease ≡ some lease
    → ((revoke_from db input reason tables row lease owner).0 ≡ db)
      ⊎ Rewritten input.run_id input.story_id db
          (revoke_from db input reason tables row lease owner).0
revoke_from-Rewritten db input reason tables row lease none current chosen leased = inl refl
revoke_from-Rewritten db input reason tables row lease (some owner) current chosen leased =
    inr (record {
      tables = tables;
      row = row;
      lease = some (freed lease input.write.now);
      write = input.write;
      named = row.story.id;
      token = lease.lease_token;
      owner = owner;
      action = revoked;
      reason = some reason;
      current = current;
      chosen = chosen;
      kept = rw leased (refl, inl refl);
      result = refl;
    })

pub revoke_writer_lease-Rewritten :
    (db : Database) (input : RevokeInput) {next : Database × WriterLeaseRow}
    → revoke_writer_lease db input ≡ ok next
    → (next.0 ≡ db) ⊎ Rewritten input.run_id input.story_id db next.0
unfolding revoke_writer_lease
revoke_writer_lease-Rewritten db input h₀ =
    let (reason, explained, h₁) =
      >>=-eq-ok (non_empty input.reason "writer lease revocation reason") _ h₀ in
    let (u₁, safe, h₂) =
      >>=-eq-ok (as_safe_integer input.expected_lease_token "expected writer lease token") _ h₁ in
    let (u₂, fenced, h₃) = >>=-eq-ok (assert_fence db input.write) _ h₂ in
    let missing = stale_writer_lease "lease is missing" in
    let (tables, current, h₄) = >>=-eq-ok (found (db.runs input.run_id) missing) _ h₃ in
    let (row, chosen, h₅) =
      >>=-eq-ok (found (select story_id input.story_id tables.stories) missing) _ h₄ in
    let (lease, leased, h₆) = >>=-eq-ok (found row.lease missing) _ h₅ in
    let (u₃, token, e) =
      >>=-eq-ok
        (check (lease.lease_token == input.expected_lease_token)
          (stale_writer_lease "token is stale or missing"))
        _ h₆ in
    rw (← ok-injective e) (
      revoke_from-Rewritten db input reason tables row lease lease.owner_agent_id
        (found-eq-ok (db.runs input.run_id) missing current)
        (found-eq-ok (select story_id input.story_id tables.stories) missing chosen)
        (found-eq-ok row.lease missing leased))
