-- ===== src/Store/Fencing.antt =====
-- The fence: who has lost the controller's lease to another never writes again with the old token.
use pi_agentworks.Prelude.{
  ℕ, ◌≤◌, ◌<◌, String, ◌≡◌, refl, ◌≢◌, ◌⊎◌, inl, inr, true, false, some, List, arith, trim,
  Bool-cases,
}
use pi_agentworks.Errors.{Result, ok, err, is_ok, >>=-eq-ok, ok-injective}
use pi_agentworks.Trace.{replay, replay_inv}
use pi_agentworks.Store.{Database, LeaseRow, FencedWrite, non_empty}
use pi_agentworks.Store.Snapshots
use pi_agentworks.Store.Writers
use pi_agentworks.Store.Lease.{
  acquire_lease, renew_lease, release_lease, assert_fence, holder, is_text, is_after,
}
use pi_agentworks.Store.Launches
use pi_agentworks.Store.Launched.{materialize_agent_launch-Touched}
use pi_agentworks.Store.Bound.{bind_agent_pane_restoration-Touched}
use pi_agentworks.Store.Operations.{Operation, perform, write_of}
use pi_agentworks.Store.Passed.{text_of_owner, Passes, assert_fence-Passes, perform-fence}
use pi_agentworks.Store.Writers.{
  HeldInput, RevokeInput, renew_writer_lease, release_writer_lease, revoke_writer_lease,
}
use pi_agentworks.Store.Frame.{
  commit_snapshot-lease, initialize_run-lease, acquire_writer_lease-lease, renew_writer_lease-lease,
  release_writer_lease-lease, revoke_writer_lease-lease,
}

-- The owner has no lease with this token, nor can get one: the token is in the past, or is another's.
abbrev pub IsFenced : String → ℕ → LeaseRow → Type 0
IsFenced owner token row =
    (token < row.fencing_token) ⊎ ((token ≡ row.fencing_token) × (row.owner_id ≢ some owner))

text_of_holder :
    (row : LeaseRow) (now : ℕ) (text : String)
    → is_text (holder row now) text ≡ true
    → row.owner_id ≡ some text
text_of_holder row now text h = elim (Bool-cases (is_after row.expires_at now)) [
  | inl live ↦ text_of_owner row.owner_id text (rw live at h)
  | inr over ↦ absurd (ground (arith, h, over))
]

module _ (owner : String) (token : ℕ) where
  acquire_lease-IsFenced :
      (db : Database) (owner_id : String) (now ttl_ms : ℕ) (next : Database)
      → IsFenced owner token db.controller_lease
      → acquire_lease db owner_id now ttl_ms ≡ ok next
      → IsFenced owner token next.controller_lease
  unfolding acquire_lease non_empty
  acquire_lease-IsFenced db owner_id now ttl_ms next p h = elim p [
    | inl past ↦ inl (ground (arith, past))
    | inr (present, foreign) ↦
        elim (Bool-cases (is_text (holder db.controller_lease now) (trim owner_id))) [
          | inl held ↦ inr (
            ground (arith, present, held),
            ground (arith, foreign, held, text_of_holder db.controller_lease now (trim owner_id)),
          )
          | inr new ↦ inl (ground (arith, present, new))
        ]
  ]

  renew_lease-IsFenced :
      (db : Database) (write : FencedWrite) (ttl_ms : ℕ) (next : Database)
      → IsFenced owner token db.controller_lease
      → renew_lease db write ttl_ms ≡ ok next
      → IsFenced owner token next.controller_lease
  unfolding renew_lease
  renew_lease-IsFenced db write ttl_ms next p h = elim p [
    | inl past ↦ inl (ground (arith, past))
    | inr (present, foreign) ↦ inr (ground (arith, present), ground (arith, foreign))
  ]

  release_lease-IsFenced :
      (db : Database) (write : FencedWrite) (next : Database)
      → IsFenced owner token db.controller_lease
      → release_lease db write ≡ ok next
      → IsFenced owner token next.controller_lease
  unfolding release_lease
  release_lease-IsFenced db write next p h = elim p [
    | inl past ↦ inl (ground (arith, past))
    | inr (present, foreign) ↦ inr (ground (arith, present), ground (arith, foreign))
  ]

-- What the three operations on the controller's lease keep, every operation keeps.
perform_inv :
    (P : LeaseRow → Type 0)
    → ((db : Database) (owner_id : String) (now ttl_ms : ℕ) (next : Database)
        → P db.controller_lease
        → acquire_lease db owner_id now ttl_ms ≡ ok next
        → P next.controller_lease)
    → ((db : Database) (write : FencedWrite) (ttl_ms : ℕ) (next : Database)
        → P db.controller_lease
        → renew_lease db write ttl_ms ≡ ok next
        → P next.controller_lease)
    → ((db : Database) (write : FencedWrite) (next : Database)
        → P db.controller_lease
        → release_lease db write ≡ ok next
        → P next.controller_lease)
    → (db : Database) (op : Operation) (next : Database) → P db.controller_lease
    → perform db op ≡ ok next
    → P next.controller_lease
unfolding perform
perform_inv P acquire renew release db (Operation.acquire_lease owner_id now ttl_ms) next p h =
    acquire db owner_id now ttl_ms next p h
perform_inv P acquire renew release db (Operation.renew_lease write ttl_ms) next p h =
    renew db write ttl_ms next p h
perform_inv P acquire renew release db (Operation.release_lease write) next p h =
    release db write next p h
perform_inv P acquire renew release db (Operation.initialize_run input) next p h =
    let (r, done, e) = >>=-eq-ok (Snapshots.initialize_run db input) _ h in
    rw (← ok-injective e, initialize_run-lease db input done) p
perform_inv P acquire renew release db (Operation.commit_snapshot run_id expected input) next p h =
    let (r, done, e) = >>=-eq-ok (Snapshots.commit_snapshot db run_id expected input) _ h in
    rw (← ok-injective e, commit_snapshot-lease db run_id expected input done) p
perform_inv P acquire renew release db (Operation.acquire_writer_lease input) next p h =
    let (r, done, e) = >>=-eq-ok (Writers.acquire_writer_lease db input) _ h in
    rw (← ok-injective e, acquire_writer_lease-lease db input done) p
perform_inv P acquire renew release db (Operation.renew_writer_lease input ttl_ms) next p h =
    let (r, done, e) = >>=-eq-ok (Writers.renew_writer_lease db input ttl_ms) _ h in
    rw (← ok-injective e, renew_writer_lease-lease db input ttl_ms done) p
perform_inv P acquire renew release db (Operation.release_writer_lease input) next p h =
    let (r, done, e) = >>=-eq-ok (Writers.release_writer_lease db input) _ h in
    rw (← ok-injective e, release_writer_lease-lease db input done) p
perform_inv P acquire renew release db (Operation.revoke_writer_lease input) next p h =
    let (r, done, e) = >>=-eq-ok (Writers.revoke_writer_lease db input) _ h in
    rw (← ok-injective e, revoke_writer_lease-lease db input done) p
perform_inv P acquire renew release db (Operation.materialize_agent_launch input answers) next p h =
    let (r, done, e) = >>=-eq-ok (Launches.materialize_agent_launch db input answers) _ h in
    rw (← ok-injective e, (materialize_agent_launch-Touched db input answers done).1.result) p
perform_inv P acquire renew release db (Operation.bind_agent_pane_restoration input answers) next p
      h =
    elim (bind_agent_pane_restoration-Touched db input answers h).1 [
      | inl same ↦ rw same p
      | inr w ↦ rw w.result p
    ]

-- The token never falls.
module _ (token : ℕ) where
  abbrev HasReached : LeaseRow → Type 0
  HasReached row = token ≤ row.fencing_token

  acquire_lease-HasReached :
      (db : Database) (owner_id : String) (now ttl_ms : ℕ) (next : Database)
      → HasReached db.controller_lease
      → acquire_lease db owner_id now ttl_ms ≡ ok next
      → HasReached next.controller_lease
  unfolding acquire_lease non_empty
  acquire_lease-HasReached db owner_id now ttl_ms next p h = ground arith

  renew_lease-HasReached :
      (db : Database) (write : FencedWrite) (ttl_ms : ℕ) (next : Database)
      → HasReached db.controller_lease
      → renew_lease db write ttl_ms ≡ ok next
      → HasReached next.controller_lease
  unfolding renew_lease
  renew_lease-HasReached db write ttl_ms next p h = ground arith

  release_lease-HasReached :
      (db : Database) (write : FencedWrite) (next : Database)
      → HasReached db.controller_lease
      → release_lease db write ≡ ok next
      → HasReached next.controller_lease
  unfolding release_lease
  release_lease-HasReached db write next p h = ground arith

  replay-HasReached :
      (db : Database) (ops : List Operation) {next : Database}
      → HasReached db.controller_lease
      → replay perform db ops ≡ ok next
      → HasReached next.controller_lease
  replay-HasReached =
      replay_inv perform (λ db. HasReached db.controller_lease)
        (perform_inv HasReached acquire_lease-HasReached renew_lease-HasReached
          release_lease-HasReached)

replay-IsFenced :
    (owner : String) (token : ℕ) (db : Database) (ops : List Operation) {next : Database}
    → IsFenced owner token db.controller_lease
    → replay perform db ops ≡ ok next
    → IsFenced owner token next.controller_lease
replay-IsFenced owner token =
    replay_inv perform (λ db. IsFenced owner token db.controller_lease)
      (perform_inv (IsFenced owner token) (acquire_lease-IsFenced owner token)
        (renew_lease-IsFenced owner token) (release_lease-IsFenced owner token))

-- Another's acquisition fences off.
taken-IsFenced :
    (owner : String) (token : ℕ) (db : Database) (other : String) (now ttl_ms : ℕ) {next : Database}
    → token ≤ db.controller_lease.fencing_token
    → trim other ≢ owner
    → acquire_lease db other now ttl_ms ≡ ok next
    → IsFenced owner token next.controller_lease
unfolding acquire_lease non_empty
taken-IsFenced owner token db other now ttl_ms reached differs h = ground arith

pub refused {ℓ} : {A : Type ℓ} (r : Result A) → ((a : A) → r ≡ ok a → ⊥) → is_ok r ≡ false
refused (ok returned) h = absurd (h returned refl)
refused (err thrown) h = refl

IsFenced-refuses :
    (db : Database) (write : FencedWrite)
    → IsFenced (trim write.owner_id) write.fencing_token db.controller_lease
    → ¬ Passes db write
unfolding non_empty
IsFenced-refuses db write p passes = elim p [
  | inl past ↦ ground (arith, past, passes.current)
  | inr (present, foreign) ↦ foreign (ground (arith, passes.owned, passes.named))
]

-- If a write passes the fence, and later another owner acquires the controller's lease, then
-- whatever operations are accepted before and after, every operation under that owner and token is
-- refused from then on, at whatever time it is made.
pub superseded_writer_is_refused :
    (db : Database) (write : FencedWrite) (ops : List Operation) {middle : Database}
    (other : String) (now ttl_ms : ℕ) {taken : Database} (more : List Operation) {last : Database}
    (op : Operation) (later : ℕ)
    → assert_fence db write ≡ ok tt
    → replay perform db ops ≡ ok middle
    → acquire_lease middle other now ttl_ms ≡ ok taken
    → trim other ≢ trim write.owner_id
    → replay perform taken more ≡ ok last
    → write_of op ≡ some (record write { now = later })
    → is_ok (perform last op) ≡ false
superseded_writer_is_refused db write ops {middle} other now ttl_ms {taken} more {last} op later
      held before acquired differs after made =
    let p = assert_fence-Passes db write held in
    let reached = replay-HasReached write.fencing_token db ops (ground (arith, p.current)) before in
    let fenced =
      replay-IsFenced (trim write.owner_id) write.fencing_token taken more
        (taken-IsFenced (trim write.owner_id) write.fencing_token middle other now ttl_ms reached
          differs acquired)
        after in
    refused (perform last op) (λ next done.
      IsFenced-refuses last (record write { now = later }) fenced
        (assert_fence-Passes last _ (perform-fence last op done made)))
