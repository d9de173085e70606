-- ===== src/Store/Lease.antt =====
-- The controller's own lease, and the fence that every write passes.
use pi_agentworks.Prelude.{
  ℕ, ◌+◌, ◌-◌, String, Bool, false, not, ◌&&◌, Option, none, some, if◌then◌else◌, ltb, leb, ◌==◌,
  str_eq,
}
use pi_agentworks.Errors.{
  lease_held, stale_fence, failed, Result, ok, ◌>>=◌, ◌>>◌, max_safe_integer,
}
use pi_agentworks.Store.{LeaseRow, Database, FencedWrite, non_empty, check, as_safe_integer}

-- `value !== null && value === text`
abbrev pub is_text : Option String → String → Bool
is_text none text = false
is_text (some value) text = str_eq value text

-- `time !== null && time > now`
abbrev pub is_after : Option ℕ → ℕ → Bool
is_after none now = false
is_after (some time) now = ltb now time

unfoldable pub assert_time_and_ttl : ℕ → ℕ → Result (Unit {0})
assert_time_and_ttl now ttl_ms = do
  as_safe_integer now "lease timestamp"
  as_safe_integer ttl_ms "lease ttl"
  check (leb 1 ttl_ms && leb now (max_safe_integer - ttl_ms))
      (failed "lease ttl must produce a safe future expiration")

unfoldable pub assert_fence : Database → FencedWrite → Result (Unit {0})
assert_fence db write = do
  owner_id ← non_empty write.owner_id "fenced writer owner id"
  as_safe_integer write.fencing_token "fencing token"
  as_safe_integer write.now "fenced write timestamp"
  check (is_text db.controller_lease.owner_id owner_id)
      (stale_fence "owner does not hold the lease")
  check (db.controller_lease.fencing_token == write.fencing_token) (stale_fence "token is stale")
  check (is_after db.controller_lease.expires_at write.now) (stale_fence "lease has expired")

-- The owner of a lease that has not expired.
abbrev pub holder : LeaseRow → ℕ → Option String
holder row now = if is_after row.expires_at now then row.owner_id else none

-- `row.owner_id !== null && ... && row.owner_id !== normalizedOwnerId`
abbrev pub is_other : Option String → String → Bool
is_other none owner = false
is_other (some held) owner = not (str_eq held owner)

abbrev pub or_empty : Option String → String
or_empty none = ""
or_empty (some value) = value

unfoldable pub acquire_lease : Database → String → ℕ → ℕ → Result Database
acquire_lease db owner_id now ttl_ms = do
  owner ← non_empty owner_id "lease owner id"
  assert_time_and_ttl now ttl_ms
  let row = db.controller_lease
  check (not (is_other (holder row now) owner)) (lease_held (or_empty row.owner_id))
  ok (record db {
    controller_lease = record {
      owner_id = some owner;
      fencing_token =
          if is_text (holder row now) owner then row.fencing_token else row.fencing_token + 1;
      expires_at = some (now + ttl_ms);
    };
  })

unfoldable pub renew_lease : Database → FencedWrite → ℕ → Result Database
renew_lease db write ttl_ms = do
  assert_time_and_ttl write.now ttl_ms
  assert_fence db write
  ok (record db {
    controller_lease = record db.controller_lease { expires_at = some (write.now + ttl_ms) };
  })

unfoldable pub release_lease : Database → FencedWrite → Result Database
release_lease db write = do
  assert_fence db write
  ok (record db {
    controller_lease = record db.controller_lease { owner_id = none; expires_at = none };
  })
