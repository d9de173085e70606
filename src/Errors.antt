-- ===== src/Errors.antt =====
-- The errors that the domain reducers throw, and the guards that throw them (nonEmpty,
-- assertForwardTime and invalid of src/domain/controller-state.ts).
use pi_agentworks.Prelude.{
  ℕ, ◌≤◌, String, ◌≡◌, refl, ◌≢◌, ◌⊎◌, Bool, true, false, ◌&&◌, Option, arith, leb, str_eq, eq_iff,
  if◌then◌else◌, trim,
}

pub data Entity : Type 0 where
  run story agent : Entity

-- The errors of the controller's database, by the names of their classes; `failed` is the general
-- ControllerRepositoryError, `integrity` a violated constraint of the database.
pub data RepositoryError : Type 0 where
  lease_held : (owner_id : String) → RepositoryError
  stale_fence : (reason : String) → RepositoryError
  writer_lease_held : (owner_agent_id : String) → RepositoryError
  stale_writer_lease : (reason : String) → RepositoryError
  capacity_exceeded : (limit occupied : ℕ) → RepositoryError
  stale_revision : (expected actual : ℕ) → RepositoryError
  idempotency_conflict : (key : String) → RepositoryError
  invalid_snapshot failed integrity : (reason : String) → RepositoryError

-- `invalid` is InvalidStateTransitionError: the entity, its status, the transition's type and the
-- reason; `message_state` is InvalidAgentMessageStateError and `scheduling` is SchedulingError. The
-- others are plain `Error`s, but for the two of AgentMessageControllerError: `unknown_to_controller` and
-- `message_refused`, which is made of the error that refused the message, and for `herdr_failed`, what
-- a call of Herdr throws.
pub data Error : Type 0 where
  invalid : Entity → String → String → Option String → Error
  moved_backwards : Error
  empty_text : String → Error
  message_state : String → Error
  scheduling : String → Error
  repository : RepositoryError → Error
  unknown_to_controller : String → Error
  message_refused : Error → Error
  herdr_failed : Error

-- A call that returns a value, or throws.
pub data Result {ℓ} (A : Type ℓ) : Type ℓ where
  ok : (returned : A) → Result A
  err : (thrown : Error) → Result A

abbrev pub is_ok {ℓ} : {A : Type ℓ} → Result A → Bool
is_ok (ok returned) = true
is_ok (err thrown) = false

-- The value, or `fallback` where there is an error.
abbrev pub value_or {ℓ} : {A : Type ℓ} → Result A → A → A
value_or (ok returned) fallback = returned
value_or (err thrown) fallback = fallback

-- Go on where the test holds, and throw otherwise.
abbrev pub guard : Bool → Error → Result (Unit {0})
guard test thrown = if test then ok tt else err thrown

infixl 5 ◌>>=◌
abbrev pub ◌>>=◌ {ℓ κ} : {S : Type ℓ} {T : Type κ} → Result S → (S → Result T) → Result T
err thrown >>= later = err thrown
ok returned >>= later = later returned

infixl 5 ◌>>◌
abbrev pub ◌>>◌ {ℓ} : {T : Type ℓ} → Result (Unit {0}) → Result T → Result T
first >> later = first >>= λ done. later

unfoldable pub non_empty : String → String → Result String
non_empty value label =
    let normalized = trim value in
    if str_eq normalized "" then err (empty_text label) else ok normalized

-- Number.MAX_SAFE_INTEGER
abbrev pub max_safe_integer : ℕ
max_safe_integer = 9007199254740991

unfoldable pub assert_forward_time : ℕ → ℕ → Result (Unit {0})
assert_forward_time updated_at at =
    guard (leb at max_safe_integer && leb updated_at at) moved_backwards

-- A text is refused exactly if it is blank, and otherwise passes trimmed.
pub non_empty-cases :
    (value label : String)
    → ((trim value ≡ "") × (non_empty value label ≡ err (empty_text label)))
      ⊎ ((trim value ≢ "") × (non_empty value label ≡ ok (trim value)))
unfolding non_empty
non_empty-cases value label = ground (arith, eq_iff (trim value) "")

pub non_empty_of_visible :
    (value label : String) → trim value ≢ "" → non_empty value label ≡ ok (trim value)
unfolding non_empty
non_empty_of_visible value label h = ground (arith, eq_iff (trim value) "")

pub assert_forward_time-eq-ok :
    (updated_at at : ℕ)
    → assert_forward_time updated_at at ≡ ok tt
    → (updated_at ≤ at) × (at ≤ max_safe_integer)
unfolding assert_forward_time
assert_forward_time-eq-ok updated_at at h = ground arith

-- A chain of two calls that returns is made of two calls that return.
pub >>=-eq-ok {ℓ κ} :
    {S : Type ℓ} {T : Type κ} (first : Result S) (later : S → Result T) {last : T}
    → (first >>= later) ≡ ok last
    → (middle : S) × (first ≡ ok middle) × (later middle ≡ ok last)
>>=-eq-ok (err thrown) later h = absurd (cc)
>>=-eq-ok (ok returned) later h = (returned, refl, h)

pub ok-injective {ℓ} : {A : Type ℓ} {a b : A} → ok a ≡ ok b → a ≡ b
ok-injective h = ground arith
