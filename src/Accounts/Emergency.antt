-- ===== src/Accounts/Emergency.antt =====
-- backend/src/domain/services/recovery.service.ts with prisma-emergency-recovery.repository.ts: the
-- emergency recovery of a super admin.
use werefa.Prelude.{
  ℕ, suc, ◌+◌, ◌*◌, ◌==◌, Bool, true, false, not, ◌&&◌, Option, none, some, ◌∷◌, leb, ltb,
  if◌then◌else◌, find_first, update_many, count_where, is_some,
}
use werefa.Errors.{Result, ok, err, recovery_code_invalid}
use werefa.Store.{Text}
use werefa.Accounts.{
  Role, super_admin_role, User, ClientInfo, Directory, AuthEnv, Recovery, recovery_code_requested,
  recovery_code_failed, recovery_code_verified, success, invalid_code, attempts_exceeded,
  recovery_code_email, note_event, find_by_email, update_password, revoke_all_by_user_id,
}
use werefa.Accounts.Login.{normal_email, publish_email}

abbrev pub is_unused : Recovery → Bool
is_unused r = not (is_some r.used_at)

-- `expireAllForUser`
unfoldable pub expire_all_for_user : Directory → ℕ → ℕ → Directory
expire_all_for_user d user_id now = record d {
  recoveries =
      update_many (λ (r : Recovery). r.user_id == user_id && is_unused r)
        (λ (r : Recovery). record r { used_at = some now }) d.recoveries;
}

unfoldable pub create_recovery : Directory → ℕ → ℕ → ℕ → Directory
create_recovery d user_id code_hash expires_at = record d {
  recoveries =
      record {
        id = d.next_recovery;
        user_id = user_id;
        code_hash = code_hash;
        expires_at = expires_at;
        used_at = none;
        attempts = 0;
      }
      ∷ d.recoveries;
  next_recovery = suc d.next_recovery;
}

abbrev pub is_active_code : ℕ → ℕ → Recovery → Bool
is_active_code user_id now r = r.user_id == user_id && (is_unused r && ltb now r.expires_at)

-- `findActiveByUserId`
unfoldable pub find_active_code : Directory → ℕ → ℕ → Option Recovery
find_active_code d user_id now = find_first (is_active_code user_id now) d.recoveries

tries_of : Option Recovery → ℕ
tries_of none = 0
tries_of (some r) = r.attempts

-- `incrementAttempts`
unfoldable pub increment_attempts : Directory → ℕ → ℕ × Directory
unfolding tries_of
increment_attempts d id =
    let rows =
      update_many (λ (r : Recovery). r.id == id)
        (λ (r : Recovery). record r { attempts = r.attempts + 1 }) d.recoveries in
    (tries_of (find_first (λ (r : Recovery). r.id == id) rows), record d { recoveries = rows })

abbrev pub claimable : ℕ → Recovery → Bool
claimable id r = r.id == id && is_unused r

-- `consume`
unfoldable pub consume : Directory → ℕ → ℕ → Bool × Directory
consume d id now = (
  count_where (claimable id) d.recoveries == 1,
  record d {
    recoveries =
        update_many (claimable id) (λ (r : Recovery). record r { used_at = some now }) d.recoveries;
  },
)

abbrev is_super : Role → Bool
is_super super_admin_role = true
is_super _ = false

-- `user.role === 'SUPER_ADMIN' && user.recoveryEmail`, with that address.
abbrev pub recovery_address : User → Option Text
recovery_address u = if is_super u.role then u.recovery_email else none

unfoldable pub grant_code :
    AuthEnv → Directory → ℕ → ℕ → ClientInfo → User → Option Text → Directory
unfolding create_recovery expire_all_for_user
grant_code env d now code client u none = d
grant_code env d now code client u (some address) =
    publish_email (record { type = recovery_code_email; user_id = u.id; email = address })
      (note_event (some u.id) recovery_code_requested client success (
        create_recovery (expire_all_for_user d u.id now) u.id (env.sha256 code)
          (now + env.recovery_ttl_minutes * 60000)))

unfoldable pub code_for : AuthEnv → Directory → ℕ → ℕ → ClientInfo → Option User → Directory
unfolding grant_code
code_for env d now code client none = d
code_for env d now code client (some u) = grant_code env d now code client u (recovery_address u)

-- `requestCode`, with the code that was drawn.
unfoldable pub request_recovery : AuthEnv → Directory → ℕ → ℕ → Text → ClientInfo → Directory
unfolding code_for normal_email
request_recovery env d now code email client =
    code_for env d now code client (find_by_email env d (normal_email env email))

pub record Reset : Type 0 where
  pub email : Text
  pub code : ℕ
  pub new_password : Text
  pub client : ClientInfo

abbrev pub note_invalid : ℕ → ClientInfo → Directory → Directory
note_invalid id client d = note_event (some id) recovery_code_failed client invalid_code d

-- A wrong code.
unfoldable pub wrong_code : AuthEnv → Directory → ℕ → ClientInfo → User → Recovery → Directory
wrong_code env d now client u r =
    let tried = increment_attempts d r.id in
    if leb env.recovery_max_attempts tried.0
    then note_event (some u.id) recovery_code_failed client attempts_exceeded
        (expire_all_for_user tried.1 u.id now)
    else tried.1

-- The right code: the claim, then the reset.
unfoldable pub right_code :
    AuthEnv → Directory → ℕ → ℕ → Reset → User → Recovery → Directory × Result (Unit {0})
right_code env d now salt input u r =
    let claimed = consume d r.id now in
    if not claimed.0
    then (note_invalid u.id input.client claimed.1, err recovery_code_invalid)
    else (
      note_event (some u.id) recovery_code_verified input.client success (
          revoke_all_by_user_id
            (update_password claimed.1 u.id (env.hash salt input.new_password) now) now u.id),
      ok tt,
    )

unfoldable pub reset_with :
    AuthEnv → Directory → ℕ → ℕ → Reset → User → Option Recovery → Directory × Result (Unit {0})
reset_with env d now salt input u none =
    (note_invalid u.id input.client d, err recovery_code_invalid)
reset_with env d now salt input u (some r) =
    if not (env.sha256 input.code == r.code_hash)
    then (wrong_code env d now input.client u r, err recovery_code_invalid)
    else right_code env d now salt input u r

unfoldable pub reset_for :
    AuthEnv → Directory → ℕ → ℕ → Reset → Option User → Directory × Result (Unit {0})
unfolding reset_with
reset_for env d now salt input none = (d, err recovery_code_invalid)
reset_for env d now salt input (some u) =
    if is_some (recovery_address u)
    then reset_with env d now salt input u (find_active_code d u.id now)
    else (d, err recovery_code_invalid)

-- `confirmReset`
unfoldable pub confirm_reset : AuthEnv → Directory → ℕ → ℕ → Reset → Directory × Result (Unit {0})
unfolding reset_for normal_email
confirm_reset env d now salt input =
    reset_for env d now salt input (find_by_email env d (normal_email env input.email))
