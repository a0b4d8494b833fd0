-- ===== src/Tests/Accounts.antt =====
-- An owner who signs in, guesses of the password, a change of it, and an emergency reset.
use werefa.Accounts.Access.{
  resolve_actor_from_token, change_password, password_for, password_of, of_session, resolved,
}
use werefa.Accounts.Revoking.{change_password-resolve}
use werefa.Accounts.Emergency.{
  request_recovery, confirm_reset, code_for, grant_code, reset_for, reset_with, find_active_code,
  wrong_code, right_code, increment_attempts, consume,
}
use werefa.Accounts.Spending.{
  RecoveryCall, recovery_steps, IsCovered, recovery_step, recovery_steps-IsCovered, resets,
}
use werefa.Tenant.{ActorContext}
use werefa.Accounts.Sessions.{login-resolve}
use werefa.Accounts.Apart.{comparisons}
use werefa.Accounts.Lockout.{Attempt, login_all, login_all-comparisons, Guessing}
use werefa.Accounts.Login.{
  Credentials, LoginOutcome, login, to_actor, normal_email, bad_login, good_login, noted_success,
  issue_session,
}
use werefa.Accounts.{
  AuthEnv, User, Directory, super_admin_role, no_client, find_by_email, is_user,
  increment_failed_login_attempts, record_successful_login, set_locked_until, create_session,
  owner_role, find_valid_by_token_hash, revoke_all_by_user_id, update_password,
}
use werefa.Prelude.{
  ℕ, ◌≡◌, ◌≢◌, ◌≤◌, refl, true, false, none, some, List, [], ◌∷◌, ◌==◌, Memᴰ, arith, update_many,
  if◌then◌else◌, leb, ◌&&◌, ◌+◌, ◌*◌,
}
use werefa.Store.{Text, text_eq}
use werefa.Errors.{ok, err, unauthenticated}

abbrev address : Text
address = b'a' ∷ b'@' ∷ b'b' ∷ []

abbrev secret : Text
secret = 1 ∷ 2 ∷ 3 ∷ []

abbrev guess : Text
guess = 1 ∷ 2 ∷ 4 ∷ []

-- Stands for the hasher and the digest.
abbrev auth : AuthEnv
auth = record {
  lower = λ t. t;
  verify = λ h p. (h == 7) && text_eq p secret;
  hash = λ salt p. 8;
  sha256 = λ t. t;
  session_ttl_hours = 1;
  recovery_ttl_minutes = 10;
  recovery_max_attempts = 3;
}

abbrev ada : User
ada = record {
  id = 5;
  email = address;
  password_hash = 7;
  role = super_admin_role;
  recovery_email = some address;
  failed_login_attempts = 0;
  is_locked_until = none;
  is_deactivated = false;
  password_changed_at = none;
  last_login_at = none;
}

abbrev directory : Directory
directory = record {
  users = ada ∷ [];
  sessions = [];
  recoveries = [];
  security = [];
  published = [];
  next_session = 1;
  next_recovery = 1;
}

abbrev with_password : Text → Credentials
with_password p = record { email = address; password = p; client = no_client }

abbrev guessing_at : ℕ → Attempt
guessing_at at = record { at = at; token = 90; input = with_password guess }

abbrev guesses : List Attempt
guesses =
    guessing_at 0
    ∷ guessing_at 1
    ∷ guessing_at 2
    ∷ guessing_at 3
    ∷ guessing_at 4
    ∷ guessing_at 5
    ∷ guessing_at 6
    ∷ []

locked_after_five : comparisons 5 (login_all auth directory guesses) ≡ 5
unfolding login_all login find_by_email normal_email bad_login increment_failed_login_attempts
    set_locked_until update_many
locked_after_five = refl

login_all-comparisons_example : comparisons 5 (login_all auth directory guesses) ≤ 0 + 5
login_all-comparisons_example = login_all-comparisons auth 5 0 7 directory guesses own tried
  where
    tried : Guessing auth 7 0 guesses
    tried = ground arith

    own : (v : User) → Memᴰ v (ada ∷ []) → is_user 5 v ≡ true → (v.password_hash == 7) ≡ true
    own v (Memᴰ.head e) h = ground arith
    own v (Memᴰ.tail m) h = elim m [ ]

abbrev outcome : LoginOutcome
outcome = record {
  actor = to_actor 5 super_admin_role;
  user_id = 5;
  role = super_admin_role;
  session_token = 90;
  expires_at = 3601000;
}

login-resolve_example :
    resolve_actor_from_token auth
      (login auth directory 1000 90 (with_password secret)).0
      2000
      (some 90)
    ≡ (if leb (1000 + auth.session_ttl_hours * 3600000) 2000
        then err unauthenticated
        else ok (to_actor ada.id ada.role))
login-resolve_example =
    login-resolve auth directory 1000 90 2000 (with_password secret) ada outcome found refl entered
  where
    found : find_by_email auth directory (normal_email auth address) ≡ some ada
    found = unfold find_by_email normal_email in refl

    entered : (login auth directory 1000 90 (with_password secret)).1 ≡ ok outcome
    entered =
        unfold login find_by_email normal_email good_login record_successful_login noted_success
          issue_session create_session update_many in
        refl

abbrev as_ada : ActorContext
as_ada = to_actor 5 super_admin_role

-- A session of another device, whose token is no longer good after the change.
abbrev two_sessions : Directory
two_sessions = record directory {
  sessions =
      record { id = 1; user_id = 5; token_hash = 90; expires_at = 5000; revoked_at = none }
      ∷ record { id = 2; user_id = 6; token_hash = 91; expires_at = 5000; revoked_at = none }
      ∷ [];
  users = ada ∷ record ada { id = 6; email = []; role = owner_role } ∷ [];
}

-- The token of the other user is answered after the change, and it does not name the first.
change_password-resolve_example : (to_actor 6 owner_role).actor_user_id ≢ some 5
change_password-resolve_example =
    change_password-resolve auth two_sessions 1000 0 as_ada 5 secret guess refl changed 2000
      (some 91) (to_actor 6 owner_role) named
  where
    changed : (change_password auth two_sessions 1000 0 as_ada secret guess).1 ≡ ok tt
    changed = unfold change_password password_for password_of in refl

    named :
        resolve_actor_from_token auth
          (change_password auth two_sessions 1000 0 as_ada secret guess).0
          2000
          (some 91)
        ≡ ok (to_actor 6 owner_role)
    named =
        unfold change_password password_for password_of resolve_actor_from_token of_session resolved
          find_valid_by_token_hash revoke_all_by_user_id update_password update_many in
        refl

abbrev recovery_calls : List RecoveryCall
recovery_calls =
    RecoveryCall.asks 0 123 address no_client
    ∷ RecoveryCall.confirms 1 0
        (record { email = address; code = 124; new_password = guess; client = no_client })
    ∷ RecoveryCall.confirms 2 0
        (record { email = address; code = 123; new_password = guess; client = no_client })
    ∷ RecoveryCall.confirms 3 0
        (record { email = address; code = 123; new_password = guess; client = no_client })
    ∷ []

one_reset : resets 5 (recovery_steps auth directory recovery_calls) ≡ 1
unfolding recovery_steps recovery_step request_recovery confirm_reset find_by_email normal_email
    code_for grant_code reset_for reset_with find_active_code wrong_code right_code
    increment_attempts update_many consume revoke_all_by_user_id update_password
one_reset = refl

recovery_steps-IsCovered_example : IsCovered (recovery_steps auth directory recovery_calls)
recovery_steps-IsCovered_example =
    recovery_steps-IsCovered auth directory recovery_calls (record { cover = λ i. omega arith })
