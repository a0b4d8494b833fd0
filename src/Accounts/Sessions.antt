-- ===== src/Accounts/Sessions.antt =====
-- What the token of a login is good for, and that a logout ends it.
use werefa.Accounts.Access.{resolve_actor_from_token, of_session, resolved, logged_out, logout}
use werefa.Accounts.Revoking.{still_valid_live}
use werefa.Accounts.Login.{
  issue_session, LoginOutcome, to_actor, good_login, login_as, login, noted_success, bad_login,
  Credentials, is_locked, is_new_device, normal_email,
}
use werefa.Accounts.{
  AuthEnv, create_session, find_valid_by_token_hash, Directory, User, find_user, Session,
  record_successful_login, find_by_email, List, find_first, is_user, still_valid, revoke_by_id,
  is_live, revoke, update_many,
}
use werefa.Errors.{ok, err, unauthenticated}
use werefa.Prelude.{
  ℕ, ◌+◌, ◌*◌, ◌≡◌, ◌≤◌, refl, ap, ◌∙◌, true, false, Option, none, some, ◌==◌, leb, arith,
  if◌then◌else◌, Bool-cases, inl, inr, find_first-update_found, any, ◌&&◌, find_first-update_many,
}

abbrev expiry : AuthEnv → ℕ → ℕ
expiry env now = now + env.session_ttl_hours * 3600000

issue_session-resolve :
    (env : AuthEnv) (d : Directory) (now token later : ℕ) (v : User) (o : LoginOutcome)
    → find_user d v.id ≡ some v
    → v.is_deactivated ≡ false
    → (issue_session env d now token v.id v.role).1 ≡ ok o
    → resolve_actor_from_token env (issue_session env d now token v.id v.role).0 later (some token)
      ≡ (if leb (expiry env now) later then err unauthenticated else ok (to_actor v.id v.role))
unfolding issue_session create_session resolve_actor_from_token find_valid_by_token_hash of_session
    resolved
issue_session-resolve env d now token later v o known alive e =
    elim (Bool-cases (any (λ (s : Session). s.token_hash == env.sha256 token) d.sessions)) [
      | inl taken ↦ ground (arith, e, taken)
      | inr fresh ↦
          let self : (env.sha256 token == env.sha256 token) ≡ true = ground arith in
          elim (Bool-cases (leb (expiry env now) later)) [
            | inl over ↦ rw (fresh, self, over) refl
            | inr runs ↦ rw (fresh, self, runs, known, alive) refl
          ]
    ]

good_login-resolve :
    (env : AuthEnv) (d : Directory) (now token later : ℕ) (input : Credentials) (u : User)
    (o : LoginOutcome)
    → find_user d u.id ≡ some u
    → u.is_deactivated ≡ false
    → (good_login env d now token input u).1 ≡ ok o
    → resolve_actor_from_token env (good_login env d now token input u).0 later (some token)
      ≡ (if leb (expiry env now) later then err unauthenticated else ok (to_actor u.id u.role))
unfolding good_login noted_success record_successful_login
good_login-resolve env d now token later input u o known alive e =
    let after : User = record u {
      failed_login_attempts = 0;
      last_login_at = some now;
      is_locked_until = none;
    } in
    let d1 = record_successful_login d u.id now in
    let d2 = noted_success d1 u.id input.client in
    let same : d2.users ≡ d1.users =
      elim (Bool-cases (is_new_device d1 u.id input.client input.client.device)) [
        | inl new ↦ rw new refl
        | inr old ↦ rw old refl
      ] in
    issue_session-resolve env d2 now token later after o
      (ap (λ (us : List User). find_first (is_user u.id) us) same
        ∙ find_first-update_found (is_user u.id) _ d.users (λ y. refl) known)
      alive e

login_as-resolve :
    (env : AuthEnv) (d : Directory) (now token later : ℕ) (input : Credentials) (u : User)
    (o : LoginOutcome)
    → find_user d u.id ≡ some u
    → (login_as env d now token input (some u)).1 ≡ ok o
    → resolve_actor_from_token env (login_as env d now token input (some u)).0 later (some token)
      ≡ (if leb (expiry env now) later then err unauthenticated else ok (to_actor u.id u.role))
unfolding login_as bad_login
login_as-resolve env d now token later input u o known e = elim (Bool-cases u.is_deactivated) [
  | inl dead ↦ ground (arith, e, dead)
  | inr alive ↦ elim (Bool-cases (is_locked u.is_locked_until now)) [
    | inl barred ↦ ground (arith, e, alive, barred)
    | inr free ↦ elim (Bool-cases (env.verify u.password_hash input.password)) [
      | inl right ↦
          simp (alive, free, right)
            (good_login-resolve env d now token later input u o known alive
              (ground (arith, e, alive, free, right)))
      | inr wrong ↦ ground (arith, e, alive, free, wrong)
    ]
  ]
]

-- The token of a successful login names the user, with the role, before the session's end, and nobody
-- from then on, if the account is found by its id too.
pub login-resolve :
    (env : AuthEnv) (d : Directory) (now token later : ℕ) (input : Credentials) (u : User)
    (o : LoginOutcome)
    → find_by_email env d (normal_email env input.email) ≡ some u
    → find_user d u.id ≡ some u
    → (login env d now token input).1 ≡ ok o
    → resolve_actor_from_token env (login env d now token input).0 later (some token) ≡ (
        if leb (now + env.session_ttl_hours * 3600000) later
        then err unauthenticated
        else ok (to_actor u.id u.role))
unfolding login
login-resolve env d now token later input u o who known e =
    simp who (login_as-resolve env d now token later input u o known (rw who at e))

still_valid_late :
    (now later : ℕ) (o : Option Session)
    → now ≤ later
    → still_valid now o ≡ none
    → still_valid later o ≡ none
still_valid_late now later none after e = refl
still_valid_late now later (some s) after e = ground arith

revoked_found :
    (d : Directory) (now later hash : ℕ) (s : Session)
    → find_first (λ (s : Session). s.token_hash == hash) d.sessions ≡ some s
    → is_live s ≡ true
    → find_valid_by_token_hash (revoke_by_id d now s.id) later hash ≡ none
unfolding find_valid_by_token_hash revoke_by_id
revoked_found d now later hash s found live =
    let p = λ (x : Session). x.id == s.id && is_live x in
    let hit : p s ≡ true = ground (arith, live) in
    let gone : find_first (λ (s : Session). s.token_hash == hash)
          (update_many p (revoke now) d.sessions)
        ≡ some (if p s then revoke now s else s) =
      find_first-update_many (λ (s : Session). s.token_hash == hash) p (revoke now) d.sessions
        (λ y. ground arith) found in
    rw (gone, hit) refl

logged_out-resolve :
    (env : AuthEnv) (d : Directory) (now later hash : ℕ) (o : Option Session)
    → now ≤ later
    → find_valid_by_token_hash d now hash ≡ o
    → find_valid_by_token_hash (logged_out d now o) later hash ≡ none
unfolding logged_out find_valid_by_token_hash
logged_out-resolve env d now later hash none after e = still_valid_late now later _ after e
logged_out-resolve env d now later hash (some s) after e =
    let (found, live) = still_valid_live now _ e in revoked_found d now later hash s found live

-- From a logout on, the token of the session names nobody.
pub logout-resolve :
    (env : AuthEnv) (d : Directory) (now later : ℕ) (token : Option ℕ)
    → now ≤ later
    → resolve_actor_from_token env (logout env d now token) later token ≡ err unauthenticated
unfolding resolve_actor_from_token logout of_session
logout-resolve env d now later none after = refl
logout-resolve env d now later (some token) after =
    rw
      (logged_out-resolve env d now later (env.sha256 token)
        (find_valid_by_token_hash d now (env.sha256 token)) after refl)
      refl
