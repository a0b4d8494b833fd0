-- ===== src/Accounts/Revoking.antt =====
-- Which tokens name a user: those of a login until they expire, none after a logout, a change of the
-- password or an emergency reset.
use werefa.Accounts.Access.{
  resolved, of_session, resolve_actor_from_token, password_of, change_password, password_for,
  may_change,
}
use werefa.Accounts.Emergency.{
  right_code, reset_with, confirm_reset, Reset, reset_for, consume, find_active_code,
  recovery_address,
}
use werefa.Tenant.{ActorContext}
use werefa.Accounts.Login.{normal_email}
use werefa.Accounts.{
  Directory, revoke_all_by_user_id, Session, is_live, revoke, AuthEnv, still_valid,
  find_valid_by_token_hash, User, Text, find_user, is_user, update_password, Recovery,
  find_by_email, is_some,
}
use werefa.Errors.{ok}
use werefa.Prelude.{
  ℕ, ◌≡◌, ◌≢◌, refl, ap, sym, ◌∙◌, subst, true, false, Option, none, some, Memᴰ, ◌==◌, ltb, arith,
  Bool-cases, inl, inr, mem-update_many, find_first-mem, ◌&&◌, length, ◌||◌,
}

-- No live session of the user is left.
AllRevoked : ℕ → Directory → Type 0
AllRevoked id d = (s : Session) → Memᴰ s d.sessions → s.user_id ≡ id → is_live s ≡ false

revoke_all-AllRevoked :
    (d : Directory) (now id : ℕ) → AllRevoked id (revoke_all_by_user_id d now id)
unfolding AllRevoked revoke_all_by_user_id
revoke_all-AllRevoked d now id s m own =
    let (x, at, e) = mem-update_many _ (revoke now) d.sessions m in
    elim (Bool-cases (x.user_id == id && is_live x)) [
      | inl hit ↦ let same : s ≡ revoke now x = e ∙ rw hit refl in ap is_live same
      | inr miss ↦
          let same : s ≡ x = e ∙ rw miss refl in
          let mine : x.user_id ≡ id = sym (ap (λ (y : Session). y.user_id) same) ∙ own in
          ap is_live same ∙ ground (arith, miss, mine)
    ]

AllRevoked-resolved :
    (env : AuthEnv) (d : Directory) (id : ℕ) (o : Option User) {a : ActorContext}
    → ((u : User) → o ≡ some u → u.id ≢ id)
    → resolved env d o ≡ ok a
    → a.actor_user_id ≢ some id
unfolding resolved
AllRevoked-resolved env d id none apart e = cc
AllRevoked-resolved env d id (some u) apart e = ground (arith, e, apart u refl)

AllRevoked-of_session :
    (env : AuthEnv) (d : Directory) (id : ℕ) (o : Option Session) {a : ActorContext}
    → ((s : Session) → o ≡ some s → s.user_id ≢ id)
    → of_session env d o ≡ ok a
    → a.actor_user_id ≢ some id
unfolding of_session
AllRevoked-of_session env d id none apart e = cc
AllRevoked-of_session env d id (some s) apart e =
    AllRevoked-resolved env d id (find_user d s.user_id)
      (λ u at. ground (arith, (find_first-mem (is_user s.user_id) d.users at).1, apart s refl)) e

pub still_valid_live :
    (now : ℕ) (o : Option Session) {s : Session}
    → still_valid now o ≡ some s
    → (o ≡ some s) × (is_live s ≡ true)
still_valid_live now none e = cc
still_valid_live now (some s) e = ground arith

AllRevoked-resolve :
    (env : AuthEnv) (d : Directory) (id now : ℕ) (token : Option ℕ) {a : ActorContext}
    → AllRevoked id d
    → resolve_actor_from_token env d now token ≡ ok a
    → a.actor_user_id ≢ some id
unfolding resolve_actor_from_token AllRevoked find_valid_by_token_hash
AllRevoked-resolve env d id now none gone e = cc
AllRevoked-resolve env d id now (some token) gone e =
    AllRevoked-of_session env d id (find_valid_by_token_hash d now (env.sha256 token))
      (λ s at own.
        let (found, live) = still_valid_live now _ at in
        ground (arith, live, gone s (find_first-mem _ d.sessions found).0 own))
      e

password_of-AllRevoked :
    (env : AuthEnv) (d : Directory) (now salt : ℕ) (current next : Text) (id : ℕ) (o : Option User)
    → (password_of env d now salt current next id o).1 ≡ ok tt
    → AllRevoked id (password_of env d now salt current next id o).0
unfolding password_of AllRevoked
password_of-AllRevoked env d now salt current next id none e = cc
password_of-AllRevoked env d now salt current next id (some u) e =
    elim (Bool-cases (env.verify u.password_hash current)) [
      | inr wrong ↦ ground (arith, e, wrong)
      | inl right ↦ elim (Bool-cases (ltb (length next) 1 || ltb 128 (length next))) [
        | inl bad ↦ ground (arith, e, right, bad)
        | inr fits ↦
            rw (right, fits)
              (revoke_all-AllRevoked (update_password d id (env.hash salt next) now) now id)
      ]
    ]

password_for-AllRevoked :
    (env : AuthEnv) (d : Directory) (now salt : ℕ) (current next : Text) (id : ℕ) (o : Option ℕ)
    → o ≡ some id
    → (password_for env d now salt current next o).1 ≡ ok tt
    → AllRevoked id (password_for env d now salt current next o).0
unfolding password_for
password_for-AllRevoked env d now salt current next id none who e = cc
password_for-AllRevoked env d now salt current next id (some n) who e =
    let same : n ≡ id = cc in
    subst (λ k. AllRevoked k (password_of env d now salt current next n (find_user d n)).0) same
      (password_of-AllRevoked env d now salt current next n (find_user d n) e)

-- After a successful change of the password no token, old or stolen, names the user any more.
pub change_password-resolve :
    (env : AuthEnv) (d : Directory) (now salt : ℕ) (ctx : ActorContext) (id : ℕ)
    (current next : Text)
    → ctx.actor_user_id ≡ some id
    → (change_password env d now salt ctx current next).1 ≡ ok tt
    → (later : ℕ) (token : Option ℕ) (a : ActorContext)
    → resolve_actor_from_token env (change_password env d now salt ctx current next).0 later token
      ≡ ok a
    → a.actor_user_id ≢ some id
unfolding change_password
change_password-resolve env d now salt ctx id current next who changed later token a =
    elim (Bool-cases (may_change ctx.actor_type)) [
      | inr barred ↦ ground (arith, changed, barred)
      | inl can ↦ rw can (
          AllRevoked-resolve env (password_for env d now salt current next ctx.actor_user_id).0 id
            later token
            (password_for-AllRevoked env d now salt current next id ctx.actor_user_id who
              (ground (arith, changed, can))))
    ]

right_code-AllRevoked :
    (env : AuthEnv) (d : Directory) (now salt : ℕ) (input : Reset) (u : User) (r : Recovery)
    → (right_code env d now salt input u r).1 ≡ ok tt
    → AllRevoked u.id (right_code env d now salt input u r).0
unfolding right_code AllRevoked
right_code-AllRevoked env d now salt input u r e = elim (Bool-cases ((consume d r.id now).0)) [
  | inr lost ↦ ground (arith, e, lost)
  | inl won ↦ rw won (
      revoke_all-AllRevoked
        (update_password (consume d r.id now).1 u.id (env.hash salt input.new_password) now) now
        u.id)
]

reset_with-AllRevoked :
    (env : AuthEnv) (d : Directory) (now salt : ℕ) (input : Reset) (u : User) (o : Option Recovery)
    → (reset_with env d now salt input u o).1 ≡ ok tt
    → AllRevoked u.id (reset_with env d now salt input u o).0
unfolding reset_with
reset_with-AllRevoked env d now salt input u none e = cc
reset_with-AllRevoked env d now salt input u (some r) e =
    elim (Bool-cases (env.sha256 input.code == r.code_hash)) [
      | inr other ↦ ground (arith, e, other)
      | inl same ↦
          rw same (right_code-AllRevoked env d now salt input u r (ground (arith, e, same)))
    ]

reset_for-AllRevoked :
    (env : AuthEnv) (d : Directory) (now salt : ℕ) (input : Reset) (u : User) (o : Option User)
    → o ≡ some u
    → (reset_for env d now salt input o).1 ≡ ok tt
    → AllRevoked u.id (reset_for env d now salt input o).0
unfolding reset_for
reset_for-AllRevoked env d now salt input u none who e = cc
reset_for-AllRevoked env d now salt input u (some v) who e =
    let same : v ≡ u = cc in
    let found = find_active_code d v.id now in
    elim (Bool-cases (is_some (recovery_address v))) [
      | inr barred ↦ ground (arith, e, barred)
      | inl can ↦ rw can (
          subst (λ (w : User). AllRevoked w.id (reset_with env d now salt input v found).0) same
            (reset_with-AllRevoked env d now salt input v found (ground (arith, e, can))))
    ]

-- After an emergency reset no token names the user of that address any more.
pub confirm_reset-resolve :
    (env : AuthEnv) (d : Directory) (now salt : ℕ) (input : Reset) (u : User)
    → find_by_email env d (normal_email env input.email) ≡ some u
    → (confirm_reset env d now salt input).1 ≡ ok tt
    → (later : ℕ) (token : Option ℕ) (a : ActorContext)
    → resolve_actor_from_token env (confirm_reset env d now salt input).0 later token ≡ ok a
    → a.actor_user_id ≢ some u.id
unfolding confirm_reset
confirm_reset-resolve env d now salt input u who done later token a =
    AllRevoked-resolve env (confirm_reset env d now salt input).0 u.id later token (
      reset_for-AllRevoked env d now salt input u
        (find_by_email env d (normal_email env input.email)) who done)
