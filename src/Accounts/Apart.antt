-- ===== src/Accounts/Apart.antt =====
-- The rows of one account, and what leaves them and its compared passwords alone.
use werefa.Accounts.Login.{
  lockout_duration_minutes, issue_session, good_login, bad_login, Credentials,
  max_failed_login_attempts, noted_success, is_new_device,
}
use werefa.Accounts.{
  Directory, User, Outcome, SecurityEvent, is_user, AuthEnv, record_successful_login,
  increment_failed_login_attempts, Role, set_locked_until, any, Session, create_session, ClientInfo,
}
use werefa.Accounts.{bad_password, lockout_triggered}
use werefa.Prelude.{
  sym, subst, ◌∙◌, ℕ, ◌+◌, ◌*◌, ◌≡◌, ◌≤◌, ◌<◌, refl, Bool, true, false, ◌&&◌, Option, none, some,
  List, Memᴰ, leb, ◌==◌, count_where, arith, Bool-cases, inl, inr, mem-update_many, update_many, ap,
}

-- The security events that record a compared, wrong password.
abbrev pub is_comparison : Outcome → Bool
is_comparison bad_password = true
is_comparison lockout_triggered = true
is_comparison _ = false

abbrev pub by_account : ℕ → Option ℕ → Bool
by_account i none = false
by_account i (some n) = n == i

abbrev pub comparisons : ℕ → Directory → ℕ
comparisons i d =
    count_where (λ (e : SecurityEvent). by_account i e.user_id && is_comparison e.result) d.security

abbrev pub lockout_ms : ℕ
lockout_ms = lockout_duration_minutes * 60000

abbrev pub locked_through : ℕ → Option ℕ → Bool
locked_through end none = false
locked_through end (some until) = leb end until

-- Every row of the account passes the test.
abbrev pub EachRow : ℕ → (User → Bool) → Directory → Type 0
EachRow i p d = (v : User) → Memᴰ v d.users → is_user i v ≡ true → p v ≡ true

-- The account after k compared passwords, or locked through the window.
pub data Phase (i end before : ℕ) (d : Directory) : Type 0 where
  tried :
      (k : ℕ)
      → k < 5
      → comparisons i d ≡ before + k
      → EachRow i (λ v. leb k v.failed_login_attempts) d
      → Phase i end before d
  shut :
      comparisons i d ≤ before + 5
      → EachRow i (λ v. locked_through end v.is_locked_until) d
      → Phase i end before d

-- What leaves the account alone.
pub record Kept (i : ℕ) (d next : Directory) : Type 0 where
  pub count : comparisons i next ≡ comparisons i d
  pub rows : (v : User) → Memᴰ v next.users → is_user i v ≡ true → Memᴰ v d.users

pub Kept-Phase :
    {i end before : ℕ} {d next : Directory}
    → Kept i d next
    → Phase i end before d
    → Phase i end before next
Kept-Phase k (tried n small e each) =
    tried n small (omega (arith, k.count, e)) (λ v m h. each v (k.rows v m h) h)
Kept-Phase k (shut few each) = shut (omega (arith, k.count, few)) (λ v m h. each v (k.rows v m h) h)

-- An update of another account's rows.
pub others_kept :
    (i n : ℕ) (f : User → User) (us : List User)
    → (n == i) ≡ false
    → ((v : User) → is_user i (f v) ≡ is_user i v)
    → (v : User) → Memᴰ v (update_many (is_user n) f us)
    → is_user i v ≡ true
    → Memᴰ v us
others_kept i n f us other keep v m h =
    let (x, at, e) = mem-update_many (is_user n) f us m in
    elim (Bool-cases (is_user n x)) [
      | inl hit ↦ absurd (ground (arith, e, hit, h, other, keep x))
      | inr miss ↦ subst (λ (z : User). Memᴰ z us) (sym (e ∙ rw miss refl)) at
    ]

-- An update of the account's own rows.
pub own_rows :
    (i : ℕ) (f : User → User) (p q : User → Bool) (us : List User)
    → ((v : User) → Memᴰ v us → is_user i v ≡ true → p v ≡ true)
    → ((v : User) → is_user i (f v) ≡ is_user i v)
    → ((v : User) → p v ≡ true → q (f v) ≡ true)
    → (v : User) → Memᴰ v (update_many (is_user i) f us)
    → is_user i v ≡ true
    → q v ≡ true
own_rows i f p q us each keep step v m h =
    let (x, at, e) = mem-update_many (is_user i) f us m in
    elim (Bool-cases (is_user i x)) [
      | inl hit ↦
          let same : v ≡ f x = e ∙ rw hit refl in
          subst (λ (z : User). q z ≡ true) (sym same) (step x (each x at hit))
      | inr miss ↦ let same : v ≡ x = e ∙ rw miss refl in cc (ap (is_user i) same)
    ]

pub Kept-refl : (i : ℕ) (d : Directory) → Kept i d d
Kept-refl i d = record { count = refl; rows = λ v m h. m }

pub Kept-trans : {i : ℕ} {d mid next : Directory} → Kept i d mid → Kept i mid next → Kept i d next
Kept-trans a b = record { count = b.count ∙ a.count; rows = λ v m h. a.rows v (b.rows v m h) h }

issue_session-Kept :
    (i : ℕ) (env : AuthEnv) (d : Directory) (now token user_id : ℕ) (role : Role)
    → Kept i d (issue_session env d now token user_id role).0
unfolding issue_session create_session
issue_session-Kept i env d now token user_id role =
    elim (Bool-cases (any (λ (s : Session). s.token_hash == env.sha256 token) d.sessions)) [
      | inl taken ↦ rw taken (Kept-refl i d)
      | inr fresh ↦ rw fresh (record { count = refl; rows = λ v m h. m })
    ]

noted_success-Kept :
    (i : ℕ) (d : Directory) (user_id : ℕ) (client : ClientInfo)
    → Kept i d (noted_success d user_id client)
unfolding noted_success
noted_success-Kept i d user_id client =
    elim (Bool-cases (is_new_device d user_id client client.device)) [
      | inl new ↦ rw new (record { count = ground arith; rows = λ v m h. m })
      | inr old ↦ rw old (record { count = ground arith; rows = λ v m h. m })
    ]

pub good_login-Kept :
    (i : ℕ) (env : AuthEnv) (d : Directory) (now token : ℕ) (input : Credentials) (u : User)
    → (u.id == i) ≡ false
    → Kept i d (good_login env d now token input u).0
unfolding good_login record_successful_login
good_login-Kept i env d now token input u other =
    let d1 = record_successful_login d u.id now in
    let d2 = noted_success d1 u.id input.client in
    let first : Kept i d d1 = record {
      count = refl;
      rows = others_kept i u.id _ d.users other (λ v. refl);
    } in
    Kept-trans (Kept-trans first (noted_success-Kept i d1 u.id input.client))
      (issue_session-Kept i env d2 now token u.id u.role)

pub bad_login-Kept :
    (i : ℕ) (env : AuthEnv) (d : Directory) (now : ℕ) (input : Credentials) (u : User)
    → (u.id == i) ≡ false
    → Kept i d (bad_login env d now input u).0
unfolding bad_login increment_failed_login_attempts set_locked_until
bad_login-Kept i env d now input u other =
    let r = increment_failed_login_attempts d u.id in
    let first : Kept i d r.1 = record {
      count = refl;
      rows = others_kept i u.id _ d.users other (λ v. refl);
    } in
    elim (Bool-cases (leb max_failed_login_attempts r.0)) [
      | inl many ↦
          let end = set_locked_until r.1 u.id (now + lockout_ms) in
          let second : Kept i r.1 end = record {
            count = refl;
            rows = others_kept i u.id _ r.1.users other (λ v. refl);
          } in
          let third : Kept i end (bad_login env d now input u).0 =
            rw many (record { count = rw other refl; rows = λ v m h. m }) in
          Kept-trans (Kept-trans first second) third
      | inr few ↦ Kept-trans first (rw few (record { count = rw other refl; rows = λ v m h. m }))
    ]
