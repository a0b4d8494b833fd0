-- ===== src/Accounts/Lockout.antt =====
-- How many passwords can be tried on one account within fifteen minutes.
use werefa.Accounts.Apart.{
  EachRow, Phase, lockout_ms, comparisons, own_rows, Kept, locked_through, tried, good_login-Kept,
  Kept-Phase, shut, bad_login-Kept,
}
use werefa.Accounts.Login.{
  bad_login, Credentials, max_failed_login_attempts, login_as, is_locked, login, normal_email,
}
use werefa.Accounts.{
  Directory, User, is_user, AuthEnv, increment_failed_login_attempts, set_locked_until, any,
  attempts_of, find_user, find_by_email,
}
use werefa.Prelude.{
  sym, subst, ◌∙◌, ℕ, suc, ◌+◌, ◌≡◌, ◌≤◌, ◌<◌, refl, Bool, true, false, Option, none, some, List,
  [], ◌∷◌, Memᴰ, leb, ◌==◌, arith, Bool-cases, Option-cases, inl, inr, mem-update_many,
  update_many-mem, find_first-mem, update_many, any-mem, find_first-any, ap,
}

-- A counter that is read has passed the bound that every row passed.
counted :
    (k i : ℕ) (d : Directory)
    → EachRow i (λ v. leb k v.failed_login_attempts) d
    → any (is_user i) d.users ≡ true
    → k ≤ attempts_of (find_user d i)
unfolding attempts_of
counted k i d each here = elim (Option-cases (find_user d i)) [
  | inl e ↦ absurd (ground (arith, here, find_first-any (is_user i) d.users e))
  | inr (v, e) ↦
      let (at, own) = find_first-mem (is_user i) d.users e in rw e (ground (arith, each v at own))
]

module _ (end before k : ℕ) (d : Directory) (u : User) (at : Memᴰ u d.users)
    (each : EachRow u.id (λ v. leb k v.failed_login_attempts) d) where
  after_increment :
      EachRow u.id
        (λ v. leb (suc k) v.failed_login_attempts)
        (increment_failed_login_attempts d u.id).1
  unfolding increment_failed_login_attempts
  after_increment =
      own_rows u.id _ (λ v. leb k v.failed_login_attempts)
        (λ v. leb (suc k) v.failed_login_attempts) d.users each (λ v. refl) (λ v h. ground arith)

  incremented : suc k ≤ (increment_failed_login_attempts d u.id).0
  unfolding increment_failed_login_attempts
  incremented =
      counted (suc k) u.id (increment_failed_login_attempts d u.id).1 after_increment
        (any-mem (is_user u.id) _ (update_many-mem (is_user u.id) _ d.users at) (ground arith))

  -- A wrong password on the account while it is open.
  bad_login-Phase :
      (env : AuthEnv) (now : ℕ) (input : Credentials)
      → end ≤ now + lockout_ms
      → k < 5
      → comparisons u.id d ≡ before + k
      → Phase u.id end before (bad_login env d now input u).0
  unfolding bad_login increment_failed_login_attempts set_locked_until
  bad_login-Phase env now input soon small count =
      let r = increment_failed_login_attempts d u.id in
      let own : (u.id == u.id) ≡ true = ground arith in
      elim (Bool-cases (leb max_failed_login_attempts r.0)) [
        | inl many ↦ rw many (
            Phase.shut (rw own (omega (arith, count, small))) (
              own_rows u.id _ (λ v. true) (λ v. locked_through end v.is_locked_until) r.1.users
                (λ v m h. refl) (λ v. refl) (λ v h. ground arith)))
        | inr few ↦ rw few (
            Phase.tried (suc k) (ground (arith, incremented, few)) (rw own (omega (arith, count)))
              after_increment)
      ]

-- An update that keeps a test and the ids keeps it on every row of the account.
kept_rows :
    (i n : ℕ) (p : User → Bool) (f : User → User) (us : List User)
    → ((v : User) → Memᴰ v us → is_user i v ≡ true → p v ≡ true)
    → ((v : User) → is_user i (f v) ≡ is_user i v)
    → ((v : User) → p (f v) ≡ p v)
    → (v : User) → Memᴰ v (update_many (is_user n) f us)
    → is_user i v ≡ true
    → p v ≡ true
kept_rows i n p f us each ids same v m h =
    let (x, at, e) = mem-update_many (is_user n) f us m in
    elim (Bool-cases (is_user n x)) [
      | inl hit ↦
          let eq : v ≡ f x = e ∙ rw hit refl in
          let own : is_user i x ≡ true = sym (ids x) ∙ sym (ap (is_user i) eq) ∙ h in
          ap p eq ∙ same x ∙ each x at own
      | inr miss ↦
          let eq : v ≡ x = e ∙ rw miss refl in ap p eq ∙ each x at (sym (ap (is_user i) eq) ∙ h)
    ]

bad_login-hash :
    (i h : ℕ) (env : AuthEnv) (d : Directory) (now : ℕ) (input : Credentials) (u : User)
    → EachRow i (λ v. v.password_hash == h) d
    → EachRow i (λ v. v.password_hash == h) (bad_login env d now input u).0
unfolding bad_login increment_failed_login_attempts set_locked_until
bad_login-hash i h env d now input u each =
    let r = increment_failed_login_attempts d u.id in
    let first : EachRow i (λ v. v.password_hash == h) r.1 =
      kept_rows i u.id (λ v. v.password_hash == h) _ d.users each (λ v. refl) (λ v. refl) in
    elim (Bool-cases (leb max_failed_login_attempts r.0)) [
      | inl many ↦
          rw many
            (kept_rows i u.id (λ v. v.password_hash == h) _ r.1.users first (λ v. refl) (λ v. refl))
      | inr few ↦ rw few first
    ]

-- The account with its password, along the window.
record Watched (i end before h : ℕ) (d : Directory) : Type 0 where
  phase : Phase i end before d
  hash : EachRow i (λ v. v.password_hash == h) d

module _ (env : AuthEnv) (i end before h now token : ℕ) (input : Credentials)
    (wrong : env.verify h input.password ≡ false) (inside : now < end)
    (soon : end ≤ now + lockout_ms) where
  Kept-Watched :
      {d next : Directory} → Kept i d next → Watched i end before h d → Watched i end before h next
  Kept-Watched k w = record {
    phase = Kept-Phase k w.phase;
    hash = λ v m own. w.hash v (k.rows v m own) own;
  }

  locked_now : (o : Option ℕ) → locked_through end o ≡ true → is_locked o now ≡ true
  locked_now none h = cc
  locked_now (some until) h = ground arith

  own_wrong :
      (d : Directory) (u : User)
      → Watched i end before h d
      → Memᴰ u d.users
      → is_user i u ≡ true
      → is_locked u.is_locked_until now ≡ false
      → Phase i end before (bad_login env d now input u).0
  own_wrong d u w at own free =
      let same : u.id ≡ i = ground arith in
      elim w.phase [
        | tried k small count each ↦
            subst (λ n. Phase n end before (bad_login env d now input u).0) same
              (bad_login-Phase end before k d u at
                (subst (λ n. EachRow n (λ v. leb k v.failed_login_attempts) d) (sym same) each) env
                now input soon small (subst (λ n. comparisons n d ≡ before + k) (sym same) count))
        | shut few each ↦
            absurd (ground (arith, free, locked_now u.is_locked_until (each u at own)))
      ]

  login_as-Watched :
      (d : Directory) (o : Option User)
      → ((u : User) → o ≡ some u → Memᴰ u d.users)
      → Watched i end before h d
      → Watched i end before h (login_as env d now token input o).0
  unfolding login_as
  login_as-Watched d none here w = Kept-Watched (record { count = refl; rows = λ v m own. m }) w
  login_as-Watched d (some u) here w = elim (Bool-cases u.is_deactivated) [
    | inl dead ↦ simp dead (Kept-Watched (record { count = ground arith; rows = λ v m own. m }) w)
    | inr alive ↦ simp alive (elim (Bool-cases (is_locked u.is_locked_until now)) [
      | inl barred ↦
          simp barred (Kept-Watched (record { count = ground arith; rows = λ v m own. m }) w)
      | inr free ↦ simp free (elim (Bool-cases (is_user i u)) [
        | inl own ↦
            let miss : env.verify u.password_hash input.password ≡ false =
              ground (arith, w.hash u (here u refl) own, wrong) in
            simp miss (record {
              phase = own_wrong d u w (here u refl) own free;
              hash = bad_login-hash i h env d now input u w.hash;
            })
        | inr other ↦ elim (Bool-cases (env.verify u.password_hash input.password)) [
          | inl right ↦
              simp right (Kept-Watched (good_login-Kept i env d now token input u other) w)
          | inr miss ↦ simp miss (Kept-Watched (bad_login-Kept i env d now input u other) w)
        ]
      ])
    ])
  ]

  login-Watched :
      {d : Directory}
      → Watched i end before h d
      → Watched i end before h (login env d now token input).0
  unfolding login find_by_email
  login-Watched {d} w =
      login_as-Watched d (find_by_email env d (normal_email env input.email))
        (λ u e. (find_first-mem _ d.users e).0) w

pub record Attempt : Type 0 where
  pub at : ℕ
  pub token : ℕ
  pub input : Credentials

-- Calls of `login`, one after another.
unfoldable pub login_all : AuthEnv → Directory → List Attempt → Directory
login_all env d [] = d
login_all env d (a ∷ rest) = login_all env (login env d a.at a.token a.input).0 rest

-- Every call lies in the fifteen minutes from the start and gives a wrong password for the hash.
abbrev pub Guessing : AuthEnv → ℕ → ℕ → List Attempt → Type 0
Guessing env h start [] = Unit
Guessing env h start (a ∷ rest) =
    (start ≤ a.at)
    × (a.at < start + lockout_ms)
    × (env.verify h a.input.password ≡ false)
    × Guessing env h start rest

login_all-Watched :
    (env : AuthEnv) (i start before h : ℕ) (d : Directory) (calls : List Attempt)
    → Guessing env h start calls
    → Watched i (start + lockout_ms) before h d
    → Watched i (start + lockout_ms) before h (login_all env d calls)
unfolding login_all
login_all-Watched env i start before h d [] g w = w
login_all-Watched env i start before h d (a ∷ rest) (late, early, wrong, g) w =
    login_all-Watched env i start before h (login env d a.at a.token a.input).0 rest g (
      login-Watched env i (start + lockout_ms) before h a.at a.token a.input wrong early
        (omega (arith, late)) w)

at_most_five :
    (i end before : ℕ) (d : Directory) → Phase i end before d → comparisons i d ≤ before + 5
at_most_five i end before d (tried k small count each) = omega (arith, count, small)
at_most_five i end before d (shut few each) = few

-- When logins are tried one after another within fifteen minutes, each beginning after the one before it
-- has ended, then however many they are and with whatever addresses and wrong passwords, at most five of
-- the passwords are compared with an account's hash.
pub login_all-comparisons :
    (env : AuthEnv) (i start h : ℕ) (d : Directory) (calls : List Attempt)
    → ((v : User) → Memᴰ v d.users → is_user i v ≡ true → (v.password_hash == h) ≡ true)
    → Guessing env h start calls
    → comparisons i (login_all env d calls) ≤ comparisons i d + 5
login_all-comparisons env i start h d calls hash g =
    let first : Phase i (start + lockout_ms) (comparisons i d) d =
      tried 0 (omega arith) (omega arith) (λ v m own. ground arith) in
    at_most_five i (start + lockout_ms) (comparisons i d) (login_all env d calls)
      (login_all-Watched env i start (comparisons i d) h d calls g
        (record { phase = first; hash = hash })).phase
