-- ===== src/Accounts/Spending.antt =====
-- Every emergency reset spends one code that was asked for.
use werefa.Accounts.Login.{normal_email}
use werefa.Accounts.Emergency.{
  expire_all_for_user, consume, increment_attempts, is_unused, claimable, wrong_code, right_code,
  Reset, grant_code, reset_with, reset_for, code_for, request_recovery, create_recovery,
  find_active_code, recovery_address, confirm_reset, is_active_code,
}
use werefa.Accounts.{
  Recovery, Directory, SecurityType, SecurityEvent, recovery_code_requested, recovery_code_verified,
  AuthEnv, update_password, ClientInfo, revoke_all_by_user_id, User, leb, Text, is_some,
  find_by_email,
}
use werefa.Prelude.{
  ℕ, ◌+◌, ◌≡◌, ◌≤◌, refl, Bool, true, false, ◌&&◌, Option, none, some, List, [], ◌∷◌, ◌==◌, arith,
  Bool-cases, inl, inr, count_where, count_where-update_many-drop, count_where-mem, find_first-mem,
  count_where-update_many, count_where-cleared, Memᴰ, ◌<◌, subst,
}

-- An unused code of the user.
abbrev open_code : ℕ → Recovery → Bool
open_code i r = r.user_id == i && is_unused r

abbrev is_request : SecurityType → Bool
is_request recovery_code_requested = true
is_request _ = false

abbrev is_verified : SecurityType → Bool
is_verified recovery_code_verified = true
is_verified _ = false

abbrev is_for : ℕ → Option ℕ → Bool
is_for i none = false
is_for i (some n) = n == i

-- How many codes the history says were asked for, and how many resets were made.
abbrev pub requests : ℕ → Directory → ℕ
requests i d =
    count_where (λ (e : SecurityEvent). is_for i e.user_id && is_request e.type) d.security

abbrev pub resets : ℕ → Directory → ℕ
resets i d =
    count_where (λ (e : SecurityEvent). is_for i e.user_id && is_verified e.type) d.security

abbrev unspent : ℕ → Directory → ℕ
unspent i d = count_where (open_code i) d.recoveries

-- The resets and the open codes are covered by the codes that were asked for.
pub record IsCovered (d : Directory) : Type 0 where
  pub cover : (i : ℕ) → resets i d + unspent i d ≤ requests i d

expire_all_for_user-unspent :
    (d : Directory) (n now : ℕ) → unspent n (expire_all_for_user d n now) ≡ 0
unfolding expire_all_for_user
expire_all_for_user-unspent d n now =
    count_where-cleared (open_code n) (open_code n) _ d.recoveries (λ y. ground arith)

expire_all_for_user-le :
    (d : Directory) (n now i : ℕ) → unspent i (expire_all_for_user d n now) ≤ unspent i d
unfolding expire_all_for_user
expire_all_for_user-le d n now i = omega (
  arith,
  count_where-update_many-drop (open_code i) (open_code n)
      (λ (r : Recovery). record r { used_at = some now }) d.recoveries (λ y h. ground arith),
)

consume-unspent :
    (d : Directory) (id now i : ℕ)
    → unspent i (consume d id now).1
        + count_where (λ y. claimable id y && open_code i y) d.recoveries
      ≡ unspent i d
unfolding consume
consume-unspent d id now i =
    count_where-update_many-drop (open_code i) (claimable id)
      (λ (r : Recovery). record r { used_at = some now }) d.recoveries (λ y h. ground arith)

increment_attempts-unspent :
    (d : Directory) (id i : ℕ) → unspent i (increment_attempts d id).1 ≡ unspent i d
unfolding increment_attempts
increment_attempts-unspent d id i =
    count_where-update_many (open_code i) _ _ d.recoveries (λ y. ground arith)

grant_code-IsCovered :
    (env : AuthEnv) (d : Directory) (now code : ℕ) (client : ClientInfo) (u : User)
    (o : Option Text)
    → IsCovered d
    → IsCovered (grant_code env d now code client u o)
unfolding grant_code create_recovery expire_all_for_user
grant_code-IsCovered env d now code client u none c = c
grant_code-IsCovered env d now code client u (some address) c = record {
  cover = λ i. elim (Bool-cases (u.id == i)) [
    | inl own ↦ rw own (
        let same : u.id ≡ i = ground arith in
        let none_left : unspent i (expire_all_for_user d u.id now) ≡ 0 =
          subst (λ n. unspent n (expire_all_for_user d u.id now) ≡ 0) same
            (expire_all_for_user-unspent d u.id now) in
        omega (arith, c.cover i, none_left))
    | inr other ↦ rw other omega (arith, c.cover i, expire_all_for_user-le d u.id now i)
  ];
}

wrong_code-IsCovered :
    (env : AuthEnv) (d : Directory) (now : ℕ) (client : ClientInfo) (u : User) (r : Recovery)
    → IsCovered d
    → IsCovered (wrong_code env d now client u r)
unfolding wrong_code expire_all_for_user increment_attempts
wrong_code-IsCovered env d now client u r c =
    let tried = increment_attempts d r.id in
    elim (Bool-cases (leb env.recovery_max_attempts tried.0)) [
      | inl many ↦ rw many (record {
        cover = λ i. ground (
          arith,
          c.cover i,
          expire_all_for_user-le tried.1 u.id now i,
          increment_attempts-unspent d r.id i,
        );
      })
      | inr few ↦
          rw few
            (record { cover = λ i. ground (arith, c.cover i, increment_attempts-unspent d r.id i) })
    ]

right_code-IsCovered :
    (env : AuthEnv) (d : Directory) (now salt : ℕ) (input : Reset) (u : User) (r : Recovery)
    → Memᴰ r d.recoveries
    → open_code u.id r ≡ true
    → IsCovered d
    → IsCovered (right_code env d now salt input u r).0
unfolding right_code consume update_password revoke_all_by_user_id
right_code-IsCovered env d now salt input u r at free c =
    elim (Bool-cases ((consume d r.id now).0)) [
      | inr lost ↦
          rw lost (record { cover = λ i. ground (arith, c.cover i, consume-unspent d r.id now i) })
      | inl won ↦ rw won (record {
        cover = λ i. elim (Bool-cases (u.id == i)) [
          | inl own ↦
              let same : u.id ≡ i = ground arith in
              let taken : 0 < count_where (λ y. claimable r.id y && open_code i y) d.recoveries =
                count_where-mem _ d.recoveries at (ground (arith, free, same)) in
              rw own (omega (arith, c.cover i, consume-unspent d r.id now i, taken))
          | inr other ↦ rw other (omega (arith, c.cover i, consume-unspent d r.id now i))
        ];
      })
    ]

reset_with-IsCovered :
    (env : AuthEnv) (d : Directory) (now salt : ℕ) (input : Reset) (u : User) (o : Option Recovery)
    → ((r : Recovery) → o ≡ some r → Memᴰ r d.recoveries × (open_code u.id r ≡ true))
    → IsCovered d
    → IsCovered (reset_with env d now salt input u o).0
unfolding reset_with
reset_with-IsCovered env d now salt input u none here c = record {
  cover = λ i. ground (arith, c.cover i);
}
reset_with-IsCovered env d now salt input u (some r) here c =
    elim (Bool-cases (env.sha256 input.code == r.code_hash)) [
      | inl same ↦
          let (at, free) = here r refl in
          rw same (right_code-IsCovered env d now salt input u r at free c)
      | inr other ↦ rw other (wrong_code-IsCovered env d now input.client u r c)
    ]

reset_for-IsCovered :
    (env : AuthEnv) (d : Directory) (now salt : ℕ) (input : Reset) (o : Option User)
    → IsCovered d
    → IsCovered (reset_for env d now salt input o).0
unfolding reset_for find_active_code
reset_for-IsCovered env d now salt input none c = c
reset_for-IsCovered env d now salt input (some u) c =
    elim (Bool-cases (is_some (recovery_address u))) [
      | inl can ↦ rw can (
          reset_with-IsCovered env d now salt input u (find_active_code d u.id now)
            (λ r e.
              let (at, hit) = find_first-mem (is_active_code u.id now) d.recoveries e in
              (at, ground (arith, hit)))
            c)
      | inr barred ↦ rw barred c
    ]

code_for-IsCovered :
    (env : AuthEnv) (d : Directory) (now code : ℕ) (client : ClientInfo) (o : Option User)
    → IsCovered d
    → IsCovered (code_for env d now code client o)
unfolding code_for
code_for-IsCovered env d now code client none c = c
code_for-IsCovered env d now code client (some u) c =
    grant_code-IsCovered env d now code client u (recovery_address u) c

-- A call of the recovery service, with what it draws.
pub data RecoveryCall : Type 0 where
  asks : ℕ → ℕ → Text → ClientInfo → RecoveryCall
  confirms : ℕ → ℕ → Reset → RecoveryCall

unfoldable pub recovery_step : AuthEnv → Directory → RecoveryCall → Directory
recovery_step env d (asks now code email client) = request_recovery env d now code email client
recovery_step env d (confirms now salt input) = (confirm_reset env d now salt input).0

unfoldable pub recovery_steps : AuthEnv → Directory → List RecoveryCall → Directory
recovery_steps env d [] = d
recovery_steps env d (call ∷ rest) = recovery_steps env (recovery_step env d call) rest

recovery_step-IsCovered :
    (env : AuthEnv) (d : Directory) (call : RecoveryCall)
    → IsCovered d
    → IsCovered (recovery_step env d call)
unfolding recovery_step request_recovery confirm_reset
recovery_step-IsCovered env d (asks now code email client) c =
    code_for-IsCovered env d now code client (find_by_email env d (normal_email env email)) c
recovery_step-IsCovered env d (confirms now salt input) c =
    reset_for-IsCovered env d now salt input (find_by_email env d (normal_email env input.email)) c

-- Along any calls of the recovery service, the resets of a user that the history records and the open
-- codes of the user are together at most the codes that it records as asked for, if they were before.
pub recovery_steps-IsCovered :
    (env : AuthEnv) (d : Directory) (calls : List RecoveryCall)
    → IsCovered d
    → IsCovered (recovery_steps env d calls)
unfolding recovery_steps
recovery_steps-IsCovered env d [] c = c
recovery_steps-IsCovered env d (call ∷ rest) c =
    recovery_steps-IsCovered env (recovery_step env d call) rest
      (recovery_step-IsCovered env d call c)
