-- ===== src/Worker/Sweeping.antt =====
-- backend/src/domain/services/business-lifecycle.worker.ts: the pauses that a sweep ends.
use werefa.Errors.{is_ok, Result, ok, err}
use werefa.Worker.Attempts.{
  Pauses, auto_resume_from-Pauses, auto_resume_from-bands, settings_of_cleared,
}
use werefa.Worker.{
  sweep_each, insert_by_reopen, sort_by_reopen, list_due_for_resume, sweep, reopens_first, one_more,
  sweep_result,
}
use werefa.Subscriptions.Renewing.{is_eligible_now-bands_at, eligible_with}
use werefa.Subscriptions.Resuming.{
  is_resumed, is_due_pause, attempt_auto_resume_iff, attempt_auto_resume-versions,
}
use werefa.Prelude.{
  ℕ, ◌≡◌, refl, true, false, List, [], ◌∷◌, Option, none, some, arith, Bool, Bool-cases, inl, inr,
  ◌∙◌, ap, sym, ◌==◌, Option-cases, find_first-update_many-none, find_first-mem,
  find_first-update_found, Memᴰ, select, map, ◌⊎◌, subst, ◌&&◌,
}
use werefa.Subscriptions.{Ledger, PauseSettings}
use werefa.Subscriptions.Service.{
  settings_of, clear_pause, attempt_auto_resume, Resume, auto_resume_from, is_eligible_now,
  is_thrown, has_pending,
}

abbrev pub still_due : ℕ → ℕ → Ledger → Bool
still_due now n db = is_due_pause now (settings_of db n)

cleared_not_due : (now n : ℕ) (db : Ledger) → still_due now n (clear_pause n db) ≡ false
cleared_not_due now n db =
    let mine : PauseSettings → Bool = λ s. s.business_id == n in
    let clear : PauseSettings → PauseSettings =
      λ s. record s { is_paused = false; reopen_at = none } in
    elim (Option-cases (settings_of db n)) [
      | inl e ↦
          ap (is_due_pause now)
            (find_first-update_many-none mine mine clear db.settings (λ y. ground arith) e)
      | inr (s, e) ↦
          ap (is_due_pause now) (find_first-update_found mine clear db.settings (λ y. refl) e)
    ]

kept_settled :
    (now m n : ℕ) (db next : Ledger) (r : Resume)
    → Pauses m db next r
    → still_due now n db ≡ false
    → still_due now n next ≡ false
kept_settled now m n db next r (Pauses.kept e f) h = rw e h
kept_settled now m n db next r (Pauses.ended e f) h = elim (Bool-cases (m == n)) [
  | inl same ↦ let eq : m ≡ n = ground (arith, same) in rw (e, eq) (cleared_not_due now n db)
  | inr other ↦ rw e (ap (is_due_pause now) (settings_of_cleared m n db other) ∙ h)
]

-- An attempt makes no pause due.
attempt_keeps_settled :
    (db : Ledger) (now m n : ℕ)
    → still_due now n db ≡ false
    → still_due now n (attempt_auto_resume db now m).1 ≡ false
unfolding attempt_auto_resume
attempt_keeps_settled db now m n =
    kept_settled now m n db _ _ (auto_resume_from-Pauses db now m (settings_of db m))

settled_by_attempt :
    (now n : ℕ) (db next : Ledger) (r : Resume)
    → Pauses n db next r
    → is_resumed r ≡ still_due now n db
    → still_due now n next ≡ false
settled_by_attempt now n db next r (Pauses.kept e f) h = rw e (sym h ∙ f)
settled_by_attempt now n db next r (Pauses.ended e f) h = rw e (cleared_not_due now n db)

-- Is there a due pause of a business that takes bookings and has a PENDING version?
abbrev stuck : ℕ → ℕ → Ledger → Bool
stuck now n db = still_due now n db && (is_eligible_now db now n && has_pending n db.versions)

-- An attempt for a business that takes bookings leaves it no due pause.
attempt_settles :
    (db : Ledger) (now n : ℕ)
    → stuck now n db ≡ false
    → is_eligible_now db now n ≡ true
    → still_due now n (attempt_auto_resume db now n).1 ≡ false
unfolding attempt_auto_resume
attempt_settles db now n free can =
    settled_by_attempt now n db _ _ (auto_resume_from-Pauses db now n (settings_of db n))
      (ground (arith, free, can, (attempt_auto_resume_iff db now n).0))

attempt_keeps_eligible :
    (db : Ledger) (now m n : ℕ)
    → is_eligible_now (attempt_auto_resume db now m).1 now n ≡ is_eligible_now db now n
unfolding attempt_auto_resume
attempt_keeps_eligible db now m n =
    is_eligible_now-bands_at (auto_resume_from db now m (settings_of db m)).1 now n
    ∙ ap (eligible_with now) (auto_resume_from-bands db now m n (settings_of db m))
    ∙ sym (is_eligible_now-bands_at db now n)

attempt_keeps_free :
    (db : Ledger) (now m k : ℕ)
    → stuck now k db ≡ false
    → stuck now k (attempt_auto_resume db now m).1 ≡ false
attempt_keeps_free db now m k free = elim (Bool-cases (still_due now k db)) [
  | inr settled ↦ rw (attempt_keeps_settled db now m k settled) refl
  | inl due ↦
      let rest : (is_eligible_now db now k && has_pending k db.versions) ≡ false =
        ground (arith, free, due) in
      rw (attempt_keeps_eligible db now m k, attempt_auto_resume-versions db now m, rest)
        (ground arith)
]

attempt_not_thrown :
    (db : Ledger) (now m : ℕ)
    → stuck now m db ≡ false
    → is_thrown (attempt_auto_resume db now m).0 ≡ false
attempt_not_thrown db now m free = (attempt_auto_resume_iff db now m).1 ∙ free

is_ok-one_more : (r : Resume) (k : Result ℕ) → is_ok k ≡ true → is_ok (one_more r k) ≡ true
unfolding is_ok
is_ok-one_more r (ok k) h = refl
is_ok-one_more r (err e) h = cc

is_ok-sweep_result : (due : ℕ) (k : Result ℕ) → is_ok k ≡ true → is_ok (sweep_result due k) ≡ true
unfolding is_ok
is_ok-sweep_result due (ok k) h = refl
is_ok-sweep_result due (err e) h = cc

sweep_each-ok :
    (db : Ledger) (now : ℕ) (ms : List ℕ)
    → ((k : ℕ) → stuck now k db ≡ false)
    → is_ok (sweep_each db now ms).0 ≡ true
unfolding sweep_each is_ok
sweep_each-ok db now [] free = refl
sweep_each-ok db now (m ∷ ms) free = rw (attempt_not_thrown db now m (free m)) (
    is_ok-one_more _ _ (
      sweep_each-ok (attempt_auto_resume db now m).1 now ms
        λ k. attempt_keeps_free db now m k (free k)))

sweep_keeps_settled :
    (db : Ledger) (now n : ℕ) (ms : List ℕ)
    → still_due now n db ≡ false
    → still_due now n (sweep_each db now ms).1 ≡ false
unfolding sweep_each
sweep_keeps_settled db now n [] h = h
sweep_keeps_settled db now n (m ∷ ms) h =
    elim (Bool-cases (is_thrown (attempt_auto_resume db now m).0)) [
      | inl stops ↦ rw stops (attempt_keeps_settled db now m n h)
      | inr goes_on ↦ rw goes_on (
          sweep_keeps_settled (attempt_auto_resume db now m).1 now n ms
            (attempt_keeps_settled db now m n h))
    ]

sweep_settles :
    (db : Ledger) (now n : ℕ) (ms : List ℕ)
    → ((k : ℕ) → stuck now k db ≡ false)
    → Memᴰ n ms
    → is_eligible_now db now n ≡ true
    → still_due now n (sweep_each db now ms).1 ≡ false
unfolding sweep_each
sweep_settles db now n [] free at can = elim at [ ]
sweep_settles db now n (m ∷ ms) free (Memᴰ.head e) can = rw (attempt_not_thrown db now m (free m)) (
    sweep_keeps_settled (attempt_auto_resume db now m).1 now n ms
      (rw⁻¹ e (attempt_settles db now n (free n) can)))
sweep_settles db now n (m ∷ ms) free (Memᴰ.tail at) can =
    rw (attempt_not_thrown db now m (free m)) (
      sweep_settles (attempt_auto_resume db now m).1 now n ms
        (λ k. attempt_keeps_free db now m k (free k)) at (attempt_keeps_eligible db now m n ∙ can))

mem-insert_by_reopen :
    (x s : PauseSettings) (ts : List PauseSettings)
    → (x ≡ s) ⊎ Memᴰ x ts
    → Memᴰ x (insert_by_reopen s ts)
unfolding insert_by_reopen
mem-insert_by_reopen x s [] (inl e) = Memᴰ.head e
mem-insert_by_reopen x s [] (inr at) = elim at [ ]
mem-insert_by_reopen x s (t ∷ ts) at = elim (Bool-cases (reopens_first s t)) [
  | inl first ↦ rw first (elim at [ inl e ↦ Memᴰ.head e | inr later ↦ Memᴰ.tail later ])
  | inr behind ↦ rw behind (elim at [
    | inl e ↦ Memᴰ.tail (mem-insert_by_reopen x s ts (inl e))
    | inr (Memᴰ.head e) ↦ Memᴰ.head e
    | inr (Memᴰ.tail later) ↦ Memᴰ.tail (mem-insert_by_reopen x s ts (inr later))
  ])
]

mem-sort_by_reopen :
    (x : PauseSettings) (ss : List PauseSettings) → Memᴰ x ss → Memᴰ x (sort_by_reopen ss)
unfolding sort_by_reopen
mem-sort_by_reopen x [] at = elim at [ ]
mem-sort_by_reopen x (s ∷ ss) (Memᴰ.head e) = mem-insert_by_reopen x s (sort_by_reopen ss) (inl e)
mem-sort_by_reopen x (s ∷ ss) (Memᴰ.tail at) =
    mem-insert_by_reopen x s (sort_by_reopen ss) (inr (mem-sort_by_reopen x ss at))

mem-select {ℓ} :
    {A : Type ℓ} (p : A → Bool) (xs : List A) {x : A}
    → Memᴰ x xs
    → p x ≡ true
    → Memᴰ x (select p xs)
mem-select p [] at h = elim at [ ]
mem-select p (y ∷ ys) {x} (Memᴰ.head e) h =
    let here : p y ≡ true = rw⁻¹ e h in rw here (Memᴰ.head e)
mem-select p (y ∷ ys) (Memᴰ.tail at) h = elim (Bool-cases (p y)) [
  | inl hit ↦ rw hit (Memᴰ.tail (mem-select p ys at h))
  | inr miss ↦ rw miss (mem-select p ys at h)
]

mem-map {ℓ κ} :
    {A : Type ℓ} {B : Type κ} (f : A → B) (xs : List A) {x : A} → Memᴰ x xs → Memᴰ (f x) (map f xs)
mem-map f [] at = elim at [ ]
mem-map f (y ∷ ys) (Memᴰ.head e) = Memᴰ.head (ap f e)
mem-map f (y ∷ ys) (Memᴰ.tail at) = Memᴰ.tail (mem-map f ys at)

-- A business with a due pause is listed.
listed_when_due :
    (db : Ledger) (now n : ℕ) (o : Option PauseSettings)
    → settings_of db n ≡ o
    → is_due_pause now o ≡ true
    → Memᴰ n (list_due_for_resume db now)
unfolding list_due_for_resume
listed_when_due db now n none e h = cc
listed_when_due db now n (some s) e h =
    let (at, mine) = find_first-mem (λ (x : PauseSettings). x.business_id == n) db.settings e in
    let same : s.business_id ≡ n = ground (arith, mine) in
    subst (λ k. Memᴰ k (list_due_for_resume db now)) same
      (mem-map (λ (x : PauseSettings). x.business_id) _
        (mem-sort_by_reopen s _
          (mem-select (λ (x : PauseSettings). is_due_pause now (some x)) db.settings at h)))

-- A sweep throws nothing and leaves no business whose subscription takes bookings at that instant with
-- a pause whose end has come, if no business of this kind has a PENDING schedule version at its start.
pub sweep_ends_pauses :
    (db : Ledger) (now : ℕ)
    → ((n : ℕ)
        → (is_due_pause now (settings_of db n)
            && (is_eligible_now db now n && has_pending n db.versions))
          ≡ false)
    → (is_ok (sweep db now).0 ≡ true)
      × ((n : ℕ)
          → is_eligible_now db now n ≡ true
          → is_due_pause now (settings_of (sweep db now).1 n) ≡ false)
unfolding sweep
sweep_ends_pauses db now free = (
  is_ok-sweep_result _ _ (sweep_each-ok db now (list_due_for_resume db now) free),
  λ n can. elim (Bool-cases (still_due now n db)) [
    | inl due ↦
        sweep_settles db now n (list_due_for_resume db now) free
          (listed_when_due db now n (settings_of db n) refl due) can
    | inr not_due ↦ sweep_keeps_settled db now n (list_due_for_resume db now) not_due
  ],
)
