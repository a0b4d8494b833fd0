-- ===== src/Prelude/Rows.antt =====
-- Tables as lists of rows: the reads and bulk updates of the Prisma client.
use Prim.Native.Nat.{ℕ, suc, ◌+◌, ◌<◌}
use mathlib.Core.Path.{◌≡◌, refl, ap, ◌∙◌}
use mathlib.Core.Logic.{inl, inr}
use mathlib.Core.Bool.{Bool, true, false, ◌&&◌}
use mathlib.Core.Option.{none, some}
use mathlib.Core.List.{List, [], ◌∷◌, Memᴰ}
use native.Mathlib.Omega.{arith}
use werefa.Prelude.Tests.{if◌then◌else◌, Bool-cases}
use werefa.Prelude.Lists.{any, any-mem, find_first, select}

module _ {ℓ} {A : Type ℓ} where
  -- `updateMany({ where, data })`
  unfoldable pub update_many : (A → Bool) → (A → A) → List A → List A
  update_many p f [] = []
  update_many p f (x ∷ xs) = (if p x then f x else x) ∷ update_many p f xs

  -- The `count` of the rows that a `where` selects.
  abbrev pub count_where : (A → Bool) → List A → ℕ
  count_where p [] = 0
  count_where p (x ∷ xs) = let n = count_where p xs in if p x then suc n else n

  -- A row after an update comes from a row before it.
  pub mem-update_many :
      (p : A → Bool) (f : A → A) (xs : List A) {y : A}
      → Memᴰ y (update_many p f xs)
      → (x : A) × Memᴰ x xs × (y ≡ (if p x then f x else x))
  unfolding update_many
  mem-update_many p f [] m = elim m [ ]
  mem-update_many p f (x ∷ xs) (Memᴰ.head e) = (x, Memᴰ.head refl, e)
  mem-update_many p f (x ∷ xs) (Memᴰ.tail m) =
      let r = mem-update_many p f xs m in (r.0, Memᴰ.tail r.1, r.2)

  -- A row before an update is found after it, changed where it was selected.
  pub update_many-mem :
      (p : A → Bool) (f : A → A) (xs : List A) {x : A}
      → Memᴰ x xs
      → Memᴰ (if p x then f x else x) (update_many p f xs)
  unfolding update_many
  update_many-mem p f [] m = elim m [ ]
  update_many-mem p f (y ∷ xs) (Memᴰ.head e) = Memᴰ.head (ap (λ z. if p z then f z else z) e)
  update_many-mem p f (y ∷ xs) (Memᴰ.tail m) = Memᴰ.tail (update_many-mem p f xs m)

  -- A selected row stands in the table and passes the test.
  pub find_first-mem :
      (p : A → Bool) (xs : List A) {x : A} → find_first p xs ≡ some x → Memᴰ x xs × (p x ≡ true)
  find_first-mem p [] e = cc
  find_first-mem p (y ∷ xs) {x} e = elim (Bool-cases (p y)) [
    | inl hit ↦ let same : x ≡ y = ground arith in (Memᴰ.head same, rw same hit)
    | inr miss ↦ let r = find_first-mem p xs (ground arith) in (Memᴰ.tail r.0, r.1)
  ]

  -- Nothing is selected exactly when no row passes.
  pub count_where-any : (p : A → Bool) (xs : List A) → count_where p xs ≡ 0 → any p xs ≡ false
  count_where-any p [] h = refl
  count_where-any p (x ∷ xs) h = ground (arith, count_where-any p xs)

  pub any-count_where : (p : A → Bool) (xs : List A) → any p xs ≡ false → count_where p xs ≡ 0
  any-count_where p [] h = refl
  any-count_where p (x ∷ xs) h = ground (arith, any-count_where p xs)

  -- An update that keeps a test true where it holds keeps a row that passes it.
  pub any-update_many :
      (q p : A → Bool) (f : A → A) (xs : List A)
      → ((x : A) → q x ≡ true → q (if p x then f x else x) ≡ true)
      → any q xs ≡ true
      → any q (update_many p f xs) ≡ true
  unfolding update_many
  any-update_many q p f [] keep h = cc
  any-update_many q p f (x ∷ xs) keep h = elim (Bool-cases (q x)) [
    | inl hit ↦ rw (keep x hit) refl
    | inr miss ↦ ground (arith, any-update_many q p f xs keep)
  ]

  -- A counted row stands in the table.
  pub mem_of_count_where :
      (p : A → Bool) (xs : List A) → count_where p xs ≡ 1 → (x : A) × Memᴰ x xs × (p x ≡ true)
  mem_of_count_where p [] h = absurd (omega arith)
  mem_of_count_where p (x ∷ xs) h = elim (Bool-cases (p x)) [
    | inl hit ↦ (x, Memᴰ.head refl, hit)
    | inr miss ↦ let r = mem_of_count_where p xs (ground arith) in (r.0, Memᴰ.tail r.1, r.2)
  ]

  -- An update that makes no row pass keeps a search empty.
  pub any-update_many-false :
      (q p : A → Bool) (f : A → A) (xs : List A)
      → ((x : A) → q (if p x then f x else x) ≡ true → q x ≡ true)
      → any q xs ≡ false
      → any q (update_many p f xs) ≡ false
  unfolding update_many
  any-update_many-false q p f [] back h = refl
  any-update_many-false q p f (x ∷ xs) back h =
      ground (arith, back x, any-update_many-false q p f xs back)

  -- An update of other rows leaves a selection as it was.
  pub select-update_many :
      (q p : A → Bool) (f : A → A) (xs : List A)
      → ((x : A) → p x ≡ true → q x ≡ false)
      → ((x : A) → p x ≡ true → q (f x) ≡ false)
      → select q (update_many p f xs) ≡ select q xs
  unfolding update_many
  select-update_many q p f [] h k = refl
  select-update_many q p f (x ∷ xs) h k = elim (Bool-cases (p x)) [
    | inl hit ↦ rw (hit, k x hit, h x hit) (select-update_many q p f xs h k)
    | inr miss ↦ ground (arith, select-update_many q p f xs h k, miss)
  ]

  -- A search by a column that an update keeps finds the updated row.
  pub find_first-update_many :
      (q p : A → Bool) (f : A → A) (xs : List A) {x : A}
      → ((y : A) → q (if p y then f y else y) ≡ q y)
      → find_first q xs ≡ some x
      → find_first q (update_many p f xs) ≡ some (if p x then f x else x)
  unfolding update_many
  find_first-update_many q p f [] keep e = cc
  find_first-update_many q p f (y ∷ ys) {x} keep e = elim (Bool-cases (q y)) [
    | inl hit ↦
        let same : y ≡ x = ground (arith, e, hit) in
        rw (keep y, hit) (ap (λ z. some (if p z then f z else z)) same)
    | inr miss ↦ rw (keep y, miss) (find_first-update_many q p f ys keep (ground (arith, e, miss)))
  ]

  -- The row that a search finds, after an update of the rows that the search selects.
  pub find_first-update_found :
      (q : A → Bool) (f : A → A) (xs : List A) {x : A}
      → ((y : A) → q (f y) ≡ q y)
      → find_first q xs ≡ some x
      → find_first q (update_many q f xs) ≡ some (f x)
  find_first-update_found q f xs {x} keep e =
      find_first-update_many q q f xs (λ y. ground (arith, keep y)) e
      ∙ rw ((find_first-mem q xs e).1) refl

  pub find_first-update_many-none :
      (q p : A → Bool) (f : A → A) (xs : List A)
      → ((y : A) → q (if p y then f y else y) ≡ q y)
      → find_first q xs ≡ none
      → find_first q (update_many p f xs) ≡ none
  unfolding update_many
  find_first-update_many-none q p f [] keep e = refl
  find_first-update_many-none q p f (y ∷ ys) keep e = elim (Bool-cases (q y)) [
    | inl hit ↦ ground (arith, e, hit)
    | inr miss ↦
        rw (keep y, miss) (find_first-update_many-none q p f ys keep (ground (arith, e, miss)))
  ]

  -- The rows that pass a test are as many as before when the update keeps the test.
  pub count_where-update_many :
      (q p : A → Bool) (f : A → A) (xs : List A)
      → ((y : A) → q (if p y then f y else y) ≡ q y)
      → count_where q (update_many p f xs) ≡ count_where q xs
  unfolding update_many
  count_where-update_many q p f [] keep = refl
  count_where-update_many q p f (y ∷ ys) keep =
      rw (keep y, count_where-update_many q p f ys keep) refl

  -- An update that makes the selected rows pass adds their number.
  pub count_where-update_many-add :
      (q p : A → Bool) (f : A → A) (xs : List A)
      → ((y : A) → p y ≡ true → q y ≡ false)
      → ((y : A) → p y ≡ true → q (f y) ≡ true)
      → count_where q (update_many p f xs) ≡ count_where q xs + count_where p xs
  unfolding update_many
  count_where-update_many-add q p f [] before after = refl
  count_where-update_many-add q p f (y ∷ ys) before after = elim (Bool-cases (p y)) [
    | inl hit ↦
        rw (hit, before y hit, after y hit)
          (omega (arith, count_where-update_many-add q p f ys before after))
    | inr miss ↦ ground (arith, miss, count_where-update_many-add q p f ys before after)
  ]

  -- An update after which no row passes.
  pub count_where-cleared :
      (q p : A → Bool) (f : A → A) (xs : List A)
      → ((y : A) → q (if p y then f y else y) ≡ false)
      → count_where q (update_many p f xs) ≡ 0
  unfolding update_many
  count_where-cleared q p f [] clear = refl
  count_where-cleared q p f (y ∷ ys) clear = rw (clear y, count_where-cleared q p f ys clear) refl

  pub any-find_first :
      (p : A → Bool) (xs : List A) {x : A} → find_first p xs ≡ some x → any p xs ≡ true
  any-find_first p xs e = let (at, hit) = find_first-mem p xs e in any-mem p xs at hit

  pub find_first-any : (p : A → Bool) (xs : List A) → find_first p xs ≡ none → any p xs ≡ false
  find_first-any p [] e = refl
  find_first-any p (y ∷ ys) e = ground (arith, e, find_first-any p ys)

  -- An update that selects no row changes nothing.
  pub update_many_none :
      (p : A → Bool) (f : A → A) (xs : List A) → any p xs ≡ false → update_many p f xs ≡ xs
  unfolding update_many
  update_many_none p f [] h = refl
  update_many_none p f (y ∷ ys) h = ground (arith, h, update_many_none p f ys)

  -- An update after which the selected rows fail a test removes those that passed it.
  pub count_where-update_many-drop :
      (q p : A → Bool) (f : A → A) (xs : List A)
      → ((y : A) → p y ≡ true → q (f y) ≡ false)
      → count_where q (update_many p f xs) + count_where (λ y. p y && q y) xs ≡ count_where q xs
  unfolding update_many
  count_where-update_many-drop q p f [] after = refl
  count_where-update_many-drop q p f (y ∷ ys) after =
      ground (arith, after y, count_where-update_many-drop q p f ys after)

  -- A row that passes is counted.
  pub count_where-mem :
      (p : A → Bool) (xs : List A) {x : A} → Memᴰ x xs → p x ≡ true → 0 < count_where p xs
  count_where-mem p [] m h = elim m [ ]
  count_where-mem p (y ∷ xs) (Memᴰ.head e) h = ground arith
  count_where-mem p (y ∷ xs) (Memᴰ.tail m) h = ground (arith, count_where-mem p xs m h)

  -- After an update that makes the selected rows fail, a search for them finds none.
  pub find_first-cleared :
      (p : A → Bool) (f : A → A) (xs : List A)
      → ((y : A) → p y ≡ true → p (f y) ≡ false)
      → find_first p (update_many p f xs) ≡ none
  unfolding update_many
  find_first-cleared p f [] clear = refl
  find_first-cleared p f (y ∷ ys) clear = ground (arith, clear y, find_first-cleared p f ys clear)
