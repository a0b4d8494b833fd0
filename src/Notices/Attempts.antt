-- ===== src/Notices/Attempts.antt =====
-- A delivery is handed to a provider at most as often as the configuration allows.
use werefa.Notices.Delivery.{is_notice}
use werefa.Notices.{
  Outbox, DeliveryState, Notice, sending, dead_lettered, sent, pending, suppressed,
}
use werefa.Prelude.{
  ℕ, zero, suc, ◌+◌, ◌≡◌, ◌≤◌, ◌<◌, refl, ap, sym, ◌∙◌, subst, Bool, true, false, List, [], ◌∷◌,
  ◌==◌, arith, Bool-cases, inl, inr, if◌then◌else◌, any, select, count_where, update_many, take,
  Memᴰ, any-mem, mem-update_many, update_many-mem, any-update_many-false,
}

abbrev pub calls_of : ℕ → Outbox → ℕ
calls_of id o = count_where (λ (c : ℕ). c == id) o.calls

-- A row that is being sent, or was sent, has one call that no failure was recorded for.
abbrev pub open_calls : DeliveryState → ℕ
open_calls sending = 1
open_calls sent = 1
open_calls _ = 0

abbrev pub reserve : DeliveryState → ℕ
reserve dead_lettered = 0
reserve _ = 1

pub record Within (limit calls : ℕ) (n : Notice) : Type 0 where
  pub spent : calls ≤ n.attempts + open_calls n.state
  pub left : n.attempts + reserve n.state ≤ limit

abbrev pub DistinctIds : List Notice → Type 0
DistinctIds [] = Unit {0}
DistinctIds (n ∷ ns) = (any (is_notice n.id) ns ≡ false) × DistinctIds ns

pub record IsBounded (limit : ℕ) (o : Outbox) : Type 0 where
  pub distinct : DistinctIds o.deliveries
  pub within : (n : Notice) → Memᴰ n o.deliveries → Within limit (calls_of n.id o) n
  pub fresh : (n : Notice) → Memᴰ n o.deliveries → n.id < o.next_delivery
  pub unused : (i : ℕ) → o.next_delivery ≤ i → calls_of i o ≡ 0

same_row :
    (ns : List Notice) {a b : Notice} → DistinctIds ns → Memᴰ a ns → Memᴰ b ns → a.id ≡ b.id → a ≡ b
same_row [] d m k e = elim m [ ]
same_row (n ∷ ns) d (Memᴰ.head f) (Memᴰ.head g) e = f ∙ sym g
same_row (n ∷ ns) {a} {b} d (Memᴰ.head f) (Memᴰ.tail k) e = absurd (
    ground
      (arith, d.0, any-mem (is_notice n.id) ns k (ground (arith, e, ap (λ (x : Notice). x.id) f))))
same_row (n ∷ ns) {a} {b} d (Memᴰ.tail m) (Memᴰ.head g) e = absurd (
    ground
      (arith, d.0, any-mem (is_notice n.id) ns m (ground (arith, e, ap (λ (x : Notice). x.id) g))))
same_row (n ∷ ns) d (Memᴰ.tail m) (Memᴰ.tail k) e = same_row ns d.1 m k e

DistinctIds-update_many :
    (p : Notice → Bool) (f : Notice → Notice) (ns : List Notice)
    → ((n : Notice) → (f n).id ≡ n.id)
    → DistinctIds ns
    → DistinctIds (update_many p f ns)
unfolding update_many
DistinctIds-update_many p f [] keep d = tt
DistinctIds-update_many p f (n ∷ ns) keep d =
    let same : (if p n then f n else n).id ≡ n.id = ground (arith, keep n) in
    (
      rw same (any-update_many-false (is_notice n.id) p f ns (λ x. ground (arith, keep x)) d.0),
      DistinctIds-update_many p f ns keep d.1,
    )

selected :
    (p : Notice → Bool) (n : Notice) (rest ns : List Notice) {x : Notice}
    → p n ≡ true
    → (Memᴰ x rest → Memᴰ x ns × (p x ≡ true))
    → Memᴰ x (n ∷ rest)
    → Memᴰ x (n ∷ ns) × (p x ≡ true)
selected p n rest ns hit below (Memᴰ.head e) = (Memᴰ.head e, ap p e ∙ hit)
selected p n rest ns hit below (Memᴰ.tail m) = let (at, h) = below m in (Memᴰ.tail at, h)

pub mem-select :
    (p : Notice → Bool) (ns : List Notice) {x : Notice}
    → Memᴰ x (select p ns)
    → Memᴰ x ns × (p x ≡ true)
mem-select p [] m = elim m [ ]
mem-select p (n ∷ ns) m = elim (Bool-cases (p n)) [
  | inl hit ↦ selected p n (select p ns) ns hit (mem-select p ns) (rw hit at m)
  | inr miss ↦ let (at, h) = mem-select p ns (rw miss at m) in (Memᴰ.tail at, h)
]

pub mem-take : (k : ℕ) (ns : List Notice) {x : Notice} → Memᴰ x (take k ns) → Memᴰ x ns
mem-take zero ns m = elim m [ ]
mem-take (suc k) [] m = elim m [ ]
mem-take (suc k) (n ∷ ns) (Memᴰ.head e) = Memᴰ.head e
mem-take (suc k) (n ∷ ns) (Memᴰ.tail m) = Memᴰ.tail (mem-take k ns m)

any-select :
    (p q : Notice → Bool) (ns : List Notice) → any q ns ≡ false → any q (select p ns) ≡ false
any-select p q [] h = refl
any-select p q (n ∷ ns) h = ground (arith, any-select p q ns)

any-take :
    (k : ℕ) (q : Notice → Bool) (ns : List Notice) → any q ns ≡ false → any q (take k ns) ≡ false
any-take zero q ns h = refl
any-take (suc k) q [] h = refl
any-take (suc k) q (n ∷ ns) h = ground (arith, any-take k q ns)

pub DistinctIds-select :
    (p : Notice → Bool) (ns : List Notice) → DistinctIds ns → DistinctIds (select p ns)
DistinctIds-select p [] d = tt
DistinctIds-select p (n ∷ ns) d = elim (Bool-cases (p n)) [
  | inl hit ↦ rw hit (any-select p (is_notice n.id) ns d.0, DistinctIds-select p ns d.1)
  | inr miss ↦ rw miss (DistinctIds-select p ns d.1)
]

pub DistinctIds-take : (k : ℕ) (ns : List Notice) → DistinctIds ns → DistinctIds (take k ns)
DistinctIds-take zero ns d = tt
DistinctIds-take (suc k) [] d = tt
DistinctIds-take (suc k) (n ∷ ns) d =
    (any-take k (is_notice n.id) ns d.0, DistinctIds-take k ns d.1)

-- A row of the table rewritten, with what is logged for it; other rows stay.
pub record RowStep (limit id : ℕ) (o next : Outbox) : Type 0 where
  pub bounded : IsBounded limit next
  pub others : (m : Notice) → Memᴰ m o.deliveries → (m.id == id) ≡ false → Memᴰ m next.deliveries

pub then_step :
    {limit id : ℕ} {o mid next : Outbox}
    → RowStep limit id o mid
    → RowStep limit id mid next
    → RowStep limit id o next
then_step a b = record {
  bounded = b.bounded;
  others = λ m at other. b.others m (a.others m at other) other;
}

module _ (limit : ℕ) (o : Outbox) (b : IsBounded limit o) (x : Notice) (at : Memᴰ x o.deliveries)
    (p : Notice → Bool) (hit : p x ≡ true) (only : (n : Notice) → p n ≡ true → n.id ≡ x.id)
    (f : Notice → Notice) (keep : (n : Notice) → (f n).id ≡ n.id) (calls : List ℕ)
    (same_calls : (i : ℕ)
      → (x.id == i) ≡ false
      → count_where (λ (c : ℕ). c == i) calls ≡ calls_of i o) where
  abbrev pub rewritten : Outbox
  rewritten = record o { deliveries = update_many p f o.deliveries; calls = calls }

  -- A row after the update is the changed row, or another one as it was.
  data After (n : Notice) : Type 0 where
    changed : n ≡ f x → After n
    other : Memᴰ n o.deliveries → (x.id == n.id) ≡ false → After n

  after : (n : Notice) → Memᴰ n rewritten.deliveries → After n
  after n m =
      let (y, there, e) = mem-update_many p f o.deliveries m in
      elim (Bool-cases (p y)) [
        | inl sel ↦
            let same : y ≡ x = same_row o.deliveries b.distinct there at (only y sel) in
            After.changed (e ∙ rw sel (ap f same))
        | inr miss ↦
            let same : n ≡ y = e ∙ rw miss refl in
            elim (Bool-cases (x.id == y.id)) [
              | inl own ↦
                  let eq : y ≡ x = same_row o.deliveries b.distinct there at (ground arith) in
                  absurd (ground (arith, miss, hit, ap p eq))
              | inr apart ↦
                  After.other (subst (λ (z : Notice). Memᴰ z o.deliveries) (sym same) there)
                    (ap (λ (z : Notice). x.id == z.id) same ∙ apart)
            ]
      ]

  rewritten-Within :
      Within limit (count_where (λ (c : ℕ). c == x.id) calls) (f x)
      → (n : Notice) → After n
      → Within limit (calls_of n.id rewritten) n
  rewritten-Within w n (After.changed e) =
      let fx : Within limit (count_where (λ (c : ℕ). c == (f x).id) calls) (f x) =
        subst (λ (i : ℕ). Within limit (count_where (λ (c : ℕ). c == i) calls) (f x)) (sym (keep x))
          w in
      subst (λ (z : Notice). Within limit (count_where (λ (c : ℕ). c == z.id) calls) z) (sym e) fx
  rewritten-Within w n (After.other there apart) = rw (same_calls n.id apart) (b.within n there)

  rewritten-fresh : (n : Notice) → After n → n.id < o.next_delivery
  rewritten-fresh n (After.changed e) =
      let fx : (f x).id < o.next_delivery = rw (keep x) (b.fresh x at) in rw e fx
  rewritten-fresh n (After.other there apart) = b.fresh n there

  kept : (m : Notice) → Memᴰ m o.deliveries → (m.id == x.id) ≡ false → Memᴰ m rewritten.deliveries
  kept m there apart = elim (Bool-cases (p m)) [
    | inl sel ↦ absurd (ground (arith, apart, only m sel))
    | inr miss ↦
        subst (λ (z : Notice). Memᴰ z rewritten.deliveries) (rw miss refl)
          (update_many-mem p f o.deliveries there)
  ]

  pub rewrite_row :
      Within limit (count_where (λ (c : ℕ). c == x.id) calls) (f x) → RowStep limit x.id o rewritten
  rewrite_row w = record {
    bounded = record {
      distinct = DistinctIds-update_many p f o.deliveries keep b.distinct;
      within = λ n m. rewritten-Within w n (after n m);
      fresh = λ n m. rewritten-fresh n (after n m);
      unused = λ i late. same_calls i (ground (arith, b.fresh x at, late)) ∙ b.unused i late;
    };
    others = λ m there apart. kept m there apart;
  }

open_calls-le : (s : DeliveryState) → open_calls s ≤ reserve s
open_calls-le pending = omega arith
open_calls-le sending = omega arith
open_calls-le sent = omega arith
open_calls-le dead_lettered = omega arith
open_calls-le suppressed = omega arith

pub Within-le : (limit calls : ℕ) (n : Notice) → Within limit calls n → calls ≤ limit
Within-le limit calls n w = omega (arith, w.spent, w.left, open_calls-le n.state)
