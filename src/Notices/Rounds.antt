-- ===== src/Notices/Rounds.antt =====
-- backend/src/domain/notifications/notification-outbox-event-bus.ts: a round of writes under keys that its
-- elements give, and a second round under the same keys.
use werefa.Notices.Writes.{for_each, Written, attempt, thrown, done, written}
use werefa.Notices.Writing.{for_each-Keeps}
use werefa.Notices.{Outbox, Notice, create_delivery, key_width, NewDelivery, has_key, notice_of}
use werefa.Prelude.{
  ℕ, suc, ◌≡◌, refl, sym, ◌∙◌, subst, true, false, List, [], ◌∷◌, ◌++◌, ◌⊎◌, arith, Bool-cases, inl,
  inr, any, length, ltb, any-append, map, Memᴰ,
}
use werefa.Store.{Text, text_eq_refl}

-- A write of one delivery for each element, under a key that the element gives.
pub record Writer {ℓ} {A : Type ℓ} (key : A → Text) (f : A → Outbox → Written) : Type ℓ where
  pub now : ℕ
  pub base : A → Outbox → Outbox
  pub input : A → Outbox → NewDelivery
  pub base_same : (x : A) (o : Outbox) → (base x o).deliveries ≡ o.deliveries
  pub key_same : (x : A) (o : Outbox) → (input x o).key ≡ key x
  pub writes :
      (x : A) (o : Outbox) → f x o ≡ attempt (base x o) (create_delivery (base x o) now (input x o))

-- The keys up to the first one that is too wide are there.
abbrev pub Covered : List Text → List Notice → Type 0
Covered [] ds = Unit {0}
Covered (k ∷ ks) ds =
    (ltb key_width (length k) ≡ true) ⊎ ((any (has_key k) ds ≡ true) × Covered ks ds)

data Result (k : Text) (o : Outbox) (w : Written) : Type 0 where
  wide :
      ltb key_width (length k) ≡ true
      → (p : Outbox) → w ≡ thrown p
      → p.deliveries ≡ o.deliveries
      → Result k o w
  there :
      ltb key_width (length k) ≡ false
      → (p : Outbox) → w ≡ done p
      → any (has_key k) p.deliveries ≡ true
      → ((l : Text) → any (has_key l) o.deliveries ≡ true → any (has_key l) p.deliveries ≡ true)
      → (any (has_key k) o.deliveries ≡ true → p.deliveries ≡ o.deliveries)
      → Result k o w

created_Result :
    (now : ℕ) (input : NewDelivery) (o : Outbox)
    → Result input.key o (attempt o (create_delivery o now input))
unfolding create_delivery
created_Result now input o = elim (Bool-cases (ltb key_width (length input.key))) [
  | inl broad ↦ Result.wide broad o (rw broad refl) refl
  | inr fits ↦ elim (Bool-cases (any (has_key input.key) o.deliveries)) [
    | inl old ↦ Result.there fits o (rw (fits, old) refl) old (λ l h. h) (λ h. refl)
    | inr new ↦
        let n = notice_of o.next_delivery now input in
        let p : Outbox = record o {
          deliveries = o.deliveries ++ n ∷ [];
          next_delivery = suc o.next_delivery;
        } in
        Result.there fits p (rw (fits, new) refl)
          (rw (any-append (has_key input.key) o.deliveries (n ∷ []))
            (ground (arith, text_eq_refl input.key)))
          (λ l h. rw (any-append (has_key l) o.deliveries (n ∷ []), h) refl)
          (λ h. ground (arith, new, h))
  ]
]

retarget :
    {k l : Text} {b o : Outbox} {v w : Written}
    → k ≡ l
    → b.deliveries ≡ o.deliveries
    → w ≡ v
    → Result k b v
    → Result l o w
retarget {k} {l} {b} {o} {v} {w} same_key same e (Result.wide broad p at stays) =
    Result.wide (subst (λ (t : Text). ltb key_width (length t) ≡ true) same_key broad) p (e ∙ at)
      (stays ∙ same)
retarget {k} {l} {b} {o} {v} {w} same_key same e (Result.there fits p at has grows stays) =
    Result.there (subst (λ (t : Text). ltb key_width (length t) ≡ false) same_key fits) p (e ∙ at)
      (subst (λ (t : Text). any (has_key t) p.deliveries ≡ true) same_key has)
      (λ t h. grows t (rw same h))
      (λ h.
        stays (
          subst (λ (t : Text). any (has_key t) b.deliveries ≡ true) (sym same_key)
            (subst (λ ds. any (has_key l) ds ≡ true) (sym same) h))
        ∙ same)

module _ {ℓ} {A : Type ℓ} (key : A → Text) where
  write_Result :
      (f : A → Outbox → Written) (w : Writer key f) (x : A) (o : Outbox) → Result (key x) o (f x o)
  write_Result f w x o =
      retarget (w.key_same x o) (w.base_same x o) (w.writes x o)
        (created_Result w.now (w.input x o) (w.base x o))

  write-has :
      (f : A → Outbox → Written) (w : Writer key f) (k : Text) (x : A) (o : Outbox)
      → any (has_key k) o.deliveries ≡ true
      → any (has_key k) (written (f x o)).deliveries ≡ true
  write-has f w k x o h = elim (write_Result f w x o) [
    | wide broad p e same ↦ rw (e, same) h
    | there fits p e has grows stays ↦ rw e (grows k h)
  ]

  pub Covered-after :
      (f : A → Outbox → Written) (w : Writer key f) (xs : List A) (o : Outbox)
      → Covered (map key xs) (written (for_each f xs o)).deliveries
  unfolding for_each
  Covered-after f w [] o = tt
  Covered-after f w (x ∷ xs) o = elim (write_Result f w x o) [
    | wide broad p e same ↦ inl broad
    | there fits p e has grows stays ↦ rw e (
        inr (
          for_each-Keeps (λ (q : Outbox). any (has_key (key x)) q.deliveries ≡ true) f xs
              (write-has f w (key x)) p has,
          Covered-after f w xs p,
        ))
  ]

  pub Covered-same :
      (f : A → Outbox → Written) (w : Writer key f) (xs : List A) (o : Outbox)
      → Covered (map key xs) o.deliveries
      → (written (for_each f xs o)).deliveries ≡ o.deliveries
  unfolding for_each
  Covered-same f w [] o c = refl
  Covered-same f w (x ∷ xs) o c = elim (write_Result f w x o) [
    | wide broad p e same ↦ rw e same
    | there fits p e has grows stays ↦ elim c [
      | inl broad ↦ absurd (ground (arith, broad, fits))
      | inr (old, rest) ↦
          let still = stays old in
          rw e (
            Covered-same f w xs p
              (subst (λ (ds : List Notice). Covered (map key xs) ds) (sym still) rest)
            ∙ still)
    ]
  ]

  -- Where no key is too wide, every element has its row.
  pub Covered-has :
      (xs : List A) (ds : List Notice) {x : A}
      → ((y : A) → ltb key_width (length (key y)) ≡ false)
      → Covered (map key xs) ds
      → Memᴰ x xs
      → any (has_key (key x)) ds ≡ true
  Covered-has [] ds fits c at = elim at [ ]
  Covered-has (y ∷ ys) ds fits (inl broad) at = absurd (ground (arith, broad, fits y))
  Covered-has (y ∷ ys) ds fits (inr (old, rest)) (Memᴰ.head e) =
      subst (λ (z : A). any (has_key (key z)) ds ≡ true) (sym e) old
  Covered-has (y ∷ ys) ds fits (inr (old, rest)) (Memᴰ.tail at) = Covered-has ys ds fits rest at

pub Covered-grows :
    (ks : List Text) (ds es : List Notice)
    → ((l : Text) → any (has_key l) ds ≡ true → any (has_key l) es ≡ true)
    → Covered ks ds
    → Covered ks es
Covered-grows [] ds es grow c = tt
Covered-grows (k ∷ ks) ds es grow (inl broad) = inl broad
Covered-grows (k ∷ ks) ds es grow (inr (old, rest)) =
    inr (grow k old, Covered-grows ks ds es grow rest)

pub created_grows :
    (now : ℕ) (input : NewDelivery) (o : Outbox) (l : Text)
    → any (has_key l) o.deliveries ≡ true
    → any (has_key l) (written (attempt o (create_delivery o now input))).deliveries ≡ true
created_grows now input o l h = elim (created_Result now input o) [
  | wide broad p e same ↦ rw (e, same) h
  | there fits p e has grows stays ↦ rw e (grows l h)
]
