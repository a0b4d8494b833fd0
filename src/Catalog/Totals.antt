-- ===== src/Catalog/Totals.antt =====
-- The totals of a resolved selection.
use werefa.Prelude.{
  ℕ, ◌+◌, ◌<◌, ◌≡◌, refl, Option, none, some, List, [], ◌∷◌, ◌++◌, arith, ◌==◌, ◌&&◌, any, select,
  length,
}
use werefa.Errors.{Result, ok, err}
use werefa.Store.{Text, text_eq, ComponentType, variation, add_on, ComponentSnapshot}
use werefa.Booking.Transactions.{Ensures, returns, throws, checked, Ensures-ok}
use werefa.Catalog.{
  Extra, Service, Selection, Resolved, nothing_yet, push, service_snapshot, extra_snapshot,
  push_all, add_extras, by_id, add_more, with_duration, add_selection, add_selections,
  validate_combinations,
}

abbrev price_of : List ComponentSnapshot → ℕ
price_of [] = 0
price_of (c ∷ cs) = c.unit_price_minor + price_of cs

abbrev duration_of : List ComponentSnapshot → ℕ
duration_of [] = 0
duration_of (c ∷ cs) = c.duration_minutes + duration_of cs

price_of-push :
    (cs : List ComponentSnapshot) (c : ComponentSnapshot)
    → price_of (cs ++ c ∷ []) ≡ price_of cs + c.unit_price_minor
price_of-push [] c = omega arith
price_of-push (d ∷ cs) c = ground (arith, price_of-push cs c)

duration_of-push :
    (cs : List ComponentSnapshot) (c : ComponentSnapshot)
    → duration_of (cs ++ c ∷ []) ≡ duration_of cs + c.duration_minutes
duration_of-push [] c = omega arith
duration_of-push (d ∷ cs) c = ground (arith, duration_of-push cs c)

-- The totals are the sums over the components.
pub record IsTotal (r : Resolved) : Type 0 where
  pub price : r.total_price_minor ≡ price_of r.components
  pub duration : r.total_duration_minutes ≡ duration_of r.components

push-IsTotal : (c : ComponentSnapshot) (r : Resolved) → IsTotal r → IsTotal (push c r)
push-IsTotal c r t = record {
  price = ground (arith, t.price, price_of-push r.components c);
  duration = ground (arith, t.duration, duration_of-push r.components c);
}

push_all-IsTotal :
    (type : ComponentType) (xs : List Extra) (r : Resolved)
    → IsTotal r
    → IsTotal (push_all type xs r)
unfolding push_all
push_all-IsTotal type [] r t = t
push_all-IsTotal type (x ∷ xs) r t =
    push_all-IsTotal type xs (push (extra_snapshot type x) r)
      (push-IsTotal (extra_snapshot type x) r t)

add_extras-IsTotal :
    (type : ComponentType) (ids : List Text) (xs : List Extra) (r : Resolved)
    → IsTotal r
    → Ensures IsTotal (add_extras type ids xs r)
unfolding add_extras
add_extras-IsTotal type [] xs r t = returns t
add_extras-IsTotal type (i ∷ ids) xs r t =
    let chosen = select (λ (x : Extra). x.active && any (text_eq x.id) (i ∷ ids)) xs in
    checked (length chosen == length (i ∷ ids)) (λ _. returns (push_all-IsTotal type chosen r t))
      (λ _. throws)

add_more-IsTotal :
    (type : ComponentType) (ids : List Text) (xs : List Extra) (r : Result Resolved)
    → Ensures IsTotal r
    → Ensures IsTotal (add_more type ids xs r)
unfolding add_more
add_more-IsTotal type ids xs (err e) en = throws
add_more-IsTotal type ids xs (ok r) (returns t) = add_extras-IsTotal type ids xs r t

-- What holds after each selection: the totals fit, and there is some duration.
record IsSound (r : Resolved) : Type 0 where
  total : IsTotal r
  some_duration : 0 < r.total_duration_minutes

with_duration-IsSound :
    (r : Result Resolved) → Ensures IsTotal r → Ensures IsSound (with_duration r)
unfolding with_duration
with_duration-IsSound (err e) en = throws
with_duration-IsSound (ok r) (returns t) =
    checked (r.total_duration_minutes == 0) (λ _. throws)
      (λ long. returns (record { total = t; some_duration = ground (arith, long) }))

add_selection-IsSound :
    (s : Option Service) (sel : Selection) (r : Resolved)
    → IsTotal r
    → Ensures IsSound (add_selection s sel r)
unfolding add_selection
add_selection-IsSound none sel r t = throws
add_selection-IsSound (some s) sel r t = with_duration-IsSound _ (
    add_more-IsTotal add_on sel.add_on_ids s.add_ons _ (
      add_more-IsTotal variation sel.variation_ids s.variations _
        (returns (push-IsTotal (service_snapshot s) r t))))

add_selections-IsSound :
    (services : List Service) (n : ℕ) (sels : List Selection) (r : Result Resolved)
    → Ensures IsSound r
    → Ensures IsSound (add_selections services n sels r)
unfolding add_selections
add_selections-IsSound services n sels (err e) en = throws
add_selections-IsSound services n [] (ok r) en = en
add_selections-IsSound services n (sel ∷ sels) (ok r) (returns v) =
    add_selections-IsSound services n sels _
      (add_selection-IsSound (by_id services n sel.service_id) sel r v.total)

validated-IsSound :
    (services : List Service) (n : ℕ) (sel : Selection) (sels : List Selection)
    → Ensures IsSound (validate_combinations services n (sel ∷ sels))
unfolding validate_combinations add_selections
validated-IsSound services n sel sels = add_selections-IsSound services n sels _ (
    add_selection-IsSound (by_id services n sel.service_id) sel nothing_yet
      (record { price = refl; duration = refl }))

-- When the catalog resolves a non-empty choice of services, the totals are the sums of the prices and
-- of the durations of the resolved components, and the duration is not zero.
pub validate_combinations-IsTotal :
    (services : List Service) (n : ℕ) (sel : Selection) (sels : List Selection) (r : Resolved)
    → validate_combinations services n (sel ∷ sels) ≡ ok r
    → IsTotal r × (0 < r.total_duration_minutes)
validate_combinations-IsTotal services n sel sels r e =
    let v = Ensures-ok (validated-IsSound services n sel sels) e in (v.total, v.some_duration)
