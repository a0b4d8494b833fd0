-- ===== src/Notices/Tapping.antt =====
-- The token of a button works once, on whichever button and from whatever chat.
use werefa.Notices.{Outbox, Callback, Connection}
use werefa.Notices.Taps.{
  TapDesk, claim_callback, accept_tap, TapOutcome, start_reject, refused_tap, is_open, claim_row,
  claim_found, answered, accept_claimed, may_tap, connection_of, reject_claimed, use_callback,
}
use werefa.Prelude.{
  ℕ, ◌≡◌, ◌≢◌, refl, Option, none, some, ◌==◌, arith, Bool-cases, inl, inr, find_first,
  find_first-cleared, count_where,
}
use werefa.Errors.{Result, ok, err}
use werefa.Booking.World.{World, Reply}

pub data Button : Type 0 where
  accepts rejects : Button

-- A tap on one of the two buttons.
unfoldable pub tap : Button → TapDesk → ℕ → ℕ → ℕ → TapDesk × Result TapOutcome
tap accepts d id chat_id now = accept_tap d id chat_id now
tap rejects d id chat_id now = start_reject d id chat_id now

-- A claim that succeeds leaves no open callback of the id.
data Claimed (id : ℕ) (o : Outbox) (r : Option (Callback × Connection) × Outbox) : Type 0 where
  missed : r ≡ (none, o) → Claimed id o r
  taken :
      (x : Callback × Connection) (next : Outbox)
      → r ≡ (some x, next)
      → find_first (is_open id) next.callbacks ≡ none
      → Claimed id o r

claim_row-Claimed :
    (o : Outbox) (id chat_id now : ℕ) (row : Callback) (c : Option Connection)
    → Claimed id o (claim_row o id chat_id now row c)
unfolding claim_row
claim_row-Claimed o id chat_id now row none = missed refl
claim_row-Claimed o id chat_id now row (some c) = elim (Bool-cases (may_tap chat_id row c)) [
  | inr barred ↦ rw barred (missed refl)
  | inl may ↦ elim (Bool-cases (count_where (is_open id) o.callbacks == 0)) [
    | inl gone ↦ rw (may, gone) (missed refl)
    | inr there ↦
        rw (may, there)
          (taken (row, c) (use_callback id now o) refl
            (find_first-cleared (is_open id) _ o.callbacks (λ y h. ground arith)))
  ]
]

claim-Claimed : (o : Outbox) (id chat_id now : ℕ) → Claimed id o (claim_callback o id chat_id now)
unfolding claim_callback claim_found
claim-Claimed o id chat_id now = found (find_first (is_open id) o.callbacks)
  where
    found : (row : Option Callback) → Claimed id o (claim_found o id chat_id now row)
    found none = missed refl
    found (some row) = claim_row-Claimed o id chat_id now row (connection_of o row.connection_id)

claim_none :
    (o : Outbox) (id chat_id now : ℕ)
    → find_first (is_open id) o.callbacks ≡ none
    → claim_callback o id chat_id now ≡ (none, o)
unfolding claim_callback claim_found
claim_none o id chat_id now e = rw e refl

-- Once no callback of the id is open, a tap is refused and changes nothing.
tap_closed :
    (b : Button) (d : TapDesk) (id chat_id now : ℕ)
    → find_first (is_open id) d.outbox.callbacks ≡ none
    → tap b d id chat_id now ≡ (d, ok refused_tap)
unfolding tap accept_tap start_reject
tap_closed accepts d id chat_id now e = rw (claim_none d.outbox id chat_id now e) refl
tap_closed rejects d id chat_id now e = rw (claim_none d.outbox id chat_id now e) refl

answered-outbox : (d : TapDesk) (r : World × Result Reply) → (answered d r).0.outbox ≡ d.outbox
unfolding answered
answered-outbox d (w, ok reply) = refl
answered-outbox d (w, err e) = refl

tap_closes :
    (b : Button) (d : TapDesk) (id chat_id now : ℕ)
    → (tap b d id chat_id now).1 ≢ ok refused_tap
    → find_first (is_open id) (tap b d id chat_id now).0.outbox.callbacks ≡ none
unfolding tap accept_tap start_reject accept_claimed reject_claimed
tap_closes accepts d id chat_id now acted = elim (claim-Claimed d.outbox id chat_id now) [
  | missed e ↦ absurd (acted (rw e refl))
  | taken (row, c) next e closed ↦ rw e (rw (answered-outbox (record d { outbox = next }) _) closed)
]
tap_closes rejects d id chat_id now acted = elim (claim-Claimed d.outbox id chat_id now) [
  | missed e ↦ absurd (acted (rw e refl))
  | taken (row, c) next e closed ↦ rw e closed
]

-- Once a tap was not refused, be it that the booking service then threw, any later tap with the same
-- token is refused and changes nothing, on either button and from whatever chat.
pub tap_again :
    (first second : Button) (d : TapDesk) (id chat_id now other later : ℕ)
    → (tap first d id chat_id now).1 ≢ ok refused_tap
    → tap second (tap first d id chat_id now).0 id other later
      ≡ ((tap first d id chat_id now).0, ok refused_tap)
tap_again first second d id chat_id now other later acted =
    tap_closed second (tap first d id chat_id now).0 id other later
      (tap_closes first d id chat_id now acted)
