-- ===== src/Notices/Reminders.antt =====
-- backend/src/domain/notifications/notification-delivery.service.ts: the reminders that fall due.
use werefa.Notices.Writes.{written}
use werefa.Prelude.{
  ℕ, ◌+◌, ◌-◌, ◌*◌, Bool, ◌&&◌, List, [], ◌∷◌, ◌++◌, leb, ltb, if◌then◌else◌, select,
}
use werefa.Store.{Booking, Db, confirmed, booking_state_is}
use werefa.Notices.{NoticeType, reminder_24h, reminder_1h, Outbox, NoticeConfig}
use werefa.Notices.Events.{write_booking_event}

abbrev hour_ms : ℕ
hour_ms = 3600000

-- The reminders that are due for a booking that starts after now.
unfoldable pub due_reminders : ℕ → ℕ → List NoticeType
due_reminders now start_at =
    let until_start = start_at - now in
    (if leb (23 * hour_ms) until_start && leb until_start (25 * hour_ms)
      then reminder_24h ∷ []
      else [])
    ++ (if leb until_start hour_ms then reminder_1h ∷ [] else [])

abbrev pub is_upcoming : ℕ → Booking → Bool
is_upcoming now b =
    booking_state_is b.status confirmed
    && (ltb now b.start_at && ltb b.start_at (now + 25 * hour_ms))

unfoldable pub remind_of : NoticeConfig → ℕ → Booking → List NoticeType → Outbox → Outbox
remind_of cfg now b [] o = o
remind_of cfg now b (t ∷ ts) o = remind_of cfg now b ts (
    written (
      write_booking_event cfg now
        (record {
          type = t;
          business_id = b.business_id;
          booking_id = b.id;
          customer_phone = b.customer_phone;
        })
        o))

unfoldable pub remind_each : NoticeConfig → ℕ → List Booking → Outbox → Outbox
unfolding due_reminders
remind_each cfg now [] o = o
remind_each cfg now (b ∷ bs) o =
    remind_each cfg now bs (remind_of cfg now b (due_reminders now b.start_at) o)

-- `writeDueReminders`
unfoldable pub write_due_reminders : NoticeConfig → ℕ → Db → Outbox → Outbox
unfolding remind_each remind_of
write_due_reminders cfg now db o = remind_each cfg now (select (is_upcoming now) db.bookings) o
