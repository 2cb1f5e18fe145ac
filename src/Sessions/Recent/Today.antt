-- ===== src/Sessions/Recent/Today.antt =====
-- When a session that was just recorded counts as one of today
-- (crates/openbc-ui-qt/cpp/home/session_history.h).
use open_bc.Prelude.{
  ℕ, ◌≤◌, true, false, some, List, ◌∷◌, Text, take, same_refl, ◌≡◌, refl, arith, Bool-cases, inl,
  inr, leb, le→leb, ap,
}
use open_bc.Prelude.Qt.{Qt}
use open_bc.Sessions.{Entry, Clock, Files, read_array, bucket_for}
use open_bc.Sessions.Recent.{
  max_entries, record_session, write_history, any_duplicate, is_duplicate, is_today, new_entry,
}

is_today-bucket_for : (local day : ℕ) → is_today (bucket_for local (some day)) ≡ leb local day
unfolding is_today bucket_for
is_today-bucket_for local day = ground arith

recorded-is_duplicate :
    (qt : Qt) (clock : Clock) (kind left right : Text)
    → is_duplicate clock.local_day kind left right (new_entry qt clock kind left right)
      ≡ leb clock.local_day clock.utc_day
unfolding is_duplicate new_entry
recorded-is_duplicate qt clock kind left right = simp (same_refl, is_today-bucket_for)

-- What is on top of the history after a session was recorded that was not there.
recorded-history :
    (qt : Qt) (clock : Clock) (kind left right : Text) (files : Files)
    → files.history_writable ≡ true
    → any_duplicate clock.local_day kind left right (read_array files.history) ≡ false
    → record_session qt clock kind left right files ≡ record files {
      history =
          some (take max_entries (new_entry qt clock kind left right ∷ read_array files.history));
    }
unfolding record_session write_history
recorded-history qt clock kind left right files w fresh = rw (fresh, w)

recorded-any_duplicate :
    (qt : Qt) (clock : Clock) (kind left right : Text) (entries : List Entry)
    → clock.local_day ≤ clock.utc_day
    → any_duplicate clock.local_day kind left right
        (take max_entries (new_entry qt clock kind left right ∷ entries))
      ≡ true
unfolding any_duplicate
recorded-any_duplicate qt clock kind left right entries days =
    rw (recorded-is_duplicate qt clock kind left right, le→leb clock.local_day clock.utc_day days)
      refl

record_session-kept :
    (qt : Qt) (clock : Clock) (kind left right : Text) (files : Files)
    → any_duplicate clock.local_day kind left right (read_array files.history) ≡ true
    → record_session qt clock kind left right files ≡ files
unfolding record_session
record_session-kept qt clock kind left right files there = rw there

recorded-there :
    (qt : Qt) (clock : Clock) (kind left right : Text) (files : Files)
    → files.history_writable ≡ true
    → clock.local_day ≤ clock.utc_day
    → any_duplicate clock.local_day kind left right (read_array files.history) ≡ false
    → any_duplicate clock.local_day kind left right
        (read_array (record_session qt clock kind left right files).history)
      ≡ true
unfolding read_array
recorded-there qt clock kind left right files w days fresh =
    rw (recorded-history qt clock kind left right files w fresh)
      (recorded-any_duplicate qt clock kind left right (read_array files.history) days)

-- Recording the same session a second time on the same day changes nothing, whatever the history
-- holds, as long as the history can be written and the UTC day is not behind the local one.
pub record_session_once :
    (qt : Qt) (clock : Clock) (kind left right : Text) (files : Files)
    → files.history_writable ≡ true
    → clock.local_day ≤ clock.utc_day
    → record_session qt clock kind left right (record_session qt clock kind left right files)
      ≡ record_session qt clock kind left right files
record_session_once qt clock kind left right files w days =
    elim (Bool-cases (any_duplicate clock.local_day kind left right (read_array files.history))) [
      | inl there ↦
          ap (record_session qt clock kind left right)
            (record_session-kept qt clock kind left right files there)
      | inr fresh ↦
          record_session-kept qt clock kind left right
            (record_session qt clock kind left right files)
            (recorded-there qt clock kind left right files w days fresh)
    ]
