-- ===== src/Sessions/Recent/Bounds.antt =====
-- The history file stays small (crates/openbc-ui-qt/cpp/home/session_history.h).
use open_bc.Prelude.{
  ℕ, zero, suc, ◌≤◌, Option, some, none, List, [], ◌∷◌, Text, length, take, is_empty, ◌≡◌, refl,
  arith, Bool-cases, inl, inr,
}
use open_bc.Prelude.Qt.{Qt}
use open_bc.Sessions.{Entry, Clock, Files, read_array, Index, remove_at, replace_at}
use open_bc.Sessions.Recent.{
  max_entries, new_entry, record_session, remove_recent, rename_recent, write_history,
  any_duplicate, relabel, remove_checked, remove_from, rename_checked, rename_from,
}

unfoldable pub IsBounded : Files → Type 0
unfolding read_array
IsBounded files = length (read_array files.history) ≤ max_entries

length-take-le {ℓ} : {A : Type ℓ} (n : ℕ) (l : List A) → length (take n l) ≤ n
length-take-le zero l = omega arith
length-take-le (suc n) [] = omega arith
length-take-le (suc n) (x ∷ l) = omega (arith, length-take-le n l)

length-remove_at {ℓ} : {A : Type ℓ} (i : ℕ) (l : List A) → length (remove_at i l) ≤ length l
unfolding remove_at
length-remove_at i [] = omega arith
length-remove_at zero (x ∷ l) = omega arith
length-remove_at (suc i) (x ∷ l) = omega (arith, length-remove_at i l)

length-replace_at {ℓ} :
    {A : Type ℓ} (i : ℕ) (f : A → A) (l : List A) → length (replace_at i f l) ≡ length l
unfolding replace_at
length-replace_at i f [] = refl
length-replace_at zero f (x ∷ l) = refl
length-replace_at (suc i) f (x ∷ l) = omega (arith, length-replace_at i f l)

write_history-IsBounded :
    (entries : List Entry) (files : Files)
    → length entries ≤ max_entries
    → IsBounded files
    → IsBounded (write_history entries files)
unfolding write_history IsBounded
write_history-IsBounded entries files h b = elim (Bool-cases files.history_writable) [
  | inl e ↦ rw e h
  | inr e ↦ rw e b
]

record-IsBounded :
    (qt : Qt) (clock : Clock) (kind left right : Text) (files : Files)
    → IsBounded files
    → IsBounded (record_session qt clock kind left right files)
unfolding record_session
record-IsBounded qt clock kind left right files b =
    elim (Bool-cases (any_duplicate clock.local_day kind left right (read_array files.history))) [
      | inl e ↦ rw e b
      | inr e ↦ rw e (
          write_history-IsBounded _ files
            (length-take-le {A = Entry} max_entries
              (new_entry qt clock kind left right ∷ read_array files.history))
            b)
    ]

remove_checked-IsBounded :
    (o : Option ℕ) (entries : List Entry) (files : Files)
    → length entries ≤ max_entries
    → IsBounded files
    → IsBounded (remove_checked o entries files)
unfolding remove_checked
remove_checked-IsBounded none entries files h b = b
remove_checked-IsBounded (some i) entries files h b =
    write_history-IsBounded (remove_at i entries) files (omega (arith, length-remove_at i entries))
      b

rename_checked-IsBounded :
    (label : Text) (o : Option ℕ) (entries : List Entry) (files : Files)
    → length entries ≤ max_entries
    → IsBounded files
    → IsBounded (rename_checked label o entries files)
unfolding rename_checked
rename_checked-IsBounded label none entries files h b = b
rename_checked-IsBounded label (some i) entries files h b = elim (Bool-cases (is_empty label)) [
  | inl e ↦ rw e b
  | inr e ↦ rw e (
      write_history-IsBounded (replace_at i (relabel label) entries) files
        (omega (arith, length-replace_at i (relabel label) entries)) b)
]

history-le :
    (files : Files) (entries : List Entry)
    → IsBounded files
    → files.history ≡ some entries
    → length entries ≤ max_entries
unfolding IsBounded read_array
history-le files entries b e = rw e at b

remove_from-IsBounded :
    (o : Option (List Entry)) (index : Index) (files : Files)
    → files.history ≡ o
    → IsBounded files
    → IsBounded (remove_from o index files)
unfolding remove_from
remove_from-IsBounded none index files e b = b
remove_from-IsBounded (some entries) index files e b =
    remove_checked-IsBounded _ entries files (history-le files entries b e) b

rename_from-IsBounded :
    (label : Text) (o : Option (List Entry)) (index : Index) (files : Files)
    → files.history ≡ o
    → IsBounded files
    → IsBounded (rename_from label o index files)
unfolding rename_from
rename_from-IsBounded label none index files e b = b
rename_from-IsBounded label (some entries) index files e b =
    rename_checked-IsBounded label _ entries files (history-le files entries b e) b

-- What the user can do to the recent sessions.
pub data Edit : Type 0 where
  opened : Clock → Text → Text → Text → Edit
  removed : Index → Edit
  renamed : Index → Text → Edit

pub apply_edit : Qt → Edit → Files → Files
apply_edit qt (opened clock kind left right) files = record_session qt clock kind left right files
apply_edit qt (removed index) files = remove_recent index files
apply_edit qt (renamed index label) files = rename_recent qt index label files

pub apply_edits : Qt → List Edit → Files → Files
apply_edits qt [] files = files
apply_edits qt (e ∷ es) files = apply_edits qt es (apply_edit qt e files)

apply_edit-IsBounded :
    (qt : Qt) (e : Edit) (files : Files) → IsBounded files → IsBounded (apply_edit qt e files)
unfolding apply_edit
apply_edit-IsBounded qt (opened clock kind left right) files b =
    record-IsBounded qt clock kind left right files b
apply_edit-IsBounded qt (removed index) files b =
    unfold remove_recent in remove_from-IsBounded files.history index files refl b
apply_edit-IsBounded qt (renamed index label) files b =
    unfold rename_recent in
    rename_from-IsBounded (qt.trimmed label) files.history index files refl b

-- However sessions are opened, removed and renamed, on whatever days, a history of at most 200
-- entries stays one.
pub apply_edits-IsBounded :
    (qt : Qt) (edits : List Edit) (files : Files)
    → IsBounded files
    → IsBounded (apply_edits qt edits files)
unfolding apply_edits
apply_edits-IsBounded qt [] files b = b
apply_edits-IsBounded qt (e ∷ es) files b =
    apply_edits-IsBounded qt es (apply_edit qt e files) (apply_edit-IsBounded qt e files b)
