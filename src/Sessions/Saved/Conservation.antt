-- ===== src/Sessions/Saved/Conservation.antt =====
-- Moving a session keeps it (crates/openbc-ui-qt/cpp/home/session_history.h).
use open_bc.Prelude.{
  ℕ, ◌+◌, Bool, true, false, Option, some, none, List, [], ◌∷◌, ◌++◌, Text, is_empty, same, length,
  get_elem?, if◌then◌else◌, ◌≡◌, refl, sym, ap, ◌∙◌, arith, Bool-cases, inl, inr,
}
use open_bc.Prelude.Qt.{Qt}
use open_bc.Sessions.{Entry, Clock, Files, read_array, Index, checked, remove_at}
use open_bc.Sessions.Names.{clean_node_name}
use open_bc.Sessions.Recent.{remove_recent, remove_from, remove_checked, write_history}
use open_bc.Sessions.Saved.Counting.{
  matching, one, matching-append, matching-∷, matching-remove_at, matching-saved_entry, same-flip,
  write_array-writable, set_node-same, set_node-other, entry_at-checked, no_entry,
}
use open_bc.Sessions.Saved.{
  set_node, saved_entry, save, load_saved, remove_saved, remove_saved_at, move_source,
  remove_source, entry_at, move_entry, move_session,
}

-- What the two files of a move hold that passes the test.
pub held : Qt → (Text → Text → Text → Bool) → Bool → Text → Text → Files → ℕ
held qt p saved source target f =
    matching p (move_source qt saved source f) + matching p (read_array (f.saved target))

module _ (qt : Qt) (clock : Clock) where
  save-writable :
      (source : Entry) (target label : Text) (files : Files)
      → clean_node_name qt target ≡ target
      → is_empty target ≡ false
      → files.saved_writable target ≡ true
      → save qt clock source target label files ≡ record files {
        saved =
            set_node target
              (read_array (files.saved target) ++ saved_entry qt clock source label ∷ [])
              files.saved;
      }
  unfolding save
  save-writable source target label files c n w = rw (c, n) (write_array-writable target _ files w)

  module _ (p : Text → Text → Text → Bool) (files : Files)
      (all : (n : Text) → files.saved_writable n ≡ true) where
    -- The target's list after `save`.
    appended : Text → Entry → Text → List Entry
    appended target e label = read_array (files.saved target) ++ saved_entry qt clock e label ∷ []

    matching-appended :
        (target : Text) (e : Entry) (label : Text)
        → matching p (appended target e label)
          ≡ matching p (read_array (files.saved target)) + one p e
    unfolding appended one matching
    matching-appended target e label = omega (
      arith,
      matching-append p (read_array (files.saved target)) (saved_entry qt clock e label ∷ []),
      matching-∷ p (saved_entry qt clock e label) [],
      matching-saved_entry p qt clock e label,
    )

    -- The files after a move between two nodes.
    swapped : Text → Text → ℕ → Entry → Text → Option (List Entry)
    swapped node target i e =
        set_node node (remove_at i (read_array (files.saved node)))
          (set_node target (appended target e e.label) files.saved)

    matching-swapped :
        (node target : Text) (i : ℕ) (e : Entry)
        → same node target ≡ false
        → get_elem? (read_array (files.saved node)) i ≡ some e
        → matching p (read_array (swapped node target i e node))
            + matching p (read_array (swapped node target i e target))
          ≡ matching p (read_array (files.saved node))
            + matching p (read_array (files.saved target))
    unfolding swapped read_array
    matching-swapped node target i e apart found =
        rw
          (
            set_node-same node (remove_at i (read_array (files.saved node)))
                (set_node target (appended target e e.label) files.saved),
            set_node-other node target (remove_at i (read_array (files.saved node)))
                (set_node target (appended target e e.label) files.saved)
                (same-flip node target apart),
            set_node-same target (appended target e e.label) files.saved,
          )
          (omega (
            arith,
            matching-appended target e e.label,
            (matching-remove_at p i (read_array (files.saved node)) e found).1,
          ))

    remove_saved-writable :
        (source : Text) (index : Index) (i : ℕ) (e : Entry) (target : Text)
        → same (clean_node_name qt source) target ≡ false
        → checked index (length (read_array (files.saved (clean_node_name qt source)))) ≡ some i
        → remove_saved qt source index
            (record files { saved = set_node target (appended target e e.label) files.saved })
          ≡ record files { saved = swapped (clean_node_name qt source) target i e }
    unfolding remove_saved remove_saved_at swapped
    remove_saved-writable source index i e target apart inside =
        rw
          (
            set_node-other target (clean_node_name qt source) (appended target e e.label)
                files.saved apart,
            inside,
          )
          (write_array-writable (clean_node_name qt source)
            (remove_at i (read_array (files.saved (clean_node_name qt source)))) _
            (all (clean_node_name qt source)))

    moved_from_saved :
        (source : Text) (index : Index) (e : Entry) (target : Text)
        → clean_node_name qt target ≡ target
        → is_empty target ≡ false
        → same (clean_node_name qt source) target ≡ false
        → entry_at index (load_saved qt source files) ≡ some e
        → held qt p true source target
            (remove_source qt true source index (save qt clock e target e.label files))
          ≡ held qt p true source target files
    unfolding held remove_source move_source load_saved appended
    moved_from_saved source index e target c n apart found =
        let (i, inside, there) =
          entry_at-checked index (read_array (files.saved (clean_node_name qt source))) e found in
        rw
          (
            save-writable e target e.label files c n (all target),
            remove_saved-writable source index i e target apart inside,
          )
          (matching-swapped (clean_node_name qt source) target i e apart there)

    remove_recent-writable :
        (index : Index) (i : ℕ) (es : List Entry) (g : Text → Option (List Entry))
        → files.history_writable ≡ true
        → files.history ≡ some es
        → checked index (length es) ≡ some i
        → remove_recent index (record files { saved = g })
          ≡ record files { saved = g; history = some (remove_at i es) }
    unfolding remove_recent remove_from remove_checked write_history
    remove_recent-writable index i es g w h inside = rw (h, inside, w) refl

    matching-removed :
        (i : ℕ) (es : List Entry) (e : Entry) (target : Text)
        → files.history ≡ some es
        → get_elem? es i ≡ some e
        → matching p (remove_at i es)
            + matching p
                (read_array (set_node target (appended target e e.label) files.saved target))
          ≡ matching p (read_array files.history) + matching p (read_array (files.saved target))
    unfolding read_array
    matching-removed i es e target h there =
        rw (set_node-same target (appended target e e.label) files.saved) (
          omega (
            arith,
            matching-appended target e e.label,
            (matching-remove_at p i es e there).1,
            ap (λ (o : Option (List Entry)). matching p (read_array o)) h,
          ))

    moved_from_recent :
        (source : Text) (index : Index) (e : Entry) (target : Text)
        → files.history_writable ≡ true
        → clean_node_name qt target ≡ target
        → is_empty target ≡ false
        → entry_at index (read_array files.history) ≡ some e
        → held qt p false source target
            (remove_source qt false source index (save qt clock e target e.label files))
          ≡ held qt p false source target files
    unfolding held remove_source move_source appended read_array
    moved_from_recent source index e target w c n found = go files.history refl
      where
        go :
            (o : Option (List Entry))
            → files.history ≡ o
            → held qt p false source target
                (remove_recent index (save qt clock e target e.label files))
              ≡ held qt p false source target files
        go none h = no_entry index e (sym (ap (λ o. entry_at index (read_array o)) h) ∙ found)
        go (some es) h =
            let (i, inside, there) =
              entry_at-checked index es e
                (sym (ap (λ o. entry_at index (read_array o)) h) ∙ found) in
            rw
              (
                save-writable e target e.label files c n (all target),
                remove_recent-writable index i es _ w h inside,
              )
              (matching-removed i es e target h there)

    moved_entry :
        (saved : Bool) (source : Text) (index : Index) (target : Text) (o : Option Entry)
        → files.history_writable ≡ true
        → clean_node_name qt target ≡ target
        → is_empty target ≡ false
        → entry_at index (move_source qt saved source files) ≡ o
        → held qt p saved source target (move_entry qt o clock saved source index target files).0
          ≡ held qt p saved source target files
    unfolding move_entry move_source
    moved_entry saved source index target none w c n found = refl
    moved_entry false source index target (some e) w c n found =
        moved_from_recent source index e target w c n found
    moved_entry true source index target (some e) w c n found =
        elim (Bool-cases (same (clean_node_name qt source) target)) [
          | inl alike ↦ rw alike refl
          | inr apart ↦ rw apart (moved_from_saved source index e target c n apart found)
        ]

-- Moving a session to a node whose name is clean keeps the number of sessions of every kind and
-- pair of paths in the two files together, if the files can be written.
pub move_session-held :
    (qt : Qt) (clock : Clock) (p : Text → Text → Text → Bool) (files : Files) (saved : Bool)
    (source : Text) (index : Index) (target : Text)
    → ((n : Text) → files.saved_writable n ≡ true)
    → files.history_writable ≡ true
    → clean_node_name qt target ≡ target
    → held qt p saved source target (move_session qt clock saved source index target files).0
      ≡ held qt p saved source target files
unfolding move_session
move_session-held qt clock p files saved source index target all w c =
    rw c (go (is_empty target) refl)
  where
    go :
        (b : Bool)
        → is_empty target ≡ b
        → held qt p saved source target
            (if b
              then (files, false)
              else move_entry qt
                  (entry_at index (move_source qt saved source files))
                  clock
                  saved
                  source
                  index
                  target
                  files).0
          ≡ held qt p saved source target files
    go true n = refl
    go false n =
        moved_entry qt clock p files all saved source index target
          (entry_at index (move_source qt saved source files)) w c n refl
