-- ===== src/ContextMenu/Lingering.antt =====
-- No menu entry outlives the selection it was made for
-- (crates/openbc-ui-qt/cpp/app/context_menu_state.cpp).
use open_bc.Prelude.{
  ℕ, ◌+◌, ◌≤◌, Bool, true, false, ◌||◌, negate, none, List, [], ◌∷◌, ◌++◌, Text, is_empty, length,
  length-append, select, select-append, if◌then◌else◌, ◌≡◌, refl, arith, Bool-cases, inl, inr,
}
use open_bc.Prelude.Qt.{Qt}
use open_bc.Files.SessionKind.Canonical.{if_both}
use open_bc.ContextMenu.{
  Kind, Script, Desktop, Host, State, is_compare_link, remove_compare_scripts, link, has_script,
  publish_script, publish, folder_menu_after, file_menu_after, unpublish, clear, set_left,
  purge_stale, is_set, select_script,
}

-- How many "Compare To" links Nautilus shows.
pub links : List Script → ℕ
links scripts = length (select is_compare_link scripts)

links-remove : (scripts : List Script) → links (remove_compare_scripts scripts) ≡ 0
unfolding links remove_compare_scripts
links-remove [] = refl
links-remove (s ∷ ss) = elim (Bool-cases (is_compare_link s)) [
  | inl e ↦ rw e (links-remove ss)
  | inr e ↦ rw (e, e) (links-remove ss)
]

links_one : (s : Script) → links (s ∷ []) ≤ 1
unfolding links
links_one s = elim (Bool-cases (is_compare_link s)) [
  | inl e ↦ rw e (omega arith)
  | inr e ↦ rw e (omega arith)
]

links-append : (xs ys : List Script) → links (xs ++ ys) ≡ links xs + links ys
unfolding links
links-append xs ys =
    rw (select-append is_compare_link xs ys)
      (length-append (select is_compare_link xs) (select is_compare_link ys))

links-link :
    (name : Text) (scripts : List Script) → links scripts ≡ 0 → links (link name scripts) ≤ 1
unfolding link
links-link name scripts h =
    if_both (λ l. links l ≤ 1) (has_script name scripts) (omega (arith, h))
      (omega (
        arith,
        h,
        links-append scripts (record { name = name; is_sym_link = true } ∷ []),
        links_one (record { name = name; is_sym_link = true }),
      ))

links-publish :
    (qt : Qt) (host : Host) (kind : Kind) (path : Text) (scripts : List Script)
    → links (publish_script qt host kind path scripts) ≤ 1
unfolding publish_script
links-publish qt host kind path scripts =
    if_both (λ l. links l ≤ 1) (has_script (select_script kind) (remove_compare_scripts scripts))
      (links-link _ (remove_compare_scripts scripts) (links-remove scripts))
      (omega (arith, links-remove scripts))

-- What is on the desktop for a selection: nothing at all if there is none, else no menu of the other
-- kind and at most one link.
pub Agrees : Kind → Desktop → Type 0
Agrees Kind.nothing d =
    (d.state_file ≡ none) × (d.folder_menu ≡ none) × (d.file_menu ≡ none) × (links d.scripts ≡ 0)
Agrees Kind.folder d = (d.file_menu ≡ none) × (links d.scripts ≤ 1)
Agrees Kind.file d = (d.folder_menu ≡ none) × (links d.scripts ≤ 1)

unpublish-Agrees : (d : Desktop) → Agrees Kind.nothing (unpublish d)
unfolding Agrees unpublish
unpublish-Agrees d = (refl, refl, refl, links-remove d.scripts)

clear-Agrees : (s : State) → Agrees s.kind s.desktop → Agrees (clear s).kind (clear s).desktop
unfolding clear
clear-Agrees s a = go s.kind a
  where
    go :
        (k : Kind)
        → Agrees k s.desktop
        → Agrees Kind.nothing (if is_set k then unpublish s.desktop else s.desktop)
    go Kind.nothing b = b
    go Kind.folder b = unpublish-Agrees s.desktop
    go Kind.file b = unpublish-Agrees s.desktop

publish-Agrees :
    (qt : Qt) (host : Host) (kind : Kind) (path : Text) (d : Desktop)
    → is_set kind ≡ true
    → Agrees kind (publish qt host kind path d)
unfolding Agrees publish is_set folder_menu_after file_menu_after
publish-Agrees qt host Kind.nothing path d h = cc
publish-Agrees qt host Kind.folder path d h =
    (refl, links-publish qt host Kind.folder path d.scripts)
publish-Agrees qt host Kind.file path d h = (refl, links-publish qt host Kind.file path d.scripts)

set_left-Agrees :
    (qt : Qt) (host : Host) (kind : Kind) (path : Text) (s : State)
    → Agrees s.kind s.desktop
    → Agrees (set_left qt host kind path s).kind (set_left qt host kind path s).desktop
unfolding set_left
set_left-Agrees qt host kind path s a = go _ refl
  where
    go :
        (b : Bool)
        → (negate (is_set kind) || is_empty path) ≡ b
        → Agrees
            (if b then clear s else record {
              kind = kind;
              path = path;
              desktop = publish qt host kind path s.desktop;
            }).kind
            (if b then clear s else record {
              kind = kind;
              path = path;
              desktop = publish qt host kind path s.desktop;
            }).desktop
    go true e = clear-Agrees s a
    go false e = publish-Agrees qt host kind path s.desktop (ground (arith, e))

-- What a file manager asks for.
pub data Request : Type 0 where
  selected : Kind → Text → Request
  cleared : Request

pub handle : Qt → Host → Request → State → State
handle qt host (selected kind path) s = set_left qt host kind path s
handle qt host cleared s = clear s

pub handle_all : Qt → Host → List Request → State → State
handle_all qt host [] s = s
handle_all qt host (r ∷ rs) s = handle_all qt host rs (handle qt host r s)

handle_all-Agrees :
    (qt : Qt) (host : Host) (rs : List Request) (s : State)
    → Agrees s.kind s.desktop
    → Agrees (handle_all qt host rs s).kind (handle_all qt host rs s).desktop
unfolding handle_all handle
handle_all-Agrees qt host [] s a = a
handle_all-Agrees qt host (selected kind path ∷ rs) s a =
    handle_all-Agrees qt host rs (set_left qt host kind path s)
      (set_left-Agrees qt host kind path s a)
handle_all-Agrees qt host (cleared ∷ rs) s a =
    handle_all-Agrees qt host rs (clear s) (clear-Agrees s a)

-- Whatever an earlier run left on the desktop, once it is purged at the start and whatever is then
-- selected and cleared, the desktop agrees with the selection: nothing is left if there is none,
-- else no menu of the other kind and at most one link.
pub purged-Agrees :
    (qt : Qt) (host : Host) (rs : List Request) (d : Desktop)
    → Agrees
        (handle_all qt host rs
          (purge_stale (record { kind = Kind.nothing; path = []; desktop = d }))).kind
        (handle_all qt host rs
          (purge_stale (record { kind = Kind.nothing; path = []; desktop = d }))).desktop
purged-Agrees qt host rs d =
    handle_all-Agrees qt host rs
      (purge_stale (record { kind = Kind.nothing; path = []; desktop = d }))
      (unfold purge_stale in unpublish-Agrees d)
