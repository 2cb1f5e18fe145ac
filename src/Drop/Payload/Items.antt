-- ===== src/Drop/Payload/Items.antt =====
-- What the items of a drop are (crates/openbc-ui-qt/cpp/common/drop_payload.h).
use open_bc.Viewers.{ViewerKind}
use open_bc.Files.Kinds.{classify_file_path}
use open_bc.Files.Sniff.{classify_local_file}
use open_bc.Prelude.{
  codes, ends_with, ℕ, suc, ◌+◌, ◌≤◌, Bool, true, false, ◌&&◌, negate, List, [], ◌∷◌, ◌++◌, Text,
  is_empty, one_of, length, length-append, if◌then◌else◌, ◌≡◌, refl, subst, arith,
}
use open_bc.Prelude.Qt.{Qt}
use open_bc.Files.Disk.{Disk}
use open_bc.Drop.Payload.{
  chop_slash, Url, invalid, local_file, other, Places, DroppedItem, Found, problem, add_item,
  add_folder, add_file, add_local, add_remote, add_url, add_urls, local_key, collect_urls,
}

-- A branch on a truth value, with what is known in each.
if_case {ℓ} :
    {A : Type 0} (P : A → Type ℓ) (b : Bool) {x y : A}
    → (b ≡ true → P x)
    → (b ≡ false → P y)
    → P (if b then x else y)
if_case P true t e = t refl
if_case P false t e = e refl

-- The URL is one of a list.
pub data IsDropped (u : Url) : List Url → Type 0 where
  first : {us : List Url} → IsDropped u (u ∷ us)
  later : {v : Url} {us : List Url} → IsDropped u us → IsDropped u (v ∷ us)

module _ (qt : Qt) (disk : Disk) (models : List Text) (places : Places) (urls : List Url) where
  -- The item that a dropped URL stands for, with the key by which it is told apart: a folder that may be
  -- read and entered, a file that may be read, or a remote path that a saved connection covers.
  pub data IsNamed : DroppedItem → Text → Type 0 where
    folder :
        (local : Text)
        → IsDropped (local_file local) urls
        → disk.exists local ≡ true
        → disk.is_dir local ≡ true
        → (disk.is_readable local && disk.is_executable local) ≡ true
        → IsNamed
            (record {
              path = disk.clean_absolute local;
              is_dir = true;
              remote = false;
              kind = ViewerKind.text;
            })
            (local_key qt disk models places local)
    file :
        (local : Text)
        → IsDropped (local_file local) urls
        → disk.exists local ≡ true
        → disk.is_dir local ≡ false
        → disk.is_file local ≡ true
        → disk.is_readable local ≡ true
        → IsNamed
            (record {
              path = disk.clean_absolute local;
              is_dir = false;
              remote = false;
              kind = classify_local_file qt disk models (disk.clean_absolute local);
            })
            (local_key qt disk models places local)
    remote_folder :
        (text : Text)
        → IsDropped (other text) urls
        → ends_with text (codes "/") ≡ true
        → places.is_remote_path (chop_slash text) ≡ true
        → IsNamed
            (record {
              path = chop_slash text;
              is_dir = true;
              remote = true;
              kind = ViewerKind.text;
            })
            (chop_slash text)
    remote_file :
        (text : Text)
        → IsDropped (other text) urls
        → ends_with text (codes "/") ≡ false
        → places.is_remote_path text ≡ true
        → IsNamed
            (record {
              path = text;
              is_dir = false;
              remote = true;
              kind = classify_file_path qt models text;
            })
            text

  -- The items with their keys, the last key first: every key is the one of its item, and a new one.
  pub data AreNamed : List Text → List DroppedItem → Type 0 where
    nothing : AreNamed [] []
    one_more :
        {ks : List Text} {is : List DroppedItem} (k : Text) (i : DroppedItem)
        → AreNamed ks is
        → one_of ks k ≡ false
        → IsNamed i k
        → AreNamed (k ∷ ks) (is ++ i ∷ [])

  -- What holds after `n` of the URLs: the items are named by URLs, with keys of their own, and no URL
  -- has given more than an item or a problem.
  pub record IsSound (n : ℕ) (f : Found) : Type 0 where
    pub named : AreNamed f.seen f.items
    pub one_answer_each : length f.items + length f.problems ≤ n

module _ (qt : Qt) (disk : Disk) (models : List Text) (places : Places) (urls : List Url) (n : ℕ)
    (f : Found) (s : IsSound qt disk models places urls n f) where
  Sound : Found → Type 0
  Sound g = IsSound qt disk models places urls (suc n) g

  problem-IsSound : (message : Text) → Sound (problem message f)
  unfolding problem Sound
  problem-IsSound message = record {
    named = s.named;
    one_answer_each = omega (arith, s.one_answer_each, length-append f.problems (message ∷ []));
  }

  add_item-IsSound :
      (key : Text) (i : DroppedItem)
      → IsNamed qt disk models places urls i key
      → Sound (add_item key i f)
  unfolding add_item Sound
  add_item-IsSound key i o =
      if_case (λ g. IsSound qt disk models places urls (suc n) g) (one_of f.seen key)
        (λ e. record { named = s.named; one_answer_each = omega (arith, s.one_answer_each) })
        (λ e. record {
          named = one_more key i s.named e o;
          one_answer_each = omega (arith, s.one_answer_each, length-append f.items (i ∷ []));
        })

  add_local-IsSound :
      (local : Text)
      → IsDropped (local_file local) urls
      → Sound (add_local qt disk models places local f)
  unfolding add_local add_folder add_file
  add_local-IsSound local u =
      if_case Sound (is_empty local) (λ e. problem-IsSound _)
        (λ e.
          if_case Sound (negate (disk.exists local)) (λ e. problem-IsSound _)
            (λ there.
              if_case Sound (disk.is_dir local)
                (λ is_dir.
                  if_case Sound (negate (disk.is_readable local && disk.is_executable local))
                    (λ e. problem-IsSound _)
                    (λ e.
                      add_item-IsSound _ _
                        (folder local u (ground (arith, there)) is_dir (ground (arith, e)))))
                (λ no_dir.
                  if_case Sound (disk.is_file local)
                    (λ is_file.
                      if_case Sound (negate (disk.is_readable local)) (λ e. problem-IsSound _)
                        (λ e. add_item-IsSound _ _ (
                          file local u (ground (arith, there)) no_dir is_file (ground (arith, e)))))
                    (λ e. problem-IsSound _))))

  add_other-IsSound :
      (text : Text)
      → IsDropped (other text) urls
      → (b : Bool) → ends_with text (codes "/") ≡ b
      → Sound (add_remote qt disk models places b (if b then chop_slash text else text) f)
  unfolding add_remote
  add_other-IsSound text u true slash =
      if_case Sound (negate (places.is_remote_path (chop_slash text))) (λ e. problem-IsSound _)
        (λ e. add_item-IsSound _ _ (remote_folder text u slash (ground (arith, e))))
  add_other-IsSound text u false slash =
      if_case Sound (negate (places.is_remote_path text)) (λ e. problem-IsSound _)
        (λ e. add_item-IsSound _ _ (remote_file text u slash (ground (arith, e))))

  add_url-IsSound : (u : Url) → IsDropped u urls → Sound (add_url qt disk models places u f)
  unfolding add_url
  add_url-IsSound invalid d = problem-IsSound _
  add_url-IsSound (local_file local) d = add_local-IsSound local d
  add_url-IsSound (other text) d = add_other-IsSound text d (ends_with text (codes "/")) refl

add_urls-IsSound :
    (qt : Qt) (disk : Disk) (models : List Text) (places : Places) (all urls : List Url)
    → ((u : Url) → IsDropped u urls → IsDropped u all)
    → (n : ℕ) (f : Found) → IsSound qt disk models places all n f
    → IsSound qt disk models places all (n + length urls) (add_urls qt disk models places urls f)
unfolding add_urls
add_urls-IsSound qt disk models places all [] within n f s =
    subst (λ m. IsSound qt disk models places all m f) (omega arith) s
add_urls-IsSound qt disk models places all (u ∷ us) within n f s =
    subst
      (λ m.
        IsSound qt disk models places all m
          (add_urls qt disk models places us (add_url qt disk models places u f)))
      (omega arith)
      (add_urls-IsSound qt disk models places all us (λ v d. within v (later d)) (suc n)
        (add_url qt disk models places u f)
        (unfold Sound in add_url-IsSound qt disk models places all n f s u (within u first)))

-- Whatever is dropped, every item is one that a dropped URL stands for: the cleaned absolute path of a
-- local path at which there is a folder that may be read and entered or a file that may be read, or a
-- remote path that a saved connection covers, with the kind that its path and contents give. The key of
-- each item, the canonical path of a local one where there is one and its path else, is different from
-- those before it. No more items and problems are given than there are URLs.
pub collect_urls-IsSound :
    (qt : Qt) (disk : Disk) (models : List Text) (places : Places) (urls : List Url)
    → IsSound qt disk models places urls (length urls) (collect_urls qt disk models places urls)
unfolding collect_urls
collect_urls-IsSound qt disk models places urls =
    subst (λ m. IsSound qt disk models places urls m (collect_urls qt disk models places urls))
      (omega arith)
      (add_urls-IsSound qt disk models places urls urls (λ u d. d) 0
        (record { seen = []; items = []; problems = [] })
        (record { named = nothing; one_answer_each = omega arith }))
