-- ===== src/Remote/Tests.antt =====
-- A new user saves a connection and makes a group
-- (crates/openbc-ui-qt/cpp/remote/remote_profile_store.h).
use open_bc.Prelude.{
  ◌≤◌, true, false, none, List, [], ◌∷◌, codes, same, has_char, All, ℤ, is_int32, ◌≡◌, refl, arith,
}
use open_bc.Prelude.Qt.Plain.{plain_qt}
use open_bc.Sessions.{Index, checked}
use open_bc.Remote.Json.{assign}
use open_bc.Remote.Json.Plain.{plain_json, depth}
use open_bc.Remote.Secrets.Plain.{plain_encodings}
use open_bc.Remote.Profile.{RemoteProtocol, RemoteProfile, nil}
use open_bc.Remote.Codec.{nodes_to_json, node_fields, profile_fields, profile_to_json}
use open_bc.Remote.Codec.Fields.{IsStorable}
use open_bc.Remote.Codec.RoundTrip.{AreStorable, stored_nodes}
use open_bc.Remote.Tree.{change_node, with_changed, beside, with_profiles, child_path}
use open_bc.Remote.Tree.Paths.{ArePathed, IsName}
use open_bc.Remote.Store.{
  Store, load_tree, commit, persist, with_personal, append_nodes, read_nodes, saved_at, save_at,
  save_profile,
}
use open_bc.Remote.Store.Edits.{Edit, edit, run_edits, creates, renames, saves}
use open_bc.Remote.Store.Restart.{restarted, restart-edit}
use open_bc.Remote.Store.Paths.{HasPlainName, tree, run_edits-ArePathed}

-- The settings hold nothing yet.
abbrev first_start : Store plain_json plain_encodings
first_start = record { cache = nil; loaded = false; saved = none }

abbrev build_server : RemoteProfile
build_server = record {
  name = codes "build";
  protocol = RemoteProtocol.sftp;
  host = codes "server";
  port = ℤ.pos 22;
  username = codes "alice";
  password = codes "pw";
  save_password = true;
  key_file = [];
  passphrase = [];
  cert_file = [];
  share_name = [];
  domain = [];
  mount_path = [];
  remote_root = codes "/";
  passive_mode = true;
  description = [];
}

abbrev saving : Edit
saving = saves (codes "Personal") Index.negative build_server

abbrev after_saving : Store plain_json plain_encodings
after_saving = (edit plain_qt plain_json plain_encodings saving first_start).0

saving_succeeds : (edit plain_qt plain_json plain_encodings saving first_start).1 ≡ true
unfolding edit save_profile load_tree commit with_personal append_nodes read_nodes change_node
    beside with_changed same
saving_succeeds = refl

saving_storable : AreStorable plain_json plain_encodings after_saving.cache
unfolding edit save_profile load_tree commit persist with_personal append_nodes read_nodes
    change_node beside with_changed same with_profiles save_at saved_at checked AreStorable
    IsStorable is_int32
saving_storable = ((((refl, refl, refl), tt), tt), tt)

saving_small :
    All
      (λ v. plain_json.nesting v ≤ plain_json.max_nesting)
      (nodes_to_json plain_json plain_encodings after_saving.cache)
unfolding edit save_profile load_tree commit persist with_personal append_nodes read_nodes
    change_node beside with_changed same with_profiles save_at saved_at checked nodes_to_json
    node_fields profile_fields profile_to_json assign depth
saving_small = (omega arith, tt)

restart-edit_example :
    (load_tree plain_json plain_encodings (restarted plain_json plain_encodings after_saving)).cache
    ≡ with_personal (stored_nodes after_saving.cache)
restart-edit_example =
    restart-edit plain_qt plain_json plain_encodings saving first_start saving_succeeds
      saving_storable saving_small

-- A group below "Personal" is made, and "Personal" renamed.
abbrev two_edits : List Edit
two_edits =
    creates (codes "Personal") (codes "Work") ∷ renames (codes "Personal") (codes "Home") ∷ []

plain_names : All HasPlainName two_edits
unfolding HasPlainName has_char
plain_names = (refl, (refl, tt))

start_pathed : ArePathed [] (tree plain_json plain_encodings first_start)
unfolding tree load_tree with_personal append_nodes read_nodes ArePathed IsName has_char child_path
start_pathed = (((refl, refl), refl, tt), tt)

run_edits-ArePathed_example : ArePathed [] (
    tree plain_json plain_encodings
      (run_edits plain_qt plain_json plain_encodings two_edits first_start))
run_edits-ArePathed_example =
    run_edits-ArePathed plain_json plain_encodings plain_qt two_edits first_start plain_names
      start_pathed
