-- ===== src/Remote/Codec.antt =====
-- Saved connections as JSON (crates/openbc-ui-qt/cpp/remote/remote_profile_store.h).
pub mod Fields
pub mod RoundTrip
use open_bc.Prelude.{
  ℕ, zero, suc, Bool, true, false, List, [], ◌∷◌, Text, codes, same, map, ℤ, if◌then◌else◌,
}
use open_bc.Remote.Json.{Json, assign}
use open_bc.Remote.Secrets.{Encodings, obfuscate, deobfuscate}
use open_bc.Remote.Profile.{
  RemoteProtocol, default_port_for, RemoteProfile, RemoteProfileNode, node, Nodes, nil, cons,
}

unfoldable pub protocol_to_key : RemoteProtocol → Text
protocol_to_key RemoteProtocol.sftp = codes "sftp"
protocol_to_key RemoteProtocol.ftp = codes "ftp"
protocol_to_key RemoteProtocol.ftps_explicit = codes "ftps-explicit"
protocol_to_key RemoteProtocol.ftps_implicit = codes "ftps-implicit"
protocol_to_key RemoteProtocol.smb = codes "smb"
protocol_to_key RemoteProtocol.network_drive = codes "network-drive"

unfoldable pub protocol_from_key : Text → RemoteProtocol
protocol_from_key key =
    if same key (codes "ftp")
    then RemoteProtocol.ftp
    else if same key (codes "ftps-explicit")
    then RemoteProtocol.ftps_explicit
    else if same key (codes "ftps-implicit")
    then RemoteProtocol.ftps_implicit
    else if same key (codes "smb")
    then RemoteProtocol.smb
    else if same key (codes "network-drive")
    then RemoteProtocol.network_drive
    else RemoteProtocol.sftp

unfoldable pub to_nodes : List RemoteProfileNode → Nodes
to_nodes [] = nil
to_nodes (n ∷ ns) = cons n (to_nodes ns)

module _ (json : Json) (encodings : Encodings) where
  open json use {
    Value, Object, empty, at, of_text, to_text, of_int, to_int, of_bool, to_bool, of_array,
    to_array, of_object, to_object, nesting,
  }

  -- A password as it is written: only if passwords are saved.
  unfoldable pub secret : Bool → Text → Text
  secret saved t = if saved then obfuscate encodings t else []

  -- The assignments of `profileToJson`, in order.
  unfoldable pub profile_fields : RemoteProfile → List (Text × Value)
  profile_fields p =
      (codes "name", of_text p.name)
      ∷ (codes "protocol", of_text (protocol_to_key p.protocol))
      ∷ (codes "host", of_text p.host)
      ∷ (codes "port", of_int p.port)
      ∷ (codes "username", of_text p.username)
      ∷ (codes "savePassword", of_bool p.save_password)
      ∷ (codes "password", of_text (secret p.save_password p.password))
      ∷ (codes "keyFile", of_text p.key_file)
      ∷ (codes "passphrase", of_text (secret p.save_password p.passphrase))
      ∷ (codes "certFile", of_text p.cert_file)
      ∷ (codes "shareName", of_text p.share_name)
      ∷ (codes "domain", of_text p.domain)
      ∷ (codes "mountPath", of_text p.mount_path)
      ∷ (codes "remoteRoot", of_text p.remote_root)
      ∷ (codes "passiveMode", of_bool p.passive_mode)
      ∷ (codes "description", of_text p.description)
      ∷ []

  unfoldable pub profile_to_json : RemoteProfile → Object
  profile_to_json p = assign json empty (profile_fields p)

  unfoldable pub profile_from_json : Object → RemoteProfile
  profile_from_json obj =
      let protocol = protocol_from_key (to_text [] (at obj (codes "protocol"))) in
      record {
        name = to_text [] (at obj (codes "name"));
        protocol = protocol;
        host = to_text [] (at obj (codes "host"));
        port = to_int (ℤ.pos (default_port_for protocol)) (at obj (codes "port"));
        username = to_text [] (at obj (codes "username"));
        save_password = to_bool true (at obj (codes "savePassword"));
        password = deobfuscate encodings (to_text [] (at obj (codes "password")));
        key_file = to_text [] (at obj (codes "keyFile"));
        passphrase = deobfuscate encodings (to_text [] (at obj (codes "passphrase")));
        cert_file = to_text [] (at obj (codes "certFile"));
        share_name = to_text [] (at obj (codes "shareName"));
        domain = to_text [] (at obj (codes "domain"));
        mount_path = to_text [] (at obj (codes "mountPath"));
        remote_root = to_text (codes "/") (at obj (codes "remoteRoot"));
        passive_mode = to_bool true (at obj (codes "passiveMode"));
        description = to_text [] (at obj (codes "description"));
      }

  -- The assignments of `nodeToJson`, in order.
  unfoldable pub node_fields : Text → Text → List RemoteProfile → List Value → List (Text × Value)
  node_fields name path profiles children =
      (codes "name", of_text name)
      ∷ (codes "path", of_text path)
      ∷ (codes "profiles", of_array (map (λ p. of_object (profile_to_json p)) profiles))
      ∷ (codes "children", of_array children)
      ∷ []

  unfoldable mutual
    pub node_to_json : RemoteProfileNode → Object
    node_to_json (node name path profiles children) =
        assign json empty (node_fields name path profiles (nodes_to_json children))

    -- The loops that append the nodes' values to an array.
    pub nodes_to_json : Nodes → List Value
    nodes_to_json nil = []
    nodes_to_json (cons n ns) = of_object (node_to_json n) ∷ nodes_to_json ns

  -- `nodeFromJson`, for an object nested up to a depth.
  unfoldable pub node_from_json : ℕ → Object → RemoteProfileNode
  node_from_json zero obj = node [] [] [] nil
  node_from_json (suc depth) obj =
      node (to_text [] (at obj (codes "name"))) (to_text [] (at obj (codes "path")))
        (map (λ v. profile_from_json (to_object v)) (to_array (at obj (codes "profiles"))))
        (to_nodes
          (map (λ v. node_from_json depth (to_object v)) (to_array (at obj (codes "children")))))

  -- The loop of `loadTree`.
  unfoldable pub nodes_from_json : ℕ → List Value → Nodes
  nodes_from_json depth vs = to_nodes (map (λ v. node_from_json depth (to_object v)) vs)
