-- ===== src/Remote/Profile.antt =====
-- Saved connections (crates/openbc-ui-qt/cpp/remote/remote_profile.h).
use open_bc.Prelude.{
  ℕ, Bool, true, false, ◌&&◌, ◌||◌, negate, List, [], ◌∷◌, ◌++◌, Text, codes, is_empty, ℤ,
  print_int, is_int, above_zero, if◌then◌else◌,
}
use open_bc.Prelude.Qt.{Qt}

pub data RemoteProtocol : Type 0 where
  sftp ftp ftps_explicit ftps_implicit smb network_drive : RemoteProtocol

unfoldable pub all_remote_protocols : List RemoteProtocol
all_remote_protocols =
    RemoteProtocol.sftp ∷ RemoteProtocol.ftp ∷ RemoteProtocol.ftps_explicit
    ∷ RemoteProtocol.ftps_implicit ∷ RemoteProtocol.smb ∷ RemoteProtocol.network_drive ∷ []

-- The label before it is translated.
pub protocol_label : RemoteProtocol → Text
protocol_label RemoteProtocol.sftp = codes "SFTP (SSH File Transfer)"
protocol_label RemoteProtocol.ftp = codes "FTP"
protocol_label RemoteProtocol.ftps_explicit = codes "FTPS (Explicit SSL)"
protocol_label RemoteProtocol.ftps_implicit = codes "FTPS (Implicit SSL)"
protocol_label RemoteProtocol.smb = codes "SMB / Samba share"
protocol_label RemoteProtocol.network_drive = codes "Network drive (UNC / mounted path)"

unfoldable pub default_port_for : RemoteProtocol → ℕ
default_port_for RemoteProtocol.sftp = 22
default_port_for RemoteProtocol.ftp = 21
default_port_for RemoteProtocol.ftps_explicit = 21
default_port_for RemoteProtocol.ftps_implicit = 990
default_port_for RemoteProtocol.smb = 445
default_port_for RemoteProtocol.network_drive = 0

unfoldable pub is_network_drive : RemoteProtocol → Bool
is_network_drive RemoteProtocol.network_drive = true
is_network_drive _ = false

unfoldable pub is_smb : RemoteProtocol → Bool
is_smb RemoteProtocol.smb = true
is_smb _ = false

pub protocol_uses_host_port : RemoteProtocol → Bool
protocol_uses_host_port p = negate (is_network_drive p)

pub protocol_uses_key_file : RemoteProtocol → Bool
protocol_uses_key_file RemoteProtocol.sftp = true
protocol_uses_key_file _ = false

pub protocol_uses_cert_file : RemoteProtocol → Bool
protocol_uses_cert_file RemoteProtocol.ftps_explicit = true
protocol_uses_cert_file RemoteProtocol.ftps_implicit = true
protocol_uses_cert_file _ = false

pub protocol_uses_share_name : RemoteProtocol → Bool
protocol_uses_share_name p = is_smb p || is_network_drive p

pub protocol_uses_passive_mode : RemoteProtocol → Bool
protocol_uses_passive_mode RemoteProtocol.ftp = true
protocol_uses_passive_mode RemoteProtocol.ftps_explicit = true
protocol_uses_passive_mode RemoteProtocol.ftps_implicit = true
protocol_uses_passive_mode _ = false

pub protocol_uses_credentials : RemoteProtocol → Bool
protocol_uses_credentials p = negate (is_network_drive p)

pub record RemoteProfile : Type 0 where
  pub name : Text
  pub protocol : RemoteProtocol
  pub host : Text
  pub port : ℤ
  pub username : Text
  pub password : Text
  pub save_password : Bool
  pub key_file : Text
  pub passphrase : Text
  pub cert_file : Text
  pub share_name : Text
  pub domain : Text
  pub mount_path : Text
  pub remote_root : Text
  pub passive_mode : Bool
  pub description : Text

pub profile_is_valid : Qt → RemoteProfile → Bool
profile_is_valid qt p =
    if is_empty (qt.trimmed p.name)
    then false
    else if is_network_drive p.protocol
    then negate (is_empty (qt.trimmed p.mount_path))
    else negate (is_empty (qt.trimmed p.host))

unfoldable pub scheme : RemoteProtocol → Text
scheme RemoteProtocol.sftp = codes "sftp"
scheme RemoteProtocol.ftp = codes "ftp"
scheme RemoteProtocol.ftps_explicit = codes "ftps"
scheme RemoteProtocol.ftps_implicit = codes "ftps"
scheme RemoteProtocol.smb = codes "smb"
scheme RemoteProtocol.network_drive = []

unfoldable pub display_address : RemoteProfile → Text
display_address p =
    if is_network_drive p.protocol
    then p.mount_path
    else (scheme p.protocol ++ codes "://")
      ++ (if is_empty p.username then [] else p.username ++ codes "@")
      ++ p.host
      ++ (if above_zero p.port && negate (is_int (default_port_for p.protocol) p.port)
          then codes ":" ++ print_int p.port
          else [])
      ++ (if is_smb p.protocol && negate (is_empty p.share_name)
          then codes "/" ++ p.share_name
          else [])

-- A named group of connections and of groups, and lists of groups.
mutual
  pub data RemoteProfileNode : Type 0 where
    node : (name path : Text) → List RemoteProfile → Nodes → RemoteProfileNode

  pub data Nodes : Type 0 where
    nil : Nodes
    cons : RemoteProfileNode → Nodes → Nodes
