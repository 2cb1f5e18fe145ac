-- ===== src/Remote/Codec/Fields.antt =====
-- A saved connection is read as it was written
-- (crates/openbc-ui-qt/cpp/remote/remote_profile_store.h).
use open_bc.Prelude.{
  Bool, true, false, [], Text, codes, same, ℤ, is_int32, if◌then◌else◌, ◌≡◌, refl, ap, ◌∙◌,
}
use open_bc.Remote.Json.{Json, last_assigned, at-assign}
use open_bc.Remote.Secrets.{Encodings, deobfuscate}
use open_bc.Remote.Secrets.Xor.{deobfuscate-obfuscate}
use open_bc.Remote.Profile.{RemoteProtocol, default_port_for, RemoteProfile}
use open_bc.Remote.Codec.{
  protocol_to_key, protocol_from_key, secret, profile_fields, profile_to_json, profile_from_json,
}

-- What is kept of a connection: its passwords only if they are to be saved.
unfoldable pub stored : RemoteProfile → RemoteProfile
stored p = record p {
  password = if p.save_password then p.password else [];
  passphrase = if p.save_password then p.passphrase else [];
}

protocol_from-to_key : (p : RemoteProtocol) → protocol_from_key (protocol_to_key p) ≡ p
unfolding protocol_from_key protocol_to_key same
protocol_from-to_key RemoteProtocol.sftp = refl
protocol_from-to_key RemoteProtocol.ftp = refl
protocol_from-to_key RemoteProtocol.ftps_explicit = refl
protocol_from-to_key RemoteProtocol.ftps_implicit = refl
protocol_from-to_key RemoteProtocol.smb = refl
protocol_from-to_key RemoteProtocol.network_drive = refl

module _ (json : Json) (encodings : Encodings) where
  open json use {
    Value, empty, at, to_text, of_text, of_int, to_int, of_bool, to_bool, to-of_text, to-of_int,
    to-of_bool,
  }
  open encodings use {is_unicode}

  -- The port is a 32-bit number, and the passwords are Unicode texts.
  unfoldable pub IsStorable : RemoteProfile → Type 0
  IsStorable p =
      (is_int32 p.port ≡ true) × (is_unicode p.password ≡ true) × (is_unicode p.passphrase ≡ true)

  secret_read :
      (saved : Bool) (t : Text)
      → is_unicode t ≡ true
      → deobfuscate encodings (secret json encodings saved t) ≡ (if saved then t else [])
  unfolding secret
  secret_read true t u = deobfuscate-obfuscate encodings t u
  secret_read false t u = unfold deobfuscate in refl

  field_text :
      (p : RemoteProfile) (d key t : Text)
      → last_assigned json key (at empty key) (profile_fields json encodings p) ≡ of_text t
      → to_text d (at (profile_to_json json encodings p) key) ≡ t
  unfolding profile_to_json
  field_text p d key t e =
      ap (to_text d) (at-assign json empty key (profile_fields json encodings p) ∙ e)
      ∙ to-of_text d t

  field_bool :
      (p : RemoteProfile) (d : Bool) (key : Text) (b : Bool)
      → last_assigned json key (at empty key) (profile_fields json encodings p) ≡ of_bool b
      → to_bool d (at (profile_to_json json encodings p) key) ≡ b
  unfolding profile_to_json
  field_bool p d key b e =
      ap (to_bool d) (at-assign json empty key (profile_fields json encodings p) ∙ e)
      ∙ to-of_bool d b

  field_int :
      (p : RemoteProfile) (d : ℤ) (key : Text) (n : ℤ)
      → is_int32 n ≡ true
      → last_assigned json key (at empty key) (profile_fields json encodings p) ≡ of_int n
      → to_int d (at (profile_to_json json encodings p) key) ≡ n
  unfolding profile_to_json
  field_int p d key n i e =
      ap (to_int d) (at-assign json empty key (profile_fields json encodings p) ∙ e)
      ∙ to-of_int d n i

  pub profile_from-to_json :
      (p : RemoteProfile)
      → IsStorable p
      → profile_from_json json encodings (profile_to_json json encodings p) ≡ stored p
  unfolding profile_from_json stored IsStorable last_assigned profile_fields same
  profile_from-to_json p (port, password, passphrase) = λ i. record {
    name = field_text p [] (codes "name") p.name refl i;
    protocol = protocol_read i;
    host = field_text p [] (codes "host") p.host refl i;
    port =
        field_int p
          (ℤ.pos (
            default_port_for (
              protocol_from_key
                (to_text [] (at (profile_to_json json encodings p) (codes "protocol"))))))
          (codes "port") p.port port refl i;
    username = field_text p [] (codes "username") p.username refl i;
    save_password = field_bool p true (codes "savePassword") p.save_password refl i;
    password = secret_field (codes "password") p.password password refl i;
    key_file = field_text p [] (codes "keyFile") p.key_file refl i;
    passphrase = secret_field (codes "passphrase") p.passphrase passphrase refl i;
    cert_file = field_text p [] (codes "certFile") p.cert_file refl i;
    share_name = field_text p [] (codes "shareName") p.share_name refl i;
    domain = field_text p [] (codes "domain") p.domain refl i;
    mount_path = field_text p [] (codes "mountPath") p.mount_path refl i;
    remote_root = field_text p (codes "/") (codes "remoteRoot") p.remote_root refl i;
    passive_mode = field_bool p true (codes "passiveMode") p.passive_mode refl i;
    description = field_text p [] (codes "description") p.description refl i;
  }
    where
      protocol_read :
          protocol_from_key (to_text [] (at (profile_to_json json encodings p) (codes "protocol")))
          ≡ p.protocol
      protocol_read =
          ap protocol_from_key
            (field_text p [] (codes "protocol") (protocol_to_key p.protocol) refl)
          ∙ protocol_from-to_key p.protocol

      secret_field :
          (key t : Text)
          → is_unicode t ≡ true
          → last_assigned json key (at empty key) (profile_fields json encodings p)
            ≡ of_text (secret json encodings p.save_password t)
          → deobfuscate encodings (to_text [] (at (profile_to_json json encodings p) key))
            ≡ (if p.save_password then t else [])
      secret_field key t u e =
          ap (deobfuscate encodings)
            (field_text p [] key (secret json encodings p.save_password t) e)
          ∙ secret_read p.save_password t u
