-- ===== src/Tests/Fixtures.antt =====
-- A network in which one server answers, and the data that the tests share.
use bx_ssh.Common.{
  ℕ, ◌≡◌, Bool, true, false, not, Option, none, some, [], ◌∷◌, ok, err, if◌then◌else◌, arith,
  Bool-cases, inl, inr,
}
use bx_ssh.Common.Text.{Text, codes, text_eq}
use bx_ssh.Contracts.Connection.{ConnectionConfig, password}
use bx_ssh.Contracts.Group.{ConnectionCatalog}
use bx_ssh.Ssh.Foreign.{Foreign}
use bx_ssh.Ssh.Fingerprint.{HostFingerprint}
use bx_ssh.Ssh.Connect.{
  HostKeyInfo, SshNegotiatedAlgorithms, done, check_server_key, Handshake, World,
}
use bx_ssh.Ssh.Connect.Safety.{IsCheckedHandshake}

-- An error of russh is a Boolean: whether it is a keep-alive timeout, and else an unknown key.
abbrev pub foreign : Foreign
foreign = record {
  RusshError = Bool;
  KeysError = Unit {0};
  SftpError = Unit {0};
  is_keepalive_timeout = λ b. b;
  is_unknown_key = λ b. not b;
  Address = ℕ;
  PrivateKey = Bool;
  is_rsa = λ b. b;
  HashAlg = ℕ;
  sha256 = 256;
}

abbrev pub host_fingerprint : Text
host_fingerprint = codes "SHA256:AAAAAAAAAAAAAAAAAAAAAAAAAAAAAAAAAAAAAAAAAAA"

abbrev pub host_key : HostKeyInfo
host_key = record { algorithm = codes "ssh-ed25519"; fingerprint_sha256 = host_fingerprint }

abbrev pub algorithms : SshNegotiatedAlgorithms
algorithms = record {
  kex = codes "curve25519-sha256";
  host_key = codes "ssh-ed25519";
  cipher = codes "aes256-gcm@openssh.com";
  client_to_server_mac = codes "none";
  server_to_client_mac = codes "none";
}

-- The handshake with a handler: it fails on a key that the handler does not accept.
unfoldable pub shake_hands : Option HostFingerprint → Handshake foreign
shake_hands expected = record {
  observed = some host_key;
  negotiated = some algorithms;
  result = if check_server_key expected host_key then ok tt else err false;
}

-- The server takes the password "secret" and every key.
abbrev pub world : World foreign
world = record {
  lookup = done (ok (1 ∷ []));
  dial = λ _. done (ok tt);
  connect_stream = λ expected. done (shake_hands expected);
  login_password = λ _ given. done (ok (text_eq given (codes "secret")));
  key_deadline = done tt;
  key_started = false;
  best_supported_rsa_hash = ok none;
  login_key = λ _ _ _. ok true;
}

pub world-IsChecked : IsCheckedHandshake world
unfolding shake_hands
world-IsChecked f h k e s o = elim (Bool-cases (check_server_key (some f) host_key)) [
  | inl t ↦ let same : k ≡ host_key = ground arith in rw same t
  | inr n ↦ absurd (ground arith)
]

abbrev pub admin : Text
admin = codes "admin"

abbrev pub server_config : ConnectionConfig
server_config = record {
  id = codes "connection-1";
  group_id = none;
  name = codes "server";
  host = codes "server.example";
  port = 22;
  username = admin;
  notes = none;
  color = some (codes "#12abEF");
  auth_method = password;
  credential_ref = none;
  key_reference_id = none;
}

abbrev pub catalog : ConnectionCatalog
catalog = record {
  groups = [];
  connections =
      record {
        config = server_config;
        is_favorite = false;
        sort_order = 0;
        last_connected_at = none;
        successful_connection_count = 0;
        revision = 1;
      }
      ∷ [];
}
