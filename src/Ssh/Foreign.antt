-- ===== src/Ssh/Foreign.antt =====
-- What crates/ssh-core takes from russh, russh-sftp and the operating system: their types of errors,
-- and the tests that the program makes on them. The standard library's `io::Error` is its kind here.
use bx_ssh.Common.{Bool}

-- `std::io::ErrorKind`: the kinds that the program names, and all the others.
pub data IoErrorKind : Type 0 where
  connection_refused network_unreachable host_unreachable addr_not_available : IoErrorKind
  timed_out not_found other_kind : IoErrorKind

pub record Foreign : Type 1 where
  pub RusshError : Type 0
  pub KeysError : Type 0
  pub SftpError : Type 0
  -- Whether a value is `russh::Error::KeepaliveTimeout`, or `russh::Error::UnknownKey`.
  pub is_keepalive_timeout : RusshError → Bool
  pub is_unknown_key : RusshError → Bool
  -- A resolved socket address, a private key, and a hash for RSA signatures.
  pub Address : Type 0
  pub PrivateKey : Type 0
  pub is_rsa : PrivateKey → Bool
  pub HashAlg : Type 0
  pub sha256 : HashAlg
