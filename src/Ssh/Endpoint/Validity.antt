-- ===== src/Ssh/Endpoint/Validity.antt =====
-- What holds of an endpoint that was built, and when one is built.
use bx_ssh.Common.{
  ℕ, ◌<◌, ◌≡◌, ◌≢◌, ◌↔◌, ap, subst, Result, inl, inr, refl, sym, ◌∙◌, none, some, ok, err, is_empty,
  ◌==◌, arith, Bool-cases,
}
use bx_ssh.Common.Text.{Text, trim}
use bx_ssh.Common.Text.Trim.{IsBlank, trim_eq_nil_iff, trim-trim}
use bx_ssh.Contracts.Connection.{is_blank}
use bx_ssh.Contracts.Connection.Validity.{is_blank_iff, IsWritten-iff}
use bx_ssh.Contracts.Settings.{ConnectionSettings}
use bx_ssh.Ssh.Foreign.{Foreign}
use bx_ssh.Ssh.Error.{SshError, invalid_host, invalid_port}
use bx_ssh.Ssh.Endpoint.{SshEndpoint, new, with_connection_settings}

-- A host that is not blank and is already trimmed, a port other than 0, and a keep-alive interval,
-- if there is one, of at least a second.
pub record IsEndpoint (e : SshEndpoint) : Type 0 where
  pub host_written : ¬ (IsBlank e.host)
  pub host_trimmed : trim e.host ≡ e.host
  pub port_used : 0 < e.port
  pub interval_pos : (n : ℕ) → e.keep_alive_interval ≡ some n → 0 < n

trim-IsBlank : (t : Text) → IsBlank (trim t) → IsBlank t
trim-IsBlank t b = (trim_eq_nil_iff t).0 (sym (trim-trim t) ∙ (trim_eq_nil_iff (trim t)).1 b)

-- The three ways in which building an endpoint can end, with the result of each.
pub data Built {F : Foreign} (given : Text) (port : ℕ)
    : Result (SshError F) SshEndpoint → Type 0 where
  blank_host : IsBlank given → Built given port (err invalid_host)
  zero_port : ¬ (IsBlank given) → port ≡ 0 → Built given port (err invalid_port)
  built :
      (e : SshEndpoint)
      → IsEndpoint e
      → e.host ≡ trim given
      → e.port ≡ port
      → Built given port (ok e)

IsEndpoint-of :
    (e : SshEndpoint) (given : Text)
    → ¬ (IsBlank given)
    → e.host ≡ trim given
    → e.port ≢ 0
    → ((n : ℕ) → e.keep_alive_interval ≡ some n → 0 < n)
    → IsEndpoint e
IsEndpoint-of e given w h p k = record {
  host_written = λ b. w (trim-IsBlank given (subst IsBlank h b));
  host_trimmed = ap trim h ∙ trim-trim given ∙ sym h;
  port_used = omega arith;
  interval_pos = k;
}

-- An endpoint is refused for a blank host, else for the port 0; otherwise it is built on the trimmed
-- host and that port, and satisfies what every endpoint does.
pub new-Built : {F : Foreign} (given : Text) (port : ℕ) → Built {F = F} given port (new given port)
unfolding new is_blank
new-Built given port = elim (Bool-cases (is_empty (trim given))) [
  | inl b ↦ rw b (blank_host ((is_blank_iff given).0 b))
  | inr w ↦ elim (Bool-cases (port == 0)) [
    | inl z ↦ rw (w, z) (zero_port ((IsWritten-iff given).0 w) (ground arith))
    | inr u ↦
        rw (w, u)
          (built _
            (IsEndpoint-of _ given ((IsWritten-iff given).0 w) refl (ground arith)
              (λ n e. ground arith))
            refl refl)
  ]
]

-- Connection settings keep what holds of an endpoint, and set its connect timeout; an interval of 0
-- turns keep-alive messages off, and any other is the interval.
pub with_connection_settings-IsEndpoint :
    (e : SshEndpoint) (s : ConnectionSettings)
    → IsEndpoint e
    → let e' = with_connection_settings e s in
      IsEndpoint e'
      × (e'.connect_timeout ≡ s.connect_timeout_secs)
      × (e'.operation_timeout ≡ e.operation_timeout)
      × ((e'.keep_alive_interval ≡ none) ↔ (s.keep_alive_secs ≡ 0))
      × ((n : ℕ) → e'.keep_alive_interval ≡ some n → n ≡ s.keep_alive_secs)
unfolding with_connection_settings
with_connection_settings-IsEndpoint e s v = (
  record {
    host_written = v.host_written;
    host_trimmed = v.host_trimmed;
    port_used = v.port_used;
    interval_pos = λ n h. ground arith;
  },
  refl,
  refl,
  ground arith,
  λ n h. ground arith,
)
