-- ===== src/Tests/Ssh.antt =====
-- Tests of the connection's set-up.
use bx_ssh.Common.{
  ℕ, ◌≡◌, ◌≢◌, ◌↔◌, ◌⊎◌, inl, inr, refl, none, some, arith, List, [], ◌∷◌, ok, err, true, false,
}
use bx_ssh.Common.Text.{Text, codes}
use bx_ssh.Ssh.Stage
use bx_ssh.Ssh.Stage.{
  SshConnectionStage, created, resolving_dns, connecting_tcp, cancelled, closed, failed, run,
  accepted,
}
use bx_ssh.Ssh.Stage.History.{Explains, run-Explains}
use bx_ssh.Ssh.Error.{SshError, connection_refused_by}
use bx_ssh.Ssh.Foreign
use bx_ssh.Ssh.Fingerprint.{parse, IsFingerprint, parse_iff}
use bx_ssh.Ssh.Endpoint
use bx_ssh.Ssh.Fingerprint.{HostFingerprint}
use bx_ssh.Ssh.Stage.{handshaking, authenticating}
use bx_ssh.Ssh.Error.{authentication_rejected, connection_cancelled, connection_stage}
use bx_ssh.Ssh.Connect.{
  World, timed_out, Connected, stage, validate_username, authenticate_loaded_private_key,
}
use bx_ssh.Ssh.Connect.Safety.{ends_disconnected, password_failure_disconnects}
use bx_ssh.Ssh.Connect.Progress.{
  stages, last_stage, IsStageless, connect_ends, password_error_stage, password_stages-accepted,
}
use bx_ssh.Ssh.Endpoint.{SshEndpoint, with_connection_settings}
use bx_ssh.Ssh.Endpoint.Validity.{IsEndpoint}
use bx_ssh.Contracts.Settings.{ConnectionSettings}
use bx_ssh.Tests.Fixtures.{host_key, algorithms}
use bx_ssh.Ssh.Connect.{connect, authenticate_password, authenticate_private_key_contents}
use bx_ssh.Ssh.Connect.Safety.{
  offers, ShowsExpectedKey, password_offered_to_expected_host, signature_offered_to_expected_host,
  SignsSafely, key-SignsSafely,
}
use bx_ssh.Desktop.CommandError
use bx_ssh.Desktop.CommandError.{from_ssh_error}
use bx_ssh.Tests.Fixtures.{foreign, host_fingerprint, world, world-IsChecked, admin}

abbrev setup_cancelled : List SshConnectionStage
setup_cancelled = resolving_dns ∷ connecting_tcp ∷ cancelled ∷ closed ∷ []

run-Explains_example :
    Explains (run Stage.new setup_cancelled).current (accepted Stage.new setup_cancelled)
run-Explains_example = run-Explains setup_cancelled

password_was_offered :
    offers (authenticate_password world admin host_fingerprint (codes "secret")).log ≡ true
unfolding authenticate_password bx_ssh.Contracts.Connection.is_blank bx_ssh.Common.Text.trim
    bx_ssh.Common.Text.is_whitespace parse bx_ssh.Common.Text.strip_prefix
    bx_ssh.Common.Text.as_bytes bx_ssh.Ssh.Fingerprint.is_base64_byte connect
    bx_ssh.Tests.Fixtures.shake_hands bx_ssh.Ssh.Connect.check_server_key bx_ssh.Common.Text.text_eq
password_was_offered = refl

password_offered_to_expected_host_example : ShowsExpectedKey world host_fingerprint
password_offered_to_expected_host_example =
    password_offered_to_expected_host world world-IsChecked admin host_fingerprint (codes "secret")
      password_was_offered

signature_was_offered :
    offers (authenticate_private_key_contents world admin host_fingerprint (ok true)).log ≡ true
unfolding authenticate_private_key_contents bx_ssh.Contracts.Connection.is_blank
    bx_ssh.Common.Text.trim bx_ssh.Common.Text.is_whitespace
    bx_ssh.Ssh.Connect.authenticate_loaded_private_key parse bx_ssh.Common.Text.strip_prefix
    bx_ssh.Common.Text.as_bytes bx_ssh.Ssh.Fingerprint.is_base64_byte connect
    bx_ssh.Tests.Fixtures.shake_hands bx_ssh.Ssh.Connect.check_server_key bx_ssh.Common.Text.text_eq
signature_was_offered = refl

signature_offered_to_expected_host_example : ShowsExpectedKey world host_fingerprint
signature_offered_to_expected_host_example =
    signature_offered_to_expected_host world world-IsChecked admin host_fingerprint (ok true)
      signature_was_offered

-- The deadline ends a login whose signature was sent.
abbrev too_late : World foreign
too_late = record world { key_deadline = timed_out; key_started = true }

late_signature_logged :
    offers (authenticate_private_key_contents too_late admin host_fingerprint (ok true)).log ≡ true
unfolding authenticate_private_key_contents bx_ssh.Contracts.Connection.is_blank
    bx_ssh.Common.Text.trim bx_ssh.Common.Text.is_whitespace
    bx_ssh.Ssh.Connect.authenticate_loaded_private_key parse bx_ssh.Common.Text.strip_prefix
    bx_ssh.Common.Text.as_bytes bx_ssh.Ssh.Fingerprint.is_base64_byte connect
    bx_ssh.Tests.Fixtures.shake_hands bx_ssh.Ssh.Connect.check_server_key bx_ssh.Common.Text.text_eq
late_signature_logged = refl

key-SignsSafely_example :
    SignsSafely too_late
      (authenticate_private_key_contents too_late admin host_fingerprint (ok true)).log
key-SignsSafely_example = key-SignsSafely too_late admin host_fingerprint (ok true)

parse_iff_example :
    (parse {F = foreign} host_fingerprint ≡ ok (record { value = host_fingerprint }))
    ↔ (IsFingerprint host_fingerprint × (host_fingerprint ≡ host_fingerprint))
parse_iff_example = parse_iff {F = foreign} host_fingerprint (record { value = host_fingerprint })

abbrev refused : SshError foreign
refused = connection_refused_by Foreign.connection_refused

not_transport : (from_ssh_error (λ _. codes "refused") refused).code ≢ CommandError.transport_error
unfolding from_ssh_error CommandError.ssh_error_code
not_transport e = cc e

abbrev host : HostFingerprint
host = record { value = host_fingerprint }

username_taken : validate_username {F = foreign} admin ≡ ok tt
unfolding validate_username bx_ssh.Contracts.Connection.is_blank bx_ssh.Common.Text.trim
    bx_ssh.Common.Text.is_whitespace
username_taken = refl

fingerprint_taken : parse {F = foreign} host_fingerprint ≡ ok host
unfolding parse bx_ssh.Common.Text.strip_prefix bx_ssh.Common.Text.as_bytes
    bx_ssh.Ssh.Fingerprint.is_base64_byte
fingerprint_taken = refl

connects : (connect world (some host)).result ≡ ok (host_key, algorithms)
unfolding connect bx_ssh.Tests.Fixtures.shake_hands bx_ssh.Ssh.Connect.check_server_key
    bx_ssh.Common.Text.text_eq
connects = refl

password_failure_disconnects_example :
    let r = authenticate_password world admin host_fingerprint (codes "wrong") in
    ((e : SshError foreign) × (r.result ≡ err e) × (ends_disconnected r.log ≡ true))
    ⊎ ((r.result ≡ ok (host_key, algorithms)) × (ends_disconnected r.log ≡ false))
password_failure_disconnects_example =
    password_failure_disconnects world admin host_fingerprint (codes "wrong") (host_key, algorithms)
      username_taken fingerprint_taken connects

password_stages-accepted_example :
    (accepted Stage.new
        (stages (authenticate_password world admin host_fingerprint (codes "secret")).log)
      ≡ stages (authenticate_password world admin host_fingerprint (codes "secret")).log)
    × ((c : Connected)
        → (authenticate_password world admin host_fingerprint (codes "secret")).result ≡ ok c
        → (run Stage.new (
            stages
              (authenticate_password world admin host_fingerprint (codes "secret")).log)).current
          ≡ authenticating)
password_stages-accepted_example =
    password_stages-accepted world admin host_fingerprint (codes "secret")

wrong_password :
    (authenticate_password world admin host_fingerprint (codes "wrong")).result
    ≡ err (authentication_rejected (codes "password"))
unfolding authenticate_password bx_ssh.Contracts.Connection.is_blank bx_ssh.Common.Text.trim
    bx_ssh.Common.Text.is_whitespace parse bx_ssh.Common.Text.strip_prefix
    bx_ssh.Common.Text.as_bytes bx_ssh.Ssh.Fingerprint.is_base64_byte connect
    bx_ssh.Tests.Fixtures.shake_hands bx_ssh.Ssh.Connect.check_server_key bx_ssh.Common.Text.text_eq
wrong_password = refl

password_error_stage_example :
    IsStageless {F = foreign} (authentication_rejected (codes "password"))
    ⊎ (connection_stage {F = foreign} (authentication_rejected (codes "password"))
        ≡ some (
            last_stage created
              (authenticate_password world admin host_fingerprint (codes "wrong")).log))
password_error_stage_example =
    password_error_stage world admin host_fingerprint (codes "wrong")
      (authentication_rejected (codes "password")) wrong_password

connect_ends_example :
    ((c : Connected) × ((connect world none).result ≡ ok c)
      × ((connect world none).log
          ≡ stage resolving_dns ∷ stage connecting_tcp ∷ stage handshaking ∷ []))
    ⊎ ((e : SshError foreign) × ((connect world none).result ≡ err e)
        × (((connect world none).log ≡ stage resolving_dns ∷ [])
            ⊎ ((connect world none).log ≡ stage resolving_dns ∷ stage connecting_tcp ∷ [])
            ⊎ ((connect world none).log
                ≡ stage resolving_dns ∷ stage connecting_tcp ∷ stage handshaking ∷ []))
        × ((e ≡ connection_cancelled)
            ⊎ (connection_stage e ≡ some (last_stage created (connect world none).log))))
connect_ends_example = connect_ends world none

abbrev endpoint : SshEndpoint
endpoint = record {
  host = codes "host";
  port = 22;
  connect_timeout = 10;
  operation_timeout = 30;
  keep_alive_interval = some 30;
}

abbrev quiet : ConnectionSettings
quiet = record { connect_timeout_secs = 5; keep_alive_secs = 0 }

endpoint_built : Endpoint.new {F = foreign} (codes "host") 22 ≡ ok endpoint
unfolding Endpoint.new bx_ssh.Common.Text.trim bx_ssh.Common.Text.is_whitespace
endpoint_built = refl

endpoint-IsEndpoint : IsEndpoint endpoint
unfolding bx_ssh.Common.Text.trim bx_ssh.Common.Text.is_whitespace
endpoint-IsEndpoint = record {
  host_written = λ b. cc b.0;
  host_trimmed = refl;
  port_used = omega arith;
  interval_pos = λ n h. ground arith;
}
