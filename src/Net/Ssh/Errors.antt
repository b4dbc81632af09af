-- ===== src/Net/Ssh/Errors.antt =====
-- src/ice/net/ssh/error.cpp: the texts of the errors of libssh2.
use Prim.Native.String.{String}
use ice_test.Base.{
  ℕ, ◌≡◌, ◌≢◌, refl, sym, ap, ◌∙◌, List, [], ◌∷◌, true, none, some, Option-cases, inl, inr, arith,
}
use ice_test.Message.Category.{search, unknown_error}
use ice_test.Message.Lookup.{lacks, distinct, search_determines}

-- The constants `LIBSSH2_ERROR_*` that the source names.
pub data Errc : Type 0 where
  error_none error_socket_none error_banner_recv error_banner_send error_invalid_mac
        error_kex_failure error_alloc error_socket_send error_key_exchange_failure error_timeout
        error_hostkey_init error_hostkey_sign error_decrypt error_socket_disconnect error_proto
        error_password_expired error_file error_method_none error_authentication_failed
        error_publickey_unverified error_channel_outoforder error_channel_failure
        error_channel_request_denied error_channel_unknown error_channel_window_exceeded
        error_channel_packet_exceeded error_channel_closed error_channel_eof_sent error_scp_protocol
        error_zlib error_socket_timeout error_sftp_protocol error_request_denied
        error_method_not_supported error_inval error_invalid_poll_type error_publickey_protocol
        error_eagain error_buffer_too_small error_bad_use error_compress error_out_of_boundary
        error_agent_protocol error_socket_recv error_encrypt error_bad_socket error_known_hosts :
      Errc

unfoldable pub entries : List (Errc × String)
entries =
    (Errc.error_none, "ok")
    ∷ (Errc.error_socket_none, "invalid socket")
    ∷ (Errc.error_banner_recv, "banner recv error")
    ∷ (Errc.error_banner_send, "banner send error")
    ∷ (Errc.error_invalid_mac, "invalid mac")
    ∷ (Errc.error_kex_failure, "kex error")
    ∷ (Errc.error_alloc, "out of memory")
    ∷ (Errc.error_socket_send, "socket send error")
    ∷ (Errc.error_key_exchange_failure, "key exchange error")
    ∷ (Errc.error_timeout, "timeout")
    ∷ (Errc.error_hostkey_init, "host key importer error")
    ∷ (Errc.error_hostkey_sign, "host key verification error")
    ∷ (Errc.error_decrypt, "decrypt error")
    ∷ (Errc.error_socket_disconnect, "disconnect error")
    ∷ (Errc.error_proto, "protocol error")
    ∷ (Errc.error_password_expired, "password expired")
    ∷ (Errc.error_file, "file error")
    ∷ (Errc.error_method_none, "missing method")
    ∷ (Errc.error_authentication_failed, "authentication error")
    ∷ (Errc.error_publickey_unverified, "unverified public key")
    ∷ (Errc.error_channel_outoforder, "channel out of order")
    ∷ (Errc.error_channel_failure, "channel error")
    ∷ (Errc.error_channel_request_denied, "channel request denied")
    ∷ (Errc.error_channel_unknown, "unknown channel")
    ∷ (Errc.error_channel_window_exceeded, "channel window size exceeded")
    ∷ (Errc.error_channel_packet_exceeded, "channel packet size exceeded")
    ∷ (Errc.error_channel_closed, "channel closed")
    ∷ (Errc.error_channel_eof_sent, "channel eof sent")
    ∷ (Errc.error_scp_protocol, "scp protocol error")
    ∷ (Errc.error_zlib, "zlib error")
    ∷ (Errc.error_socket_timeout, "socket timeout")
    ∷ (Errc.error_sftp_protocol, "sftp protocol error")
    ∷ (Errc.error_request_denied, "request denied")
    ∷ (Errc.error_method_not_supported, "method not supported")
    ∷ (Errc.error_inval, "invalid requested method type")
    ∷ (Errc.error_invalid_poll_type, "invalid poll type")
    ∷ (Errc.error_publickey_protocol, "public key protocol error")
    ∷ (Errc.error_eagain, "asynchronous operation in progress")
    ∷ (Errc.error_buffer_too_small, "buffer too small")
    ∷ (Errc.error_bad_use, "bad use")
    ∷ (Errc.error_compress, "compress error")
    ∷ (Errc.error_out_of_boundary, "out of boundary")
    ∷ (Errc.error_agent_protocol, "agent protocol error")
    ∷ (Errc.error_socket_recv, "socket recv error")
    ∷ (Errc.error_encrypt, "encrypt error")
    ∷ (Errc.error_bad_socket, "bad socket")
    ∷ (Errc.error_known_hosts, "known hosts error")
    ∷ []

-- `error_category::message`: an `int` is its bit pattern, and the values of the constants are a
-- parameter.
unfoldable pub message : (Errc → ℕ) → ℕ → String
unfolding search entries
message number code = elim (search number entries code) [ some text ↦ text | none ↦ unknown_error ]

all_distinct : distinct entries ≡ true
unfolding distinct lacks entries
all_distinct = refl

module _ (number : Errc → ℕ) where
  message_found :
      (code : ℕ)
      → message number code ≢ unknown_error
      → search number entries code ≡ some (message number code)
  unfolding message
  message_found code known = elim (Option-cases (search number entries code)) [
    | inl missing ↦ absurd (known (ground (arith, missing)))
    | inr (text, at) ↦ ground (arith, at)
  ]

  pub message-injective :
      (code other : ℕ)
      → message number code ≡ message number other
      → message number code ≢ unknown_error
      → code ≡ other
  message-injective code other same known =
      search_determines number entries code other (message number code) all_distinct
        (message_found code known)
        (message_found other (λ unknown. known (same ∙ unknown)) ∙ ap some (sym same))
