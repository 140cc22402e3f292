-- ===== src/Client/Packets.antt =====
-- src/client.rs, the transient packets: `send_packet`, `send_packet_to_session` and what they check
-- before the request goes out. The request types come from proto/client.proto.
use turntf_rs.Prelude.{ℤ, pos, List, [], ◌∷◌, ◌++◌, Option, none, map_option, some, ok, err, ◌>>◌}
use turntf_rs.Errors.{Fallible, validation, protocol}
use turntf_rs.Types.{Bytes, UserRef, SessionRef, DeliveryMode, RelayAccepted}
use turntf_rs.Proto.{SendMessageRequest}
use turntf_rs.Mapping.{delivery_mode_to_proto, user_ref_to_proto, session_ref_to_proto}
use turntf_rs.Validation.{validate_user_ref, validate_delivery_mode, validate_session_ref}

-- The client's `rpc`, for a packet: what came before, the request, and the answer. `some` is the
-- variant `RpcValue::RelayAccepted`, `none` any other variant.
abbrev pub Rpc : Type 0
Rpc = List SendMessageRequest → SendMessageRequest → Fallible (Option RelayAccepted)

abbrev pub Sent {ℓ} : Type ℓ → Type ℓ
Sent A = A × List SendMessageRequest

accepted : Fallible (Option RelayAccepted) → Fallible RelayAccepted
accepted (ok (some a)) = ok a
accepted (ok none) = err (protocol "missing transient_accepted in send response")
accepted (err e) = err e

unfoldable pub check_body : Bytes → Fallible (Unit {0})
check_body [] = err (validation "body is required")
check_body (b ∷ bs) = ok tt

unfoldable pub check_session : Option SessionRef → Fallible (Unit {0})
check_session none = ok tt
check_session (some s) = validate_session_ref s "target_session"

-- The checks at the head of `send_packet_inner`.
unfoldable pub check_packet :
    UserRef → Bytes → DeliveryMode → Option SessionRef → Fallible (Unit {0})
unfolding check_body check_session validate_user_ref validate_delivery_mode validate_session_ref
check_packet target body mode session = do
  validate_user_ref target "target"
  validate_delivery_mode mode
  check_session session
  check_body body

-- `ClientDeliveryKind::Transient`
abbrev pub transient : ℤ
transient = pos 2

unfoldable pub packet_request :
    UserRef → Bytes → DeliveryMode → Option SessionRef → SendMessageRequest
unfolding delivery_mode_to_proto
packet_request target body mode session = record {
  target = some (user_ref_to_proto target);
  body = body;
  delivery_kind = transient;
  delivery_mode = delivery_mode_to_proto mode;
  sync_mode = pos 0;
  target_session = map_option session_ref_to_proto session;
}

-- Runs the request if the checks passed, and records it.
unfoldable pub send_checked :
    Rpc
    → List SendMessageRequest
    → SendMessageRequest
    → Fallible (Unit {0})
    → Sent (Fallible RelayAccepted)
unfolding accepted
send_checked rpc sent request (ok _) = (accepted (rpc sent request), sent ++ request ∷ [])
send_checked rpc sent request (err e) = (err e, sent)

-- `send_packet_inner`, with the requests that went out before and after it.
unfoldable pub send_packet_inner :
    Rpc
    → List SendMessageRequest
    → UserRef
    → Bytes
    → DeliveryMode
    → Option SessionRef
    → Sent (Fallible RelayAccepted)
unfolding send_checked check_packet packet_request
send_packet_inner rpc sent target body mode session =
    send_checked rpc sent (packet_request target body mode session)
      (check_packet target body mode session)

-- `send_packet`
unfoldable pub send_packet :
    Rpc → List SendMessageRequest → UserRef → Bytes → DeliveryMode → Sent (Fallible RelayAccepted)
unfolding send_packet_inner
send_packet rpc sent target body mode = send_packet_inner rpc sent target body mode none

-- `send_packet_to_session`
unfoldable pub send_packet_to_session :
    Rpc
    → List SendMessageRequest
    → UserRef
    → Bytes
    → DeliveryMode
    → SessionRef
    → Sent (Fallible RelayAccepted)
unfolding send_packet_inner
send_packet_to_session rpc sent target body mode session =
    send_packet_inner rpc sent target body mode (some session)
