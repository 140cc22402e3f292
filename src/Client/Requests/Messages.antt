-- ===== src/Client/Requests/Messages.antt =====
-- The calls of src/client.rs for messages, packets and sessions. `send_packet_inner` is here as a call
-- like the others; Client.Packets has it with the requests that it sends.
use turntf_rs.Prelude.{ℤ, pos, List, Option, none, some, ok, err, ◌>>◌, if◌then◌else◌}
use turntf_rs.Errors.{Fallible, validation}
use turntf_rs.Types.{
  Json, Bytes, UserRef, SessionRef, DeliveryMode, Message, RelayAccepted, ResolvedUserSessions,
}
use turntf_rs.Proto.{ClientBody}
use turntf_rs.Mapping.{user_ref_to_proto}
use turntf_rs.Validation.{validate_user_ref, is_empty}
use turntf_rs.Client.Packets.{check_packet, packet_request}
use turntf_rs.Client.Call.{
  Call, unit_of, message_of, relay_accepted_of, messages_of, resolved_user_sessions_of,
}

-- `ping`
abbrev pub ping : {J : Json} → Call J (Unit {0})
ping = record {
  request = ok ClientBody.ping;
  answer_of = unit_of;
  missing = "missing pong response";
}

unfoldable pub message_request : UserRef → Bytes → Fallible ClientBody
unfolding validate_user_ref
message_request target body = do
  validate_user_ref target "target"
  if is_empty body
      then err (validation "body is required")
      else ok (
          ClientBody.send_message (record {
            target = some (user_ref_to_proto target);
            body = body;
            delivery_kind = pos 0;
            delivery_mode = pos 0;
            sync_mode = pos 0;
            target_session = none;
          }))

-- `send_message`, and `post_message`, which is the same
abbrev pub send_message : {J : Json} → UserRef → Bytes → Call J Message
send_message target body = record {
  request = message_request target body;
  answer_of = message_of;
  missing = "missing message in send response";
}

unfoldable pub session_packet_request :
    UserRef → Bytes → DeliveryMode → Option SessionRef → Fallible ClientBody
unfolding check_packet packet_request
session_packet_request target body mode session = do
  check_packet target body mode session
  ok (ClientBody.send_message (packet_request target body mode session))

-- `send_packet_inner`, of which `send_packet` and `send_packet_to_session` are the two cases
abbrev pub packet_call :
    {J : Json} → UserRef → Bytes → DeliveryMode → Option SessionRef → Call J RelayAccepted
packet_call target body mode session = record {
  request = session_packet_request target body mode session;
  answer_of = relay_accepted_of;
  missing = "missing transient_accepted in send response";
}

unfoldable pub list_messages_request : UserRef → ℤ → Fallible ClientBody
unfolding validate_user_ref
list_messages_request target limit = do
  validate_user_ref target "target"
  ok (ClientBody.list_messages (record { user = some (user_ref_to_proto target); limit = limit }))

-- `list_messages`
abbrev pub list_messages : {J : Json} → UserRef → ℤ → Call J (List Message)
list_messages target limit = record {
  request = list_messages_request target limit;
  answer_of = messages_of;
  missing = "missing items in list_messages_response";
}

unfoldable pub sessions_request : UserRef → Fallible ClientBody
unfolding validate_user_ref
sessions_request user = do
  validate_user_ref user "user"
  ok (ClientBody.resolve_user_sessions (record { user = some (user_ref_to_proto user) }))

-- `resolve_user_sessions`
abbrev pub resolve_user_sessions : {J : Json} → UserRef → Call J ResolvedUserSessions
resolve_user_sessions user = record {
  request = sessions_request user;
  answer_of = resolved_user_sessions_of;
  missing = "missing result in resolve_user_sessions_response";
}
