-- ===== src/Tests/Calls.antt =====
-- The theorems on the typed calls, on metadata and on the conversions, at concrete requests.
use Prim.Native.Char.{Char}
use turntf_rs.Prelude.{
  ℕ, pos, String, ◌≡◌, refl, ◌↔◌, true, [], ◌∷◌, ◌++◌, none, some, ok, err, All, length, ◌/◌,
  ℕ_discrete,
}
use turntf_rs.Prelude.Dict.{lookup}
use Prim.Native.String.{◌++◌ as ◌⧺◌}
use turntf_rs.Errors.{Error, show}
use turntf_rs.Types.{Json, UserRef, Message, channel_writer, ResolvedSession, ResolvedUserSessions}
use turntf_rs.Proto
use turntf_rs.Proto.{ClientBody}
use turntf_rs.Mapping.{
  attachment_type_from_proto, attachment_type_to_proto, resolved_user_sessions_from_proto,
}
use turntf_rs.Mapping.Reading.{attachment_type_read, resolved_sessions-IsServing, IsServing}
use turntf_rs.Validation.{validate_user_metadata_key}
use turntf_rs.Validation.Keys.{IsKey, validate_user_metadata_key-IsKey}
use turntf_rs.Store.Memory.{MemoryCursorStore, memory}
use turntf_rs.Client.Session.{Inner, RpcValue}
use turntf_rs.Client.Calls.{register, received, timed_out}
use turntf_rs.Client.Incoming.{read_one}
use turntf_rs.Client.Answers.{Answer, ServerBody, SendBody, read_envelope}
use turntf_rs.Client.Call.{begin_call, end_call}
use turntf_rs.Client.Requests.Messages
use turntf_rs.Client.Requests.Users
use turntf_rs.Client.Requests.Attachments
use turntf_rs.Client.Requests.Related.{Stamp}
use turntf_rs.Client.Methods.{Method, get_user, begin_method}
use turntf_rs.Client.Methods.Proper.{IsProper, begin_method-IsProper}
use turntf_rs.Client.Answered.{persisted, call_returns, Reported, no_user, unreadable_unanswered}
use turntf_rs.Tests.Clients.{client, open_sink}

-- JSON values that are their own text.
abbrev texts : Json
texts = record {
  Number = ℕ;
  Value = String;
  number_text = λ n. n ∷ [];
  value_text = λ v. [];
  string_value = λ s. s;
}

abbrev quoted : Char → String
quoted c = "'?'"

abbrev someone : UserRef
someone = record { node_id = pos 1; user_id = pos 42 }

-- The connected client, at rest.
abbrev caller : Inner MemoryCursorStore (Answer texts)
caller = record {
  cfg = client.cfg;
  state = client.state;
  events = client.events;
  pending = [];
  calls = 2;
  answered = [];
  writer = client.writer;
  written = [];
  request_id = 2;
  connection_id = 1;
  relay_packet_tx = none;
  login_info = none;
  store = client.store;
}

validate_user_metadata_key-IsKey_example :
    (validate_user_metadata_key quoted "profile.color" "key" ≡ ok tt) ↔ IsKey "profile.color"
validate_user_metadata_key-IsKey_example =
    validate_user_metadata_key-IsKey quoted "key" "profile.color"

attachment_type_read_example :
    (attachment_type_from_proto (pos 2) ≡ ok channel_writer)
    ↔ (pos 2 ≡ attachment_type_to_proto channel_writer)
attachment_type_read_example = attachment_type_read (pos 2) channel_writer

abbrev reported : Proto.ResolveUserSessionsResponse
reported = record {
  user = some someone;
  presence = [];
  items =
      record {
        session = some (record { serving_node_id = pos 1; session_id = "s" });
        transport = "ws";
        transient_capable = true;
      }
      ∷ [];
  count = pos 1;
}

abbrev reported_read : ResolvedUserSessions
reported_read = record {
  user = someone;
  presence = [];
  sessions =
      record {
        session = record { serving_node_id = pos 1; session_id = "s" };
        transport = "ws";
        transient_capable = true;
      }
      ∷ [];
}

resolved_sessions-IsServing_example :
    All (λ (s : ResolvedSession). IsServing s.session) reported_read.sessions
    × (length reported_read.sessions ≡ length reported.items)
unfolding resolved_user_sessions_from_proto
resolved_sessions-IsServing_example = resolved_sessions-IsServing reported reported_read refl

abbrev asking : Method texts
asking = get_user someone

begin_method-IsProper_example : All IsProper (begin_method quoted open_sink asking caller).1.written
begin_method-IsProper_example = begin_method-IsProper open_sink quoted asking caller tt

abbrev stamp : Stamp
stamp = record { attached_at = "now"; deleted_at = ""; origin_node_id = pos 1 }

abbrev channel : UserRef
channel = record { node_id = pos 1; user_id = pos 7 }

abbrev posted : Proto.Message
posted = record {
  recipient = some channel;
  node_id = pos 1;
  seq = pos 5;
  sender = some someone;
  body = 104 ∷ 105 ∷ [];
  created_at_hlc = "hlc";
}

abbrev posted_read : Message
posted_read = record {
  recipient = channel;
  node_id = pos 1;
  seq = pos 5;
  sender = someone;
  body = 104 ∷ 105 ∷ [];
  created_at_hlc = "hlc";
}

-- A message is sent, and the server answers with it.
call_returns_example :
    let call = Messages.send_message {J = texts} channel (104 ∷ 105 ∷ []) in
    let env = some (ServerBody.send_message_response 3 (some (SendBody.message posted))) in
    let (started, y) = begin_call call open_sink caller in
    let z = read_one memory open_sink (read_envelope env) y in
    (started ≡ ok (register caller).0)
    × (z.answered ≡ [] ++ (2, ok (RpcValue.message posted_read)) ∷ [])
    × (lookup ℕ_discrete (register caller).0 z.pending ≡ none)
    × ((end_call call (register caller).0 (received (ok (RpcValue.message posted_read))) z).0
        ≡ ok posted_read)
unfolding Messages.message_request register read_envelope
call_returns_example =
    call_returns memory open_sink _ _ 1 (RpcValue.message posted_read) posted_read
      (some (ServerBody.send_message_response 3 (some (SendBody.message posted)))) caller refl refl
      refl refl (persisted posted_read _ _ refl refl) refl

-- An answer without the user that it should have.
unreadable_unanswered_example :
    let y =
      read_one memory open_sink
        (read_envelope (some (ServerBody.get_user_response 3 none)))
        caller in
    Reported memory open_sink (ServerBody.get_user_response 3 none) [] caller
    × ((end_call (Users.get_user {J = texts} someone) 3 timed_out y).0
        ≡ err (
            Error.connection
              ("request " ⧺ show 3)
              ("timed out after " ⧺ show (10000000000 / 1000000) ⧺ "ms")))
unreadable_unanswered_example =
    unreadable_unanswered memory open_sink (Users.get_user {J = texts} someone) 3
      (ServerBody.get_user_response 3 none) [] caller no_user refl
