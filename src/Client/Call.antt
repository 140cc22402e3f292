-- ===== src/Client/Call.antt =====
-- A typed call of src/client.rs: checks and the request, and which variant of the answer it takes.
-- `rpc` lies between the two.
use turntf_rs.Prelude.{ℕ, String, List, Option, none, some, ok, err, ok_or}
use turntf_rs.Errors.{Fallible, protocol}
use turntf_rs.Types.{
  Json, User, UserMetadata, UserMetadataScanResult, Message, RelayAccepted, Attachment, Event,
  ClusterNode, LoggedInUser, ResolvedUserSessions, OperationsStatus, DeleteUserResult,
}
use turntf_rs.Proto.{ClientBody}
use turntf_rs.Client.Session.{Inner, RpcValue, unit, message, relay_accepted, metrics, record_of}
use turntf_rs.Client.Calls.{Sink, Outcome, begin_rpc, end_rpc}
use turntf_rs.Client.Answers.{Answer}

pub record Call (J : Json) (A : Type 0) : Type 0 where
  pub request : Fallible ClientBody
  pub answer_of : RpcValue (Answer J) → Option A
  pub missing : String

-- The call that converts what another returns.
abbrev pub map_call : {J : Json} {A B : Type 0} → (A → B) → Call J A → Call J B
map_call f call = record {
  request = call.request;
  answer_of = λ v. elim (call.answer_of v) [ none ↦ none | some a ↦ some (f a) ];
  missing = call.missing;
}

module _ {J : Json} where
  abbrev pub unit_of : RpcValue (Answer J) → Option (Unit {0})
  unit_of unit = some tt
  unit_of _ = none

  abbrev pub message_of : RpcValue (Answer J) → Option Message
  message_of (message m) = some m
  message_of _ = none

  abbrev pub relay_accepted_of : RpcValue (Answer J) → Option RelayAccepted
  relay_accepted_of (relay_accepted a) = some a
  relay_accepted_of _ = none

  abbrev pub metrics_of : RpcValue (Answer J) → Option String
  metrics_of (metrics text) = some text
  metrics_of _ = none

  abbrev pub user_of : RpcValue (Answer J) → Option User
  user_of (record_of (Answer.user v)) = some v
  user_of _ = none

  abbrev pub users_of : RpcValue (Answer J) → Option (List User)
  users_of (record_of (Answer.users v)) = some v
  users_of _ = none

  abbrev pub delete_user_result_of : RpcValue (Answer J) → Option DeleteUserResult
  delete_user_result_of (record_of (Answer.delete_user_result v)) = some v
  delete_user_result_of _ = none

  abbrev pub user_metadata_of : RpcValue (Answer J) → Option (UserMetadata J)
  user_metadata_of (record_of (Answer.user_metadata v)) = some v
  user_metadata_of _ = none

  abbrev pub user_metadata_scan_result_of : RpcValue (Answer J) → Option (UserMetadataScanResult J)
  user_metadata_scan_result_of (record_of (Answer.user_metadata_scan_result v)) = some v
  user_metadata_scan_result_of _ = none

  abbrev pub messages_of : RpcValue (Answer J) → Option (List Message)
  messages_of (record_of (Answer.messages v)) = some v
  messages_of _ = none

  abbrev pub attachment_of : RpcValue (Answer J) → Option Attachment
  attachment_of (record_of (Answer.attachment v)) = some v
  attachment_of _ = none

  abbrev pub attachments_of : RpcValue (Answer J) → Option (List Attachment)
  attachments_of (record_of (Answer.attachments v)) = some v
  attachments_of _ = none

  abbrev pub events_of : RpcValue (Answer J) → Option (List Event)
  events_of (record_of (Answer.events v)) = some v
  events_of _ = none

  abbrev pub cluster_nodes_of : RpcValue (Answer J) → Option (List ClusterNode)
  cluster_nodes_of (record_of (Answer.cluster_nodes v)) = some v
  cluster_nodes_of _ = none

  abbrev pub logged_in_users_of : RpcValue (Answer J) → Option (List LoggedInUser)
  logged_in_users_of (record_of (Answer.logged_in_users v)) = some v
  logged_in_users_of _ = none

  abbrev pub resolved_user_sessions_of : RpcValue (Answer J) → Option ResolvedUserSessions
  resolved_user_sessions_of (record_of (Answer.resolved_user_sessions v)) = some v
  resolved_user_sessions_of _ = none

  abbrev pub operations_status_of : RpcValue (Answer J) → Option OperationsStatus
  operations_status_of (record_of (Answer.operations_status v)) = some v
  operations_status_of _ = none

unfoldable pub start :
    {S R : Type 0} → Sink → Fallible ClientBody → Inner S R → Fallible ℕ × Inner S R
unfolding begin_rpc
start sink (err e) x = (err e, x)
start sink (ok body) x = begin_rpc sink body x

module _ {J : Json} {A : Type 0} (call : Call J A) where
  -- The call up to the wait for the answer: a check that fails ends it before `rpc`.
  unfoldable pub begin_call :
      {S : Type 0} → Sink → Inner S (Answer J) → Fallible ℕ × Inner S (Answer J)
  unfolding start
  begin_call sink x = start sink call.request x

  unfoldable pub taken : Fallible (RpcValue (Answer J)) → Fallible A
  taken (err e) = err e
  taken (ok v) = ok_or (protocol call.missing) (call.answer_of v)

  -- The call after the wait: an answer of another variant is a protocol error.
  unfoldable pub end_call :
      {S : Type 0} → ℕ → Outcome (Answer J) → Inner S (Answer J) → Fallible A × Inner S (Answer J)
  unfolding taken end_rpc
  end_call id outcome x = let (r, y) = end_rpc id outcome x in (taken r, y)
