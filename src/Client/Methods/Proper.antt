-- ===== src/Client/Methods/Proper.antt =====
-- The requests that the typed calls of src/client.rs write.
use Prim.Native.Char.{Char}
use turntf_rs.Prelude.{
  ℕ, String, [], ◌∷◌, Option, none, some, ok, err, if_cases, if◌then◌else◌, All, All-append, str_eq,
}
use turntf_rs.Errors.{Error, Fallible}
use turntf_rs.Types.{Json, channel_subscription, user_blacklist}
use turntf_rs.Proto.{ClientBody}
use turntf_rs.Client.Session.{Inner, ClientEnvelope, ack_message, request, is_closed}
use turntf_rs.Client.Calls.{Sink, send_envelope, write_to, written_by, sent, register, begin_rpc}
use turntf_rs.Client.Call.{start}
use turntf_rs.Client.Requests.Attachments.{empty_object}
use turntf_rs.Client.Requests.Sendable.{AllSendable, IsSendable}
use turntf_rs.Client.Requests.Checked
use turntf_rs.Client.Requests.Checked.Users as CheckedUsers
use turntf_rs.Client.Requests.Checked.Metadata as CheckedMetadata
use turntf_rs.Client.Methods.{
  Method, send_message, send_packet, create_user, create_channel, get_user, update_user,
  delete_user, list_users, get_user_metadata, upsert_user_metadata, delete_user_metadata,
  scan_user_metadata, subscribe_channel, unsubscribe_channel, list_subscriptions, block_user,
  unblock_user, list_blocked_users, upsert_attachment, delete_attachment, list_attachments,
  list_messages, list_node_logged_in_users, resolve_user_sessions, request_of, begin_method,
}

request_of-AllSendable :
    {J : Json} (debug_char : Char → String) (m : Method J) → AllSendable (request_of debug_char m)
unfolding request_of
request_of-AllSendable d (send_message t b) = Checked.message_request_lem t b
request_of-AllSendable d (send_packet t b mode s) = Checked.packet_request_lem t b mode s
request_of-AllSendable d (create_user r) = CheckedUsers.create_user_request_lem r
request_of-AllSendable d (create_channel r) =
    CheckedUsers.create_user_request_lem
      (record r { role = if str_eq r.role "" then "channel" else r.role })
request_of-AllSendable d (get_user t) = Checked.get_user_request_lem t
request_of-AllSendable d (update_user t r) = CheckedUsers.update_user_request_lem t r
request_of-AllSendable d (delete_user t) = Checked.delete_user_request_lem t
request_of-AllSendable d (list_users r) = CheckedUsers.list_users_request_lem r
request_of-AllSendable d (get_user_metadata o k) = CheckedMetadata.get_metadata_request_lem d o k
request_of-AllSendable d (upsert_user_metadata o k r) =
    CheckedMetadata.upsert_metadata_request_lem d o k r
request_of-AllSendable d (delete_user_metadata o k) =
    CheckedMetadata.delete_metadata_request_lem d o k
request_of-AllSendable d (scan_user_metadata o r) = CheckedMetadata.scan_metadata_request_lem d o r
request_of-AllSendable d (subscribe_channel s c) =
    Checked.upsert_request_lem s c channel_subscription empty_object
request_of-AllSendable d (unsubscribe_channel s c) =
    Checked.delete_request_lem s c channel_subscription
request_of-AllSendable d (list_subscriptions s) =
    Checked.list_request_lem s (some channel_subscription)
request_of-AllSendable d (block_user o b) =
    Checked.upsert_request_lem o b user_blacklist empty_object
request_of-AllSendable d (unblock_user o b) = Checked.delete_request_lem o b user_blacklist
request_of-AllSendable d (list_blocked_users o) = Checked.list_request_lem o (some user_blacklist)
request_of-AllSendable d (upsert_attachment o s t config) = Checked.upsert_request_lem o s t config
request_of-AllSendable d (delete_attachment o s t) = Checked.delete_request_lem o s t
request_of-AllSendable d (list_attachments o t) = Checked.list_request_lem o t
request_of-AllSendable d (list_messages t limit) = Checked.list_messages_request_lem t limit
request_of-AllSendable d (list_node_logged_in_users n) = Checked.logged_in_request_lem n
request_of-AllSendable d (resolve_user_sessions u) = Checked.sessions_request_lem u
request_of-AllSendable d _ = tt

-- An envelope that the server can take: a request of it is one.
abbrev pub IsProper : ClientEnvelope → Type 0
IsProper (ack_message _) = Unit {0}
IsProper (request id body) = IsSendable body

module _ {S R : Type 0} (sink : Sink) (id : ℕ) (body : ClientBody) where
  -- What a write leaves, whether it succeeds or not.
  abbrev Writes : Inner S R → Fallible (Unit {0}) × Inner S R → Type 0
  Writes x r = All IsProper (sent id r).1.written

  written_by-Writes :
      (o : Option String) (x : Inner S R)
      → IsSendable body
      → All IsProper x.written
      → Writes x (written_by o (request id body) x)
  unfolding written_by sent
  written_by-Writes none x b h = All-append IsProper x.written (request id body ∷ []) h (b, tt)
  written_by-Writes (some cause) x b h = h

  write_to-Writes :
      (w : Option ℕ) (x : Inner S R)
      → IsSendable body
      → All IsProper x.written
      → Writes x (write_to sink (request id body) w x)
  unfolding write_to sent
  write_to-Writes none x b h = h
  write_to-Writes (some _) x b h = written_by-Writes (sink x.written (request id body)) x b h

module _ {S R : Type 0} (sink : Sink) where
  begin_rpc-All :
      (body : ClientBody) (x : Inner S R)
      → IsSendable body
      → All IsProper x.written
      → All IsProper (begin_rpc sink body x).1.written
  unfolding begin_rpc send_envelope
  begin_rpc-All body x b h =
      let (id, y) = register x in
      if_cases (Writes sink id body y) (is_closed y) (err Error.closed, y)
        (write_to sink (request id body) y.writer y) (λ _. unfold sent in h)
        (λ _. write_to-Writes sink id body y.writer y b h)

  start-All :
      (request : Fallible ClientBody) (x : Inner S R)
      → AllSendable request
      → All IsProper x.written
      → All IsProper (start sink request x).1.written
  unfolding start
  start-All (err e) x b h = h
  start-All (ok body) x b h = begin_rpc-All body x b h

  -- Whatever is called and with whatever arguments, every request that a call of the client writes is
  -- proper: references are positive, bodies, names and roles are not empty, a channel has no login
  -- name, a message is kept or has a delivery mode, keys and limits of metadata are in bounds, and
  -- the visibility of a user is a Boolean that does not expire.
  pub begin_method-IsProper :
      {J : Json} (debug_char : Char → String) (m : Method J) (x : Inner S R)
      → All IsProper x.written
      → All IsProper (begin_method debug_char sink m x).1.written
  unfolding begin_method
  begin_method-IsProper debug_char m x h =
      start-All (request_of debug_char m) x (request_of-AllSendable debug_char m) h
