-- ===== src/Client/Session.antt =====
-- `Inner` of src/client.rs: the state that the client's tasks share, and the operations on it.
--
-- Each lock is held for one update. The state also records what others see: `written` is what was
-- written to the websocket, `answered` what each waiting `rpc` received. `S` is the state of the
-- cursor store, `R` the values of the answers that the client only hands on.
use turntf_rs.Prelude.{
  ℕ, ◌==◌, String, Bool, true, false, List, [], ◌∷◌, ◌++◌, map, Option, none, some, ok, err,
  if◌then◌else◌, ℕ_discrete,
}
use turntf_rs.Prelude.Dict.{Dict, lookup, remove}
use turntf_rs.Errors.{Error, Fallible}
use turntf_rs.Proto.{ClientBody}
use turntf_rs.Types.{
  Message, MessageCursor, Packet, SessionRef, RelayAccepted, LoginInfo, Credentials,
}

-- `Config` but for the cursor store, whose state stands in `Inner`; the delays in nanoseconds.
pub record Config : Type 0 where
  pub base_url : String
  pub credentials : Credentials
  pub login_name : Option String
  pub reconnect : Bool
  pub initial_reconnect_delay : ℕ
  pub max_reconnect_delay : ℕ
  pub ping_interval : ℕ
  pub request_timeout : ℕ
  pub ack_messages : Bool
  pub transient_only : Bool
  pub realtime_stream : Bool
  pub event_channel_capacity : ℕ

pub data ClientEvent : Type 0 where
  login : LoginInfo → ClientEvent
  message : Message → ClientEvent
  packet : Packet → ClientEvent
  error : Error → ClientEvent
  disconnect : Error → ClientEvent

pub record State : Type 0 where
  pub closed : Bool
  pub connected : Bool
  pub stop_reconnect : Bool
  pub terminal_error : Option Error

-- `record_of` stands for the variants whose content the session does not look at.
pub data RpcValue (R : Type 0) : Type 0 where
  unit : RpcValue R
  message : Message → RpcValue R
  relay_accepted : RelayAccepted → RpcValue R
  metrics : String → RpcValue R
  record_of : R → RpcValue R

-- What the session writes: an acknowledgement, or the request of an `rpc` with its id.
pub data ClientEnvelope : Type 0 where
  ack_message : MessageCursor → ClientEnvelope
  request : ℕ → ClientBody → ClientEnvelope

pub record Inner (S R : Type 0) : Type 0 where
  pub cfg : Config
  pub state : State
  pub events : Option (List ClientEvent)
  pub pending : Dict ℕ ℕ
  pub calls : ℕ
  pub answered : List (ℕ × Fallible (RpcValue R))
  pub writer : Option ℕ
  pub written : List ClientEnvelope
  pub request_id : ℕ
  pub connection_id : ℕ
  pub relay_packet_tx : Option (List Packet)
  pub login_info : Option LoginInfo
  pub store : S

cleared : ℕ → Option ℕ → Option ℕ
cleared session_id none = none
cleared session_id (some active) = if active == session_id then none else some active

session_of : Option LoginInfo → Option SessionRef
session_of none = none
session_of (some info) = some info.session_ref

unfoldable pub poll : State → Option Error → Option (Fallible (Unit {0}))
poll s none =
    if s.connected then some (ok tt) else if s.closed then some (err Error.closed) else none
poll s (some e) = if s.connected then some (ok tt) else some (err e)

module _ {S R : Type 0} where
  -- `emit_event`: nothing once the channel is gone.
  unfoldable pub emit_event : ClientEvent → Inner S R → Inner S R
  emit_event event x = record x {
    events = elim x.events [ none ↦ none | some es ↦ some (es ++ event ∷ []) ];
  }

  -- `is_closed`
  abbrev pub is_closed : Inner S R → Bool
  is_closed x = x.state.closed

  unfoldable pub answer : ℕ → Fallible (RpcValue R) → Option ℕ → Inner S R → Inner S R
  answer request_id result none x = x
  answer request_id result (some call) x = record x {
    pending = remove ℕ_discrete request_id x.pending;
    answered = x.answered ++ (call, result) ∷ [];
  }

  -- `resolve_pending`
  unfoldable pub resolve_pending : ℕ → Fallible (RpcValue R) → Inner S R → Inner S R
  unfolding answer
  resolve_pending request_id result x =
      answer request_id result (lookup ℕ_discrete request_id x.pending) x

  -- `fail_all_pending`
  unfoldable pub fail_all_pending : Error → Inner S R → Inner S R
  fail_all_pending cause x = record x {
    pending = [];
    answered = x.answered ++ map (λ (request_id, call). (call, err cause)) x.pending;
  }

  -- `set_connected`
  unfoldable pub set_connected : Bool → Inner S R → Inner S R
  set_connected connected x = record x {
    state = record (x.state) {
      connected = connected;
      terminal_error = if connected then none else x.state.terminal_error;
    };
  }

  -- `set_terminal_error`
  unfoldable pub set_terminal_error : Error → Inner S R → Inner S R
  set_terminal_error cause x = record x {
    state = record (x.state) { connected = false; terminal_error = some cause };
  }

  -- `clear_writer`: only the writer of this session.
  unfoldable pub clear_writer : ℕ → Inner S R → Inner S R
  unfolding cleared
  clear_writer session_id x = record x { writer = cleared session_id x.writer }

  -- `take_writer`
  unfoldable pub take_writer : Inner S R → Inner S R
  take_writer x = record x { writer = none }

  -- `session_ref`
  unfoldable pub session_ref : Inner S R → Option SessionRef
  unfolding session_of
  session_ref x = session_of x.login_info

  -- `set_relay_packet_tx`
  unfoldable pub set_relay_packet_tx : Option (List Packet) → Inner S R → Inner S R
  set_relay_packet_tx tx x = record x { relay_packet_tx = tx }

  -- What `ensure_started` resets when it starts the run task anew.
  unfoldable pub ensure_started : Bool → Inner S R → Inner S R
  ensure_started running x = if running then x else record x {
    state = record (x.state) { connected = false; stop_reconnect = false; terminal_error = none };
  }

  unfoldable pub mark_closed : Inner S R → Inner S R
  mark_closed x = record x {
    state = record (x.state) {
      closed = true;
      connected = false;
      terminal_error = some Error.closed;
    };
  }

  unfoldable pub announce_closed : Inner S R → Inner S R
  unfolding mark_closed emit_event
  announce_closed x =
      if is_closed x then x else emit_event (disconnect Error.closed) (mark_closed x)

  -- `close`, whose last step drops the event channel.
  unfoldable pub close : Inner S R → Inner S R
  unfolding announce_closed fail_all_pending take_writer
  close x = record (take_writer (fail_all_pending Error.closed (announce_closed x))) {
    events = none;
  }

  -- What the loop of `connect` decides, `none` to wait on.
  unfoldable pub poll_connect : Inner S R → Option (Fallible (Unit {0}))
  unfolding poll
  poll_connect x = poll x.state x.state.terminal_error
