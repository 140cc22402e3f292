-- ===== src/Tests/Channels.antt =====
-- The theorems on whole channels and on the end of retransmission, at concrete connections.
use turntf_rs.Prelude.{◌+◌, ◌≡◌, refl, true, ap, some, ok, inl, [], ◌∷◌, All, arith, ltb}
use turntf_rs.Types.{RelayKind, RelayEnvelope, DeliveryMode}
use turntf_rs.Proto.{SendMessageRequest}
use turntf_rs.Relay.Connection.{
  Connection, new_connection, envelope, send_frame, send_relay_envelope, effective_mode,
}
use turntf_rs.Relay.SendTask.{
  received, loop_head, window_open, wait_window, loop_step, step_of, reliable_step, transmit,
  after_send, numbered,
}
use turntf_rs.Relay.Wire.{
  to_wire, decode-encode_relay_envelope, decode_relay_envelope, encode_relay_envelope,
}
use turntf_rs.Client.Packets.{
  send_packet_to_session, send_packet_inner, send_checked, check_packet, packet_request, check_body,
  check_session,
}
use turntf_rs.Validation.{validate_user_ref, validate_delivery_mode, validate_session_ref, trim}
use turntf_rs.Tests.Formats.{plain_codec, plain_codec_filled}
use turntf_rs.Relay.Window.Runs.{wake, connection_step}
use turntf_rs.Relay.Channel.Runs.{taken}
use turntf_rs.Relay.Channel.Streams.{IsPrefix}
use turntf_rs.Relay.Channel.Delivery.{handle_all, Arrives, channel_refines}
use turntf_rs.Relay.Frames.{with_sent}
use turntf_rs.Relay.Stall.{ticks}
use turntf_rs.Relay.Exhaustion.{IsRetrying, retransmissions_end}
use turntf_rs.Tests.Fixtures.{world, opened, in_flight}
use turntf_rs.Tests.Relays.{opened-IsFresh, opened-IsIdle, one_sent}

abbrev after_one : Connection
after_one = connection_step world (wake (received (some (7 ∷ [])))) (loop_head opened)

-- The frame that goes out for the payload.
abbrev the_frame : RelayEnvelope
unfolding envelope
the_frame = envelope world RelayKind.«data» 1 0 (7 ∷ []) opened

abbrev the_request : SendMessageRequest
the_request =
    packet_request opened.remote_peer (plain_codec.encode (to_wire the_frame))
      DeliveryMode.route_retry (some opened.remote_session)

frame_checked :
    check_packet opened.remote_peer
      (plain_codec.encode (to_wire the_frame))
      DeliveryMode.route_retry
      (some opened.remote_session)
    ≡ ok tt
unfolding check_packet check_body check_session new_connection validate_user_ref
    validate_delivery_mode validate_session_ref trim
frame_checked = let (b, rest, e) = plain_codec_filled (to_wire the_frame) in rw e refl

frame_sent :
    send_frame world RelayKind.«data» 1 0 (7 ∷ []) (numbered (7 ∷ []) (loop_head opened))
    ≡ (ok tt, with_sent (the_request ∷ []) (numbered (7 ∷ []) (loop_head opened)))
unfolding send_frame send_relay_envelope encode_relay_envelope send_packet_to_session
    send_packet_inner send_checked packet_request envelope loop_head wait_window window_open
    new_connection effective_mode
frame_sent = rw frame_checked refl

sent_one : after_one.sent ≡ the_request ∷ []
unfolding connection_step loop_step step_of reliable_step transmit after_send loop_head wait_window
    window_open new_connection
sent_one = ap (λ r. (after_send r).0.sent) frame_sent

twice-Arrives : All (Arrives world.codec after_one.sent) (the_frame ∷ the_frame ∷ [])
unfolding packet_request
twice-Arrives = rw sent_one (inl back, (inl back, tt))
  where
    back : decode_relay_envelope plain_codec (plain_codec.encode (to_wire the_frame)) ≡ ok the_frame
    back = unfold encode_relay_envelope in decode-encode_relay_envelope plain_codec the_frame

channel_refines_example :
    IsPrefix (handle_all world (the_frame ∷ the_frame ∷ []) opened).delivered (taken one_sent)
channel_refines_example =
    channel_refines world world opened after_one opened one_sent (the_frame ∷ the_frame ∷ [])
      opened-IsIdle (unfold new_connection in refl) opened-IsFresh twice-Arrives

spawned-IsRetrying : IsRetrying (loop_head opened)
unfolding new_connection loop_head wait_window window_open
spawned-IsRetrying = record {
  mode = λ e. cc e;
  polling = inl refl;
  alive = λ e. cc e;
  running = refl;
  counting = omega arith;
  small = omega arith;
}

-- Nothing is in flight, and the connection is closed all the same.
idle_closed_test : (ticks world 6 (loop_head opened)).closed ≡ true
unfolding loop_head wait_window window_open new_connection
idle_closed_test = retransmissions_end world 6 (loop_head opened) spawned-IsRetrying

in_flight-IsRetrying : IsRetrying in_flight
unfolding new_connection
in_flight-IsRetrying = record {
  mode = λ e. cc e;
  polling = inl refl;
  alive = λ e. cc e;
  running = refl;
  counting = omega arith;
  small = omega arith;
}

retransmissions_end_example :
    (ticks world 6 in_flight).closed
    ≡ ltb in_flight.config.max_retransmits (in_flight.retrans_cnt + 6)
retransmissions_end_example = retransmissions_end world 6 in_flight in_flight-IsRetrying
