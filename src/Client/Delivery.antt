-- ===== src/Client/Delivery.antt =====
-- What src/client.rs does with a pushed message.
use turntf_rs.Prelude.{
  ℕ, ◌≡◌, refl, ap, ◌∙◌, String, true, false, List, [], ◌∷◌, ◌++◌, Option, none, some, Result, ok,
  err, if_cases,
}
use turntf_rs.Errors.{Error}
use turntf_rs.Types.{Message, cursor}
use turntf_rs.Store.{CursorStore}
use turntf_rs.Client.Session.{Inner, ClientEvent, ack_message, emit_event, is_closed}
use turntf_rs.Client.Calls.{Sink, send_envelope, write_to, written_by}
use turntf_rs.Client.Incoming.{
  message_pushed, persist_message, save_cursor_of, after_ack, push_message, acknowledge,
  after_persist, handle_server_envelope, Step,
}

module _ {S R : Type 0} (store : CursorStore S) (sink : Sink) where
  persist-store :
      (m : Message) (r : Result String (Unit {0}) × S) (x : Inner S R)
      → let y = (save_cursor_of store sink m r x).1 in y ≡ record x { store = y.store }
  unfolding save_cursor_of
  persist-store m (err e, s) x = refl
  persist-store m (ok _, s) x = refl

  pub persist_message_lem :
      (m : Message) (x : Inner S R)
      → let y = (persist_message store sink m x).1 in y ≡ record x { store = y.store }
  unfolding persist_message
  persist_message_lem m x = persist-store m (store.save_message m x.store) x

  after_success :
      (m : Message) (p : Step S R)
      → p.0 ≡ ok tt
      → after_persist store sink m p
        ≡ (ok tt, emit_event (ClientEvent.message m) (acknowledge store sink m p.1))
  unfolding after_persist
  after_success m (err f, y) h = absurd (cc h)
  after_success m (ok _, y) h = refl

  acknowledge_lem :
      (m : Message) (y : Inner S R) (session_id : ℕ)
      → y.cfg.ack_messages ≡ true
      → y.state.closed ≡ false
      → y.writer ≡ some session_id
      → sink y.written (ack_message (cursor m)) ≡ none
      → acknowledge store sink m y ≡ record y { written = y.written ++ ack_message (cursor m) ∷ [] }
  unfolding acknowledge send_envelope written_by write_to after_ack
  acknowledge_lem m y session_id acks running connected fine =
      let env = ack_message (cursor m) in
      let z = record y { written = y.written ++ env ∷ [] } in
      if_cases (λ w. w ≡ z) y.cfg.ack_messages (after_ack (send_envelope sink env y)) y
        (λ _.
          if_cases (λ r. after_ack r ≡ z) (is_closed y) (err Error.closed, y)
            (write_to sink env y.writer y) (λ shut. absurd (cc (shut, running)))
            (λ _.
              ap (λ w. after_ack (write_to sink env w y)) connected
              ∙ ap (λ o. after_ack (written_by o env y)) fine))
        (λ off. absurd (cc (off, acks)))

  -- If the store takes a pushed message and its cursor, the client acknowledges messages, is not
  -- closed and connected, and the write succeeds, then one acknowledgement has been written, of the
  -- message's cursor, and the application has seen one event, the message.
  pub persisted_acknowledged :
      (m : Message) (x : Inner S R) (session_id : ℕ) (es : List ClientEvent)
      → (persist_message store sink m x).0 ≡ ok tt
      → x.cfg.ack_messages ≡ true
      → x.state.closed ≡ false
      → x.writer ≡ some session_id
      → sink x.written (ack_message (cursor m)) ≡ none
      → x.events ≡ some es
      → let (r, y) = handle_server_envelope store sink (message_pushed (ok m)) x in
        (r ≡ ok tt)
        × (y.written ≡ x.written ++ ack_message (cursor m) ∷ [])
        × (y.events ≡ some (es ++ ClientEvent.message m ∷ []))
  unfolding handle_server_envelope push_message emit_event
  persisted_acknowledged m x session_id es h acks running connected fine es_are =
      let shape = persist_message_lem m x in
      let s = (persist_message store sink m x).1.store in
      let y : Inner S R = record x { store = s } in
      let z : Inner S R = record y { written = y.written ++ ack_message (cursor m) ∷ [] } in
      let path =
        after_success m (persist_message store sink m x) h
        ∙ ap
            (λ (w : Inner S R).
              (ok tt, emit_event (ClientEvent.message m) (acknowledge store sink m w)))
            shape
        ∙ ap (λ (w : Inner S R). (ok tt, emit_event (ClientEvent.message m) w))
            (acknowledge_lem m y session_id acks running connected fine) in
      (
        ap (λ (p : Step S R). p.0) path,
        ap (λ (p : Step S R). p.1.written) path,
        ap (λ (p : Step S R). p.1.events) path
            ∙ ap
                (λ (o : Option (List ClientEvent)).
                  (emit_event (ClientEvent.message m) (record z { events = o })).events)
                es_are,
      )
