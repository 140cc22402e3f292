-- ===== src/Client/Socket.antt =====
-- `read_proto` of src/client.rs: the next envelope from what the websocket's stream gives. The
-- decoder that prost generates is a parameter.
use turntf_rs.Prelude.{
  ◌≡◌, refl, ap, ◌↔◌, String, Bool, List, [], ◌∷◌, ◌++◌, Option, none, some, Result, ok, err,
  if◌then◌else◌, ok_or, All,
}
use turntf_rs.Errors.{Error, Fallible, protocol, connection}
use turntf_rs.Types.{Bytes}

-- `tungstenite::Message`, as far as `read_proto` tells its variants apart.
pub data WsMessage : Type 0 where
  text : WsMessage
  binary : Bytes → WsMessage
  ping : WsMessage
  pong : WsMessage
  close : WsMessage
  frame : WsMessage

-- What `stream.next()` gives: `none` at the stream's end, or a message, or the text of an error.
abbrev pub Item : Type 0
Item = Option (Result String WsMessage)

-- The error of a read when nothing more comes.
unfoldable pub ended : Bool → String → Error
ended closed cause = if closed then Error.closed else connection "read" cause

module _ {E : Type 0} (decode : Bytes → Option E) where
  -- What one item decides; `none` where the loop continues.
  unfoldable pub read_item : Bool → Item → Option (Fallible E)
  unfolding ended
  read_item closed none = some (err (ended closed "websocket closed"))
  read_item closed (some (err cause)) = some (err (ended closed cause))
  read_item closed (some (ok (binary payload))) =
      some (ok_or (protocol "invalid protobuf frame") (decode payload))
  read_item closed (some (ok WsMessage.ping)) = none
  read_item closed (some (ok pong)) = none
  read_item closed (some (ok WsMessage.close)) = some (err (ended closed "websocket closed"))
  read_item closed (some (ok text)) = some (err (protocol "invalid protobuf frame"))
  read_item closed (some (ok frame)) = some (err (protocol "invalid protobuf frame"))

  decided :
      Option (Fallible E)
      → List Item
      → Option (Fallible E × List Item)
      → Option (Fallible E × List Item)
  decided none items rest = rest
  decided (some r) items rest = some (r, items)

  -- `read_proto`: its result and the items after, or `none` while it waits for more.
  unfoldable pub read_proto : Bool → List Item → Option (Fallible E × List Item)
  unfolding decided read_item
  read_proto closed [] = none
  read_proto closed (item ∷ items) =
      let rest = read_proto closed items in decided (read_item closed item) items rest

  -- The messages that a read passes over.
  abbrev pub IsControl : Item → Type 0
  IsControl (some (ok WsMessage.ping)) = Unit
  IsControl (some (ok pong)) = Unit
  IsControl _ = ⊥

  -- After nothing but pings and pongs a binary message holds `env`, and `rest` is what follows.
  abbrev pub Holds : E → List Item → List Item → Type 0
  Holds env rest items =
      (before : List Item) × (payload : Bytes) × All IsControl before
      × (items ≡ before ++ some (ok (binary payload)) ∷ rest)
      × (decode payload ≡ some env)

  passed-Holds :
      (item : Item) (env : E) (items rest : List Item)
      → IsControl item
      → Holds env rest items
      → Holds env rest (item ∷ items)
  passed-Holds item env items rest c (before, payload, cs, e, d) =
      (item ∷ before, payload, (c, cs), ap (◌∷◌ item) e, d)

  decoded-Holds :
      (payload : Bytes) (env : E) (items rest : List Item) (o : Option E)
      → (later : Option (Fallible E × List Item)) → decode payload ≡ o
      → decided (some (ok_or (protocol "invalid protobuf frame") o)) items later
        ≡ some (ok env, rest)
      → Holds env rest (some (ok (binary payload)) ∷ items)
  unfolding decided
  decoded-Holds payload env items rest none later d e = absurd (cc e)
  decoded-Holds payload env items rest (some v) later d e =
      ([], payload, tt, ap (◌∷◌ (some (ok (binary payload)))) (cc e), cc (d, e))

  read-Holds :
      (closed : Bool) (env : E) (items rest : List Item)
      → read_proto closed items ≡ some (ok env, rest)
      → Holds env rest items
  unfolding read_proto decided read_item
  read-Holds closed env [] rest e = absurd (cc e)
  read-Holds closed env (none ∷ items) rest e = absurd (cc e)
  read-Holds closed env (some (err cause) ∷ items) rest e = absurd (cc e)
  read-Holds closed env (some (ok (binary payload)) ∷ items) rest e =
      decoded-Holds payload env items rest (decode payload) (read_proto closed items) refl e
  read-Holds closed env (some (ok WsMessage.ping) ∷ items) rest e =
      passed-Holds (some (ok WsMessage.ping)) env items rest tt (read-Holds closed env items rest e)
  read-Holds closed env (some (ok pong) ∷ items) rest e =
      passed-Holds (some (ok pong)) env items rest tt (read-Holds closed env items rest e)
  read-Holds closed env (some (ok WsMessage.close) ∷ items) rest e = absurd (cc e)
  read-Holds closed env (some (ok text) ∷ items) rest e = absurd (cc e)
  read-Holds closed env (some (ok frame) ∷ items) rest e = absurd (cc e)

  read_after :
      (closed : Bool) (env : E) (payload : Bytes) (before rest : List Item)
      → All IsControl before
      → decode payload ≡ some env
      → read_proto closed (before ++ some (ok (binary payload)) ∷ rest) ≡ some (ok env, rest)
  unfolding read_proto decided read_item
  read_after closed env payload [] rest cs d = rw d refl
  read_after closed env payload (none ∷ before) rest (c, cs) d = absurd c
  read_after closed env payload (some (err _) ∷ before) rest (c, cs) d = absurd c
  read_after closed env payload (some (ok text) ∷ before) rest (c, cs) d = absurd c
  read_after closed env payload (some (ok (binary _)) ∷ before) rest (c, cs) d = absurd c
  read_after closed env payload (some (ok WsMessage.close) ∷ before) rest (c, cs) d = absurd c
  read_after closed env payload (some (ok frame) ∷ before) rest (c, cs) d = absurd c
  read_after closed env payload (some (ok WsMessage.ping) ∷ before) rest (c, cs) d =
      read_after closed env payload before rest cs d
  read_after closed env payload (some (ok pong) ∷ before) rest (c, cs) d =
      read_after closed env payload before rest cs d

  -- A read returns an envelope, and leaves the rest of the stream, exactly if after nothing but
  -- pings and pongs a binary message comes that is decoded to it, and the rest follows. Whether the
  -- client is closed does not matter.
  pub read_proto_reads :
      (closed : Bool) (env : E) (items rest : List Item)
      → (read_proto closed items ≡ some (ok env, rest)) ↔ Holds env rest items
  read_proto_reads closed env items rest = (
    read-Holds closed env items rest,
    λ (before, payload, cs, e, d). rw e (read_after closed env payload before rest cs d),
  )
