-- ===== src/Store/Memory.antt =====
-- `MemoryCursorStore` of src/store.rs.
use turntf_rs.Prelude.{
  Bool, true, false, List, [], ◌∷◌, ◌++◌, Option, none, some, ok, if◌then◌else◌, ite,
}
use turntf_rs.Prelude.Dict.{Dict, lookup, insert}
use turntf_rs.Types.{Message, MessageCursor, cursor, default_user_ref, MessageCursor-discrete}
use turntf_rs.Store.{CursorStore}

pub record MemoryCursorStore : Type 0 where
  pub messages : Dict MessageCursor Message
  pub order : List MessageCursor

-- `MemoryCursorStore::new`
abbrev pub new_store : MemoryCursorStore
new_store = record { messages = []; order = [] }

abbrev pub is_some : Option Message → Bool
is_some none = false
is_some (some _) = true

-- `message`
unfoldable pub message : MessageCursor → MemoryCursorStore → Option Message
message c s = lookup MessageCursor-discrete c s.messages

-- `has_cursor`
unfoldable pub has_cursor : MessageCursor → MemoryCursorStore → Bool
unfolding message
has_cursor c s = is_some (message c s)

-- `order.contains`
unfoldable pub contains : MessageCursor → List MessageCursor → Bool
contains c [] = false
contains c (d ∷ ds) = let rest = contains c ds in ite (MessageCursor-discrete d c) true rest

-- `save_message`
unfoldable pub save_message : Message → MemoryCursorStore → MemoryCursorStore
save_message m s = record s { messages = insert MessageCursor-discrete (cursor m) m s.messages }

-- The message without content that stands for a cursor alone.
abbrev pub placeholder : MessageCursor → Message
placeholder c = record {
  recipient = default_user_ref;
  node_id = c.node_id;
  seq = c.seq;
  sender = default_user_ref;
  body = [];
  created_at_hlc = "";
}

-- `entry(cursor).or_insert_with`
unfoldable pub or_insert :
    MessageCursor → Option Message → Dict MessageCursor Message → Dict MessageCursor Message
or_insert c none ms = insert MessageCursor-discrete c (placeholder c) ms
or_insert c (some _) ms = ms

-- `save_cursor`
unfoldable pub save_cursor : MessageCursor → MemoryCursorStore → MemoryCursorStore
unfolding message or_insert
save_cursor c s = record {
  messages = or_insert c (message c s) s.messages;
  order = if contains c s.order then s.order else s.order ++ c ∷ [];
}

-- It implements the trait, and no call fails.
abbrev pub memory : CursorStore MemoryCursorStore
memory = record {
  load_seen_messages = λ s. ok s.order;
  save_message = λ m s. (ok tt, save_message m s);
  save_cursor = λ c s. (ok tt, save_cursor c s);
}
