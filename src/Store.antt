-- ===== src/Store.antt =====
-- src/store.rs: the trait `CursorStore` as an interface, and the implementation in memory.
pub mod Memory
pub mod Seen
use turntf_rs.Prelude.{String, List, Result}
use turntf_rs.Types.{Message, MessageCursor}

-- `CursorStore` over a state `S`: each call may fail, with a text.
pub record CursorStore (S : Type 0) : Type 0 where
  pub load_seen_messages : S → Result String (List MessageCursor)
  pub save_message : Message → S → Result String (Unit {0}) × S
  pub save_cursor : MessageCursor → S → Result String (Unit {0}) × S
