-- ===== src/Types/Core.antt =====
-- The references, messages and packets of src/types.rs.
use turntf_rs.Prelude.{ℕ, ℤ, pos, String, Option, List, ℕ_discrete, Bool}

abbrev pub Bytes : Type 0
Bytes = List ℕ

pub record UserRef : Type 0 where
  pub node_id : ℤ
  pub user_id : ℤ

-- `UserRef::default()`
abbrev pub default_user_ref : UserRef
default_user_ref = record { node_id = pos 0; user_id = pos 0 }

pub record MessageCursor : Type 0 where
  pub node_id : ℤ
  pub seq : ℤ

pub ℤ_discrete : Discrete ℤ
ℤ_discrete = hlevel ℕ_discrete

pub MessageCursor-discrete : Discrete MessageCursor
MessageCursor-discrete = hlevel ℤ_discrete

pub record SessionRef : Type 0 where
  pub serving_node_id : ℤ
  pub session_id : String

-- `SessionRef::default()`
abbrev pub default_session_ref : SessionRef
default_session_ref = record { serving_node_id = pos 0; session_id = "" }

pub data DeliveryMode : Type 0 where
  unspecified best_effort route_retry : DeliveryMode

pub record Message : Type 0 where
  pub recipient : UserRef
  pub node_id : ℤ
  pub seq : ℤ
  pub sender : UserRef
  pub body : Bytes
  pub created_at_hlc : String

-- `Message::cursor`
abbrev pub cursor : Message → MessageCursor
cursor m = record { node_id = m.node_id; seq = m.seq }

pub record Packet : Type 0 where
  pub packet_id : ℕ
  pub source_node_id : ℤ
  pub target_node_id : ℤ
  pub recipient : UserRef
  pub sender : UserRef
  pub body : Bytes
  pub delivery_mode : DeliveryMode
  pub target_session : Option SessionRef

pub record RelayAccepted : Type 0 where
  pub packet_id : ℕ
  pub source_node_id : ℤ
  pub target_node_id : ℤ
  pub recipient : UserRef
  pub delivery_mode : DeliveryMode
  pub target_session : Option SessionRef

pub record ResolvedSession : Type 0 where
  pub session : SessionRef
  pub transport : String
  pub transient_capable : Bool

pub record User : Type 0 where
  pub node_id : ℤ
  pub user_id : ℤ
  pub username : String
  pub role : String
  pub profile_json : Bytes
  pub system_reserved : Bool
  pub created_at : String
  pub updated_at : String
  pub origin_node_id : ℤ
  pub login_name : String

pub record LoginInfo : Type 0 where
  pub user : User
  pub protocol_version : String
  pub session_ref : SessionRef
