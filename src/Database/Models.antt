-- ===== src/Database/Models.antt =====
-- database/model/database_models.h and database_enums.h: the rows as C structs. A `char*` that
-- may be NULL is an `Option`.
use sending_system.Base.{Option, Bytes, ℤ, pos}

-- MessageType, MessageStatus, MessageDirection and ConnectionRole have the same two fields.
pub record ReferenceRow : Type 0 where
  pub id : ℤ
  pub name : Option Bytes

pub record Connection : Type 0 where
  pub id : ℤ
  pub ip : Option Bytes
  pub port : ℤ
  pub is_ssl_encrypted : ℤ
  pub role_id : ℤ

pub record Message : Type 0 where
  pub id : ℤ
  pub connection_id : ℤ
  pub message_status_id : ℤ
  pub message_type_id : ℤ
  pub direction_id : ℤ
  pub response : Option Bytes
  pub sending_time : Option Bytes
  pub request : Option Bytes

pub record NamedConnection : Type 0 where
  pub id : ℤ
  pub name : Option Bytes
  pub connection_id : ℤ

pub data MessageTypeId : Type 0 where
  raw_data file : MessageTypeId

pub data MessageStatusId : Type 0 where
  success failed : MessageStatusId

pub data MessageDirectionId : Type 0 where
  outbound inbound : MessageDirectionId

pub data ConnectionRoleId : Type 0 where
  server client master slave : ConnectionRoleId

unfoldable pub type_id : MessageTypeId → ℤ
type_id raw_data = pos 1
type_id file = pos 2

unfoldable pub status_id : MessageStatusId → ℤ
status_id success = pos 1
status_id failed = pos 2

unfoldable pub direction_id : MessageDirectionId → ℤ
direction_id outbound = pos 1
direction_id inbound = pos 2

unfoldable pub role_id : ConnectionRoleId → ℤ
role_id server = pos 1
role_id client = pos 2
role_id master = pos 3
role_id slave = pos 4
