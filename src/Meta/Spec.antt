-- ===== src/Meta/Spec.antt =====
-- Types of the method catalog (crates/telegram-api-meta/src/lib.rs).
use telegram_bot_delivery_en.Base.{String, Bool, List}

pub data ParamType : Type 0 where
  string integer float boolean object array input_file string_or_integer : ParamType

pub data MethodFamily : Type 0 where
  send copy forward edit delete admin sticker payment other : MethodFamily

-- `no_message` is the source's `None`.
pub data SuccessProjection : Type 0 where
  message first_message no_message : SuccessProjection

pub record ParamSpec : Type 0 where
  pub name : String
  pub kind : ParamType
  pub required : Bool
  pub file : Bool

pub record MethodSpec : Type 0 where
  pub name : String
  pub family : MethodFamily
  pub projection : SuccessProjection
  pub params : List ParamSpec
