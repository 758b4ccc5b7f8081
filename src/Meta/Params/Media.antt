-- ===== src/Meta/Params/Media.antt =====
-- Parameter constants of the method catalog (crates/telegram-api-meta/src/lib.rs), in source order.
use telegram_bot_delivery_en.Base.{false, true}
use telegram_bot_delivery_en.Meta.Spec.{
  ParamSpec, array, boolean, input_file, integer, object, string, string_or_integer,
}

abbrev pub suggested_tip_amounts : ParamSpec
suggested_tip_amounts = record {
  name = "suggested_tip_amounts";
  kind = array;
  required = false;
  file = false;
}

abbrev pub start_parameter : ParamSpec
start_parameter = record { name = "start_parameter"; kind = string; required = false; file = false }

abbrev pub provider_token : ParamSpec
provider_token = record { name = "provider_token"; kind = string; required = false; file = false }

abbrev pub provider_data : ParamSpec
provider_data = record { name = "provider_data"; kind = string; required = false; file = false }

abbrev pub need_name : ParamSpec
need_name = record { name = "need_name"; kind = boolean; required = false; file = false }

abbrev pub need_phone_number : ParamSpec
need_phone_number = record {
  name = "need_phone_number";
  kind = boolean;
  required = false;
  file = false;
}

abbrev pub need_email : ParamSpec
need_email = record { name = "need_email"; kind = boolean; required = false; file = false }

abbrev pub need_shipping_address : ParamSpec
need_shipping_address = record {
  name = "need_shipping_address";
  kind = boolean;
  required = false;
  file = false;
}

abbrev pub send_phone_number_to_provider : ParamSpec
send_phone_number_to_provider = record {
  name = "send_phone_number_to_provider";
  kind = boolean;
  required = false;
  file = false;
}

abbrev pub send_email_to_provider : ParamSpec
send_email_to_provider = record {
  name = "send_email_to_provider";
  kind = boolean;
  required = false;
  file = false;
}

abbrev pub is_flexible : ParamSpec
is_flexible = record { name = "is_flexible"; kind = boolean; required = false; file = false }

abbrev pub until_date : ParamSpec
until_date = record { name = "until_date"; kind = integer; required = false; file = false }

abbrev pub permissions : ParamSpec
permissions = record { name = "permissions"; kind = object; required = false; file = false }

abbrev pub invite_link : ParamSpec
invite_link = record { name = "invite_link"; kind = string; required = false; file = false }

abbrev pub sticker_type : ParamSpec
sticker_type = record { name = "sticker_type"; kind = string; required = false; file = false }

abbrev pub needs_repainting : ParamSpec
needs_repainting = record {
  name = "needs_repainting";
  kind = boolean;
  required = false;
  file = false;
}

abbrev pub format : ParamSpec
format = record { name = "format"; kind = string; required = false; file = false }

abbrev pub mask_position : ParamSpec
mask_position = record { name = "mask_position"; kind = object; required = false; file = false }

abbrev pub keywords : ParamSpec
keywords = record { name = "keywords"; kind = array; required = false; file = false }

abbrev pub custom_emoji_id : ParamSpec
custom_emoji_id = record { name = "custom_emoji_id"; kind = string; required = false; file = false }

abbrev pub position : ParamSpec
position = record { name = "position"; kind = integer; required = false; file = false }

abbrev pub inline_message_id : ParamSpec
inline_message_id = record {
  name = "inline_message_id";
  kind = string;
  required = false;
  file = false;
}

abbrev pub url : ParamSpec
url = record { name = "url"; kind = string; required = false; file = false }

abbrev pub ok : ParamSpec
ok = record { name = "ok"; kind = boolean; required = false; file = false }

abbrev pub error_message : ParamSpec
error_message = record { name = "error_message"; kind = string; required = false; file = false }

abbrev pub cache_time : ParamSpec
cache_time = record { name = "cache_time"; kind = integer; required = false; file = false }

abbrev pub is_personal : ParamSpec
is_personal = record { name = "is_personal"; kind = boolean; required = false; file = false }

abbrev pub next_offset : ParamSpec
next_offset = record { name = "next_offset"; kind = string; required = false; file = false }

abbrev pub results : ParamSpec
results = record { name = "results"; kind = array; required = false; file = false }

abbrev pub commands : ParamSpec
commands = record { name = "commands"; kind = array; required = false; file = false }

abbrev pub scope : ParamSpec
scope = record { name = "scope"; kind = object; required = false; file = false }

abbrev pub language_code : ParamSpec
language_code = record { name = "language_code"; kind = string; required = false; file = false }

abbrev pub description : ParamSpec
description = record { name = "description"; kind = string; required = false; file = false }

abbrev pub short_description : ParamSpec
short_description = record {
  name = "short_description";
  kind = string;
  required = false;
  file = false;
}

abbrev pub menu_button : ParamSpec
menu_button = record { name = "menu_button"; kind = object; required = false; file = false }

abbrev pub rights : ParamSpec
rights = record { name = "rights"; kind = object; required = false; file = false }

abbrev pub custom_title : ParamSpec
custom_title = record { name = "custom_title"; kind = string; required = false; file = false }

abbrev pub sender_chat_id : ParamSpec
sender_chat_id = record {
  name = "sender_chat_id";
  kind = string_or_integer;
  required = false;
  file = false;
}

abbrev pub chat_id_req : ParamSpec
chat_id_req = record { name = "chat_id"; kind = string_or_integer; required = true; file = false }

abbrev pub user_id : ParamSpec
user_id = record { name = "user_id"; kind = integer; required = true; file = false }

abbrev pub message_id : ParamSpec
message_id = record { name = "message_id"; kind = integer; required = true; file = false }

abbrev pub from_chat_id : ParamSpec
from_chat_id = record {
  name = "from_chat_id";
  kind = string_or_integer;
  required = true;
  file = false;
}

abbrev pub media_file : ParamSpec
media_file = record { name = "media"; kind = input_file; required = true; file = true }

abbrev pub media_array : ParamSpec
media_array = record { name = "media"; kind = array; required = true; file = true }
