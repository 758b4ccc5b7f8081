-- ===== src/Meta/Params/Stickers.antt =====
-- Parameter constants of the method catalog (crates/telegram-api-meta/src/lib.rs), in source order.
use telegram_bot_delivery_en.Base.{false, true}
use telegram_bot_delivery_en.Meta.Spec.{ParamSpec, array, boolean, integer, object, string}

abbrev pub member_limit : ParamSpec
member_limit = record { name = "member_limit"; kind = integer; required = false; file = false }

abbrev pub creates_join_request : ParamSpec
creates_join_request = record {
  name = "creates_join_request";
  kind = boolean;
  required = false;
  file = false;
}

abbrev pub sticker_format : ParamSpec
sticker_format = record { name = "sticker_format"; kind = string; required = false; file = false }

abbrev pub stickers : ParamSpec
stickers = record { name = "stickers"; kind = array; required = true; file = false }

abbrev pub old_sticker : ParamSpec
old_sticker = record { name = "old_sticker"; kind = string; required = true; file = false }

abbrev pub emoji_list : ParamSpec
emoji_list = record { name = "emoji_list"; kind = array; required = true; file = false }

abbrev pub inline_query_id : ParamSpec
inline_query_id = record { name = "inline_query_id"; kind = string; required = true; file = false }

abbrev pub button : ParamSpec
button = record { name = "button"; kind = object; required = false; file = false }

abbrev pub web_app_query_id_const : ParamSpec
web_app_query_id_const = record {
  name = "web_app_query_id";
  kind = string;
  required = true;
  file = false;
}

abbrev pub result_obj : ParamSpec
result_obj = record { name = "result"; kind = object; required = true; file = false }

abbrev pub allow_user_chats : ParamSpec
allow_user_chats = record {
  name = "allow_user_chats";
  kind = boolean;
  required = false;
  file = false;
}

abbrev pub callback_query_id : ParamSpec
callback_query_id = record {
  name = "callback_query_id";
  kind = string;
  required = true;
  file = false;
}

abbrev pub show_alert : ParamSpec
show_alert = record { name = "show_alert"; kind = boolean; required = false; file = false }

abbrev pub for_channels : ParamSpec
for_channels = record { name = "for_channels"; kind = boolean; required = false; file = false }
