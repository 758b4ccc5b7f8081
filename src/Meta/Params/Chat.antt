-- ===== src/Meta/Params/Chat.antt =====
-- Parameter constants of the method catalog (crates/telegram-api-meta/src/lib.rs), in source order.
use telegram_bot_delivery_en.Base.{false, true}
use telegram_bot_delivery_en.Meta.Spec.{
  ParamSpec, array, boolean, float, input_file, integer, object, string,
}

abbrev pub question_text : ParamSpec
question_text = record { name = "question"; kind = string; required = true; file = false }

abbrev pub options_array : ParamSpec
options_array = record { name = "options"; kind = array; required = true; file = false }

abbrev pub phone_num : ParamSpec
phone_num = record { name = "phone_number"; kind = string; required = true; file = false }

abbrev pub first_name : ParamSpec
first_name = record { name = "first_name"; kind = string; required = true; file = false }

abbrev pub latitude : ParamSpec
latitude = record { name = "latitude"; kind = float; required = true; file = false }

abbrev pub longitude : ParamSpec
longitude = record { name = "longitude"; kind = float; required = true; file = false }

abbrev pub action_type : ParamSpec
action_type = record { name = "action"; kind = string; required = true; file = false }

abbrev pub name_str : ParamSpec
name_str = record { name = "name"; kind = string; required = true; file = false }

abbrev pub title_str : ParamSpec
title_str = record { name = "title"; kind = string; required = true; file = false }

abbrev pub sticker_file : ParamSpec
sticker_file = record { name = "sticker"; kind = input_file; required = true; file = true }

abbrev pub sticker_id : ParamSpec
sticker_id = record { name = "sticker"; kind = string; required = true; file = false }

abbrev pub input_sticker : ParamSpec
input_sticker = record { name = "sticker"; kind = object; required = true; file = false }

abbrev pub message_ids : ParamSpec
message_ids = record { name = "message_ids"; kind = array; required = true; file = false }

abbrev pub payment_charge_id : ParamSpec
payment_charge_id = record {
  name = "telegram_payment_charge_id";
  kind = string;
  required = true;
  file = false;
}

abbrev pub payload_str : ParamSpec
payload_str = record { name = "payload"; kind = string; required = false; file = false }

abbrev pub supports_streaming : ParamSpec
supports_streaming = record {
  name = "supports_streaming";
  kind = boolean;
  required = false;
  file = false;
}

abbrev pub last_name : ParamSpec
last_name = record { name = "last_name"; kind = string; required = false; file = false }

abbrev pub vcard : ParamSpec
vcard = record { name = "vcard"; kind = string; required = false; file = false }

abbrev pub address : ParamSpec
address = record { name = "address"; kind = string; required = false; file = false }

abbrev pub foursquare_id : ParamSpec
foursquare_id = record { name = "foursquare_id"; kind = string; required = false; file = false }

abbrev pub foursquare_type : ParamSpec
foursquare_type = record { name = "foursquare_type"; kind = string; required = false; file = false }

abbrev pub google_place_id : ParamSpec
google_place_id = record { name = "google_place_id"; kind = string; required = false; file = false }

abbrev pub google_place_type : ParamSpec
google_place_type = record {
  name = "google_place_type";
  kind = string;
  required = false;
  file = false;
}

abbrev pub reaction : ParamSpec
reaction = record { name = "reaction"; kind = array; required = false; file = false }

abbrev pub is_big : ParamSpec
is_big = record { name = "is_big"; kind = boolean; required = false; file = false }

abbrev pub caption_entities : ParamSpec
caption_entities = record {
  name = "caption_entities";
  kind = array;
  required = false;
  file = false;
}

abbrev pub shipping_query_id : ParamSpec
shipping_query_id = record {
  name = "shipping_query_id";
  kind = string;
  required = true;
  file = false;
}

abbrev pub shipping_options : ParamSpec
shipping_options = record {
  name = "shipping_options";
  kind = array;
  required = false;
  file = false;
}

abbrev pub pre_checkout_query_id : ParamSpec
pre_checkout_query_id = record {
  name = "pre_checkout_query_id";
  kind = string;
  required = true;
  file = false;
}

abbrev pub is_canceled : ParamSpec
is_canceled = record { name = "is_canceled"; kind = boolean; required = false; file = false }

abbrev pub revoke_messages : ParamSpec
revoke_messages = record {
  name = "revoke_messages";
  kind = boolean;
  required = false;
  file = false;
}

abbrev pub only_if_banned : ParamSpec
only_if_banned = record { name = "only_if_banned"; kind = boolean; required = false; file = false }

abbrev pub can_manage_chat : ParamSpec
can_manage_chat = record {
  name = "can_manage_chat";
  kind = boolean;
  required = false;
  file = false;
}

abbrev pub can_manage_video_chats : ParamSpec
can_manage_video_chats = record {
  name = "can_manage_video_chats";
  kind = boolean;
  required = false;
  file = false;
}

abbrev pub can_delete_messages : ParamSpec
can_delete_messages = record {
  name = "can_delete_messages";
  kind = boolean;
  required = false;
  file = false;
}

abbrev pub can_restrict_members : ParamSpec
can_restrict_members = record {
  name = "can_restrict_members";
  kind = boolean;
  required = false;
  file = false;
}

abbrev pub can_promote_members : ParamSpec
can_promote_members = record {
  name = "can_promote_members";
  kind = boolean;
  required = false;
  file = false;
}

abbrev pub can_change_info : ParamSpec
can_change_info = record {
  name = "can_change_info";
  kind = boolean;
  required = false;
  file = false;
}

abbrev pub can_invite_users : ParamSpec
can_invite_users = record {
  name = "can_invite_users";
  kind = boolean;
  required = false;
  file = false;
}

abbrev pub can_post_messages : ParamSpec
can_post_messages = record {
  name = "can_post_messages";
  kind = boolean;
  required = false;
  file = false;
}

abbrev pub can_edit_messages : ParamSpec
can_edit_messages = record {
  name = "can_edit_messages";
  kind = boolean;
  required = false;
  file = false;
}

abbrev pub can_pin_messages : ParamSpec
can_pin_messages = record {
  name = "can_pin_messages";
  kind = boolean;
  required = false;
  file = false;
}

abbrev pub can_manage_topics : ParamSpec
can_manage_topics = record {
  name = "can_manage_topics";
  kind = boolean;
  required = false;
  file = false;
}

abbrev pub expire_date : ParamSpec
expire_date = record { name = "expire_date"; kind = integer; required = false; file = false }
