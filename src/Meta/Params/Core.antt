-- ===== src/Meta/Params/Core.antt =====
-- Parameter constants of the method catalog (crates/telegram-api-meta/src/lib.rs), in source order.
use telegram_bot_delivery_en.Base.{false, true}
use telegram_bot_delivery_en.Meta.Spec.{
  ParamSpec, array, boolean, float, input_file, integer, object, string,
}

abbrev pub text : ParamSpec
text = record { name = "text"; kind = string; required = true; file = false }

abbrev pub photo : ParamSpec
photo = record { name = "photo"; kind = input_file; required = true; file = true }

abbrev pub doc : ParamSpec
doc = record { name = "document"; kind = input_file; required = true; file = true }

abbrev pub audio : ParamSpec
audio = record { name = "audio"; kind = input_file; required = true; file = true }

abbrev pub video : ParamSpec
video = record { name = "video"; kind = input_file; required = true; file = true }

abbrev pub animation : ParamSpec
animation = record { name = "animation"; kind = input_file; required = true; file = true }

abbrev pub voice : ParamSpec
voice = record { name = "voice"; kind = input_file; required = true; file = true }

abbrev pub note : ParamSpec
note = record { name = "video_note"; kind = input_file; required = true; file = true }

abbrev pub title : ParamSpec
title = record { name = "title"; kind = string; required = true; file = false }

abbrev pub parse_mode : ParamSpec
parse_mode = record { name = "parse_mode"; kind = string; required = false; file = false }

abbrev pub entities : ParamSpec
entities = record { name = "entities"; kind = array; required = false; file = false }

abbrev pub link_preview_opts : ParamSpec
link_preview_opts = record {
  name = "link_preview_options";
  kind = object;
  required = false;
  file = false;
}

abbrev pub disable_notif : ParamSpec
disable_notif = record {
  name = "disable_notification";
  kind = boolean;
  required = false;
  file = false;
}

abbrev pub protect_content : ParamSpec
protect_content = record {
  name = "protect_content";
  kind = boolean;
  required = false;
  file = false;
}

abbrev pub reply_params : ParamSpec
reply_params = record { name = "reply_parameters"; kind = object; required = false; file = false }

abbrev pub reply_markup : ParamSpec
reply_markup = record { name = "reply_markup"; kind = object; required = false; file = false }

abbrev pub allow_paid : ParamSpec
allow_paid = record {
  name = "allow_paid_broadcast";
  kind = boolean;
  required = false;
  file = false;
}

abbrev pub message_thread_id : ParamSpec
message_thread_id = record {
  name = "message_thread_id";
  kind = integer;
  required = false;
  file = false;
}

abbrev pub business_conn_id : ParamSpec
business_conn_id = record {
  name = "business_connection_id";
  kind = string;
  required = false;
  file = false;
}

abbrev pub caption : ParamSpec
caption = record { name = "caption"; kind = string; required = false; file = false }

abbrev pub has_spoiler : ParamSpec
has_spoiler = record { name = "has_spoiler"; kind = boolean; required = false; file = false }

abbrev pub duration : ParamSpec
duration = record { name = "duration"; kind = integer; required = false; file = false }

abbrev pub performer : ParamSpec
performer = record { name = "performer"; kind = string; required = false; file = false }

abbrev pub width : ParamSpec
width = record { name = "width"; kind = integer; required = false; file = false }

abbrev pub height : ParamSpec
height = record { name = "height"; kind = integer; required = false; file = false }

abbrev pub thumbnail : ParamSpec
thumbnail = record { name = "thumbnail"; kind = input_file; required = false; file = true }

abbrev pub live_period : ParamSpec
live_period = record { name = "live_period"; kind = integer; required = false; file = false }

abbrev pub horizontal_accuracy : ParamSpec
horizontal_accuracy = record {
  name = "horizontal_accuracy";
  kind = float;
  required = false;
  file = false;
}

abbrev pub heading : ParamSpec
heading = record { name = "heading"; kind = integer; required = false; file = false }

abbrev pub proximity_alert_radius : ParamSpec
proximity_alert_radius = record {
  name = "proximity_alert_radius";
  kind = integer;
  required = false;
  file = false;
}

abbrev pub emoji : ParamSpec
emoji = record { name = "emoji"; kind = string; required = false; file = false }

abbrev pub is_anonymous : ParamSpec
is_anonymous = record { name = "is_anonymous"; kind = boolean; required = false; file = false }

abbrev pub type : ParamSpec
type = record { name = "type"; kind = string; required = false; file = false }

abbrev pub allows_multiple_answers : ParamSpec
allows_multiple_answers = record {
  name = "allows_multiple_answers";
  kind = boolean;
  required = false;
  file = false;
}

abbrev pub correct_option_id : ParamSpec
correct_option_id = record {
  name = "correct_option_id";
  kind = integer;
  required = false;
  file = false;
}

abbrev pub explanation : ParamSpec
explanation = record { name = "explanation"; kind = string; required = false; file = false }

abbrev pub explanation_parse_mode : ParamSpec
explanation_parse_mode = record {
  name = "explanation_parse_mode";
  kind = string;
  required = false;
  file = false;
}

abbrev pub explanation_entities : ParamSpec
explanation_entities = record {
  name = "explanation_entities";
  kind = array;
  required = false;
  file = false;
}

abbrev pub open_period : ParamSpec
open_period = record { name = "open_period"; kind = integer; required = false; file = false }

abbrev pub close_date : ParamSpec
close_date = record { name = "close_date"; kind = integer; required = false; file = false }

abbrev pub is_closed : ParamSpec
is_closed = record { name = "is_closed"; kind = boolean; required = false; file = false }

abbrev pub currency : ParamSpec
currency = record { name = "currency"; kind = string; required = false; file = false }

abbrev pub prices : ParamSpec
prices = record { name = "prices"; kind = array; required = false; file = false }

abbrev pub max_tip_amount : ParamSpec
max_tip_amount = record { name = "max_tip_amount"; kind = integer; required = false; file = false }
