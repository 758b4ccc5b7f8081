-- ===== src/Meta/Catalog/Part2.antt =====
-- A stretch of METHODS, in source order: from `sendVideo` to `sendVenue`.
use telegram_bot_delivery_en.Base.{List, [], ◌∷◌}
use telegram_bot_delivery_en.Meta.Params.Core.{
  video, duration, width, height, thumbnail, caption, parse_mode, has_spoiler, disable_notif,
  protect_content, reply_params, reply_markup, allow_paid, message_thread_id, business_conn_id,
  animation, voice, note, horizontal_accuracy, live_period, heading, proximity_alert_radius,
}
use telegram_bot_delivery_en.Meta.Params.Media.{chat_id_req, media_array}
use telegram_bot_delivery_en.Meta.Params.Chat.{
  caption_entities, supports_streaming, latitude, longitude, title_str, address, foursquare_id,
  foursquare_type, google_place_id, google_place_type,
}
use telegram_bot_delivery_en.Meta.Spec.{MethodSpec, send, first_message, message}

abbrev pub part_2 : List MethodSpec
part_2 =
    record {
      name = "sendVideo";
      family = send;
      projection = message;
      params =
          chat_id_req ∷ video ∷ duration ∷ width ∷ height ∷ thumbnail ∷ caption ∷ parse_mode
          ∷ caption_entities ∷ has_spoiler ∷ supports_streaming ∷ disable_notif ∷ protect_content
          ∷ reply_params ∷ reply_markup ∷ allow_paid ∷ message_thread_id ∷ business_conn_id ∷ [];
    }
    ∷ record {
      name = "sendAnimation";
      family = send;
      projection = message;
      params =
          chat_id_req ∷ animation ∷ duration ∷ width ∷ height ∷ thumbnail ∷ caption ∷ parse_mode
          ∷ caption_entities ∷ has_spoiler ∷ disable_notif ∷ protect_content ∷ reply_params
          ∷ reply_markup ∷ allow_paid ∷ message_thread_id ∷ business_conn_id ∷ [];
    }
    ∷ record {
      name = "sendVoice";
      family = send;
      projection = message;
      params =
          chat_id_req ∷ voice ∷ caption ∷ parse_mode ∷ caption_entities ∷ duration ∷ disable_notif
          ∷ protect_content ∷ reply_params ∷ reply_markup ∷ allow_paid ∷ message_thread_id
          ∷ business_conn_id ∷ [];
    }
    ∷ record {
      name = "sendVideoNote";
      family = send;
      projection = message;
      params =
          chat_id_req ∷ note ∷ duration ∷ width ∷ height ∷ thumbnail ∷ disable_notif
          ∷ protect_content ∷ reply_params ∷ reply_markup ∷ allow_paid ∷ message_thread_id
          ∷ business_conn_id ∷ [];
    }
    ∷ record {
      name = "sendMediaGroup";
      family = send;
      projection = first_message;
      params =
          chat_id_req ∷ media_array ∷ disable_notif ∷ protect_content ∷ reply_params
          ∷ message_thread_id ∷ business_conn_id ∷ [];
    }
    ∷ record {
      name = "sendLocation";
      family = send;
      projection = message;
      params =
          chat_id_req ∷ latitude ∷ longitude ∷ horizontal_accuracy ∷ live_period ∷ heading
          ∷ proximity_alert_radius ∷ disable_notif ∷ protect_content ∷ reply_params ∷ reply_markup
          ∷ allow_paid ∷ message_thread_id ∷ business_conn_id ∷ [];
    }
    ∷ record {
      name = "sendVenue";
      family = send;
      projection = message;
      params =
          chat_id_req ∷ latitude ∷ longitude ∷ title_str ∷ address ∷ foursquare_id ∷ foursquare_type
          ∷ google_place_id ∷ google_place_type ∷ disable_notif ∷ protect_content ∷ reply_params
          ∷ reply_markup ∷ allow_paid ∷ message_thread_id ∷ business_conn_id ∷ [];
    }
    ∷ []
