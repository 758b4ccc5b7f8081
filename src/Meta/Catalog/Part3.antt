-- ===== src/Meta/Catalog/Part3.antt =====
-- A stretch of METHODS, in source order: from `sendContact` to `editMessageLiveLocation`.
use telegram_bot_delivery_en.Base.{List, [], ◌∷◌}
use telegram_bot_delivery_en.Meta.Params.Core.{
  disable_notif, protect_content, reply_params, reply_markup, allow_paid, message_thread_id,
  business_conn_id, is_anonymous, type, allows_multiple_answers, correct_option_id, explanation,
  explanation_parse_mode, explanation_entities, open_period, close_date, is_closed, emoji, text,
  parse_mode, entities, link_preview_opts, caption, horizontal_accuracy, heading,
  proximity_alert_radius,
}
use telegram_bot_delivery_en.Meta.Params.Media.{
  chat_id_req, message_id, inline_message_id, media_file,
}
use telegram_bot_delivery_en.Meta.Params.Chat.{
  phone_num, first_name, last_name, vcard, question_text, options_array, action_type, reaction,
  is_big, caption_entities, latitude, longitude,
}
use telegram_bot_delivery_en.Meta.Spec.{MethodSpec, edit, send, message, no_message}

abbrev pub part_3 : List MethodSpec
part_3 =
    record {
      name = "sendContact";
      family = send;
      projection = message;
      params =
          chat_id_req ∷ phone_num ∷ first_name ∷ last_name ∷ vcard ∷ disable_notif ∷ protect_content
          ∷ reply_params ∷ reply_markup ∷ allow_paid ∷ message_thread_id ∷ business_conn_id ∷ [];
    }
    ∷ record {
      name = "sendPoll";
      family = send;
      projection = message;
      params =
          chat_id_req ∷ question_text ∷ options_array ∷ is_anonymous ∷ type
          ∷ allows_multiple_answers ∷ correct_option_id ∷ explanation ∷ explanation_parse_mode
          ∷ explanation_entities ∷ open_period ∷ close_date ∷ is_closed ∷ disable_notif
          ∷ protect_content ∷ reply_params ∷ reply_markup ∷ allow_paid ∷ message_thread_id
          ∷ business_conn_id ∷ [];
    }
    ∷ record {
      name = "sendDice";
      family = send;
      projection = message;
      params =
          chat_id_req ∷ emoji ∷ disable_notif ∷ protect_content ∷ reply_params ∷ reply_markup
          ∷ allow_paid ∷ message_thread_id ∷ business_conn_id ∷ [];
    }
    ∷ record {
      name = "sendChatAction";
      family = send;
      projection = no_message;
      params = chat_id_req ∷ action_type ∷ message_thread_id ∷ business_conn_id ∷ [];
    }
    ∷ record {
      name = "setMessageReaction";
      family = edit;
      projection = no_message;
      params = chat_id_req ∷ message_id ∷ reaction ∷ is_big ∷ business_conn_id ∷ [];
    }
    ∷ record {
      name = "editMessageText";
      family = edit;
      projection = message;
      params =
          chat_id_req ∷ message_id ∷ inline_message_id ∷ text ∷ parse_mode ∷ entities
          ∷ link_preview_opts ∷ reply_markup ∷ business_conn_id ∷ [];
    }
    ∷ record {
      name = "editMessageCaption";
      family = edit;
      projection = message;
      params =
          chat_id_req ∷ message_id ∷ inline_message_id ∷ caption ∷ parse_mode ∷ caption_entities
          ∷ reply_markup ∷ business_conn_id ∷ [];
    }
    ∷ record {
      name = "editMessageMedia";
      family = edit;
      projection = message;
      params =
          chat_id_req ∷ message_id ∷ inline_message_id ∷ media_file ∷ reply_markup
          ∷ business_conn_id ∷ [];
    }
    ∷ record {
      name = "editMessageLiveLocation";
      family = edit;
      projection = message;
      params =
          chat_id_req ∷ message_id ∷ inline_message_id ∷ latitude ∷ longitude ∷ horizontal_accuracy
          ∷ heading ∷ proximity_alert_radius ∷ reply_markup ∷ business_conn_id ∷ [];
    }
    ∷ []
