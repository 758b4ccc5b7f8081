-- ===== src/Meta/Catalog/Part1.antt =====
-- A stretch of METHODS, in source order: from `sendMessage` to `sendDocument`.
use telegram_bot_delivery_en.Base.{List, [], ◌∷◌}
use telegram_bot_delivery_en.Meta.Params.Core.{
  text, parse_mode, entities, link_preview_opts, disable_notif, protect_content, reply_params,
  reply_markup, allow_paid, message_thread_id, business_conn_id, caption, photo, has_spoiler, audio,
  duration, performer, title, thumbnail, doc,
}
use telegram_bot_delivery_en.Meta.Params.Media.{chat_id_req, from_chat_id, message_id}
use telegram_bot_delivery_en.Meta.Params.Chat.{message_ids, caption_entities}
use telegram_bot_delivery_en.Meta.Spec.{MethodSpec, copy, forward, send, first_message, message}

abbrev pub part_1 : List MethodSpec
part_1 =
    record {
      name = "sendMessage";
      family = send;
      projection = message;
      params =
          chat_id_req ∷ text ∷ parse_mode ∷ entities ∷ link_preview_opts ∷ disable_notif
          ∷ protect_content ∷ reply_params ∷ reply_markup ∷ allow_paid ∷ message_thread_id
          ∷ business_conn_id ∷ [];
    }
    ∷ record {
      name = "forwardMessage";
      family = forward;
      projection = message;
      params =
          chat_id_req ∷ from_chat_id ∷ message_id ∷ message_thread_id ∷ disable_notif
          ∷ protect_content ∷ [];
    }
    ∷ record {
      name = "forwardMessages";
      family = forward;
      projection = first_message;
      params =
          chat_id_req ∷ from_chat_id ∷ message_ids ∷ message_thread_id ∷ disable_notif
          ∷ protect_content ∷ [];
    }
    ∷ record {
      name = "copyMessage";
      family = copy;
      projection = message;
      params =
          chat_id_req ∷ from_chat_id ∷ message_id ∷ message_thread_id ∷ caption ∷ parse_mode
          ∷ caption_entities ∷ disable_notif ∷ protect_content ∷ reply_params ∷ reply_markup ∷ [];
    }
    ∷ record {
      name = "copyMessages";
      family = copy;
      projection = first_message;
      params =
          chat_id_req ∷ from_chat_id ∷ message_ids ∷ message_thread_id ∷ disable_notif
          ∷ protect_content ∷ [];
    }
    ∷ record {
      name = "sendPhoto";
      family = send;
      projection = message;
      params =
          chat_id_req ∷ photo ∷ caption ∷ parse_mode ∷ caption_entities ∷ has_spoiler
          ∷ disable_notif ∷ protect_content ∷ reply_params ∷ reply_markup ∷ allow_paid
          ∷ message_thread_id ∷ business_conn_id ∷ [];
    }
    ∷ record {
      name = "sendAudio";
      family = send;
      projection = message;
      params =
          chat_id_req ∷ audio ∷ caption ∷ parse_mode ∷ caption_entities ∷ duration ∷ performer
          ∷ title ∷ thumbnail ∷ disable_notif ∷ protect_content ∷ reply_params ∷ reply_markup
          ∷ allow_paid ∷ message_thread_id ∷ business_conn_id ∷ [];
    }
    ∷ record {
      name = "sendDocument";
      family = send;
      projection = message;
      params =
          chat_id_req ∷ doc ∷ thumbnail ∷ caption ∷ parse_mode ∷ caption_entities ∷ disable_notif
          ∷ protect_content ∷ reply_params ∷ reply_markup ∷ allow_paid ∷ message_thread_id
          ∷ business_conn_id ∷ [];
    }
    ∷ []
