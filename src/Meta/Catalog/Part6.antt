-- ===== src/Meta/Catalog/Part6.antt =====
-- A stretch of METHODS, in source order: from `sendSticker` to `setMyDefaultAdministratorRights`.
use telegram_bot_delivery_en.Base.{List, [], ◌∷◌}
use telegram_bot_delivery_en.Meta.Params.Core.{
  emoji, disable_notif, protect_content, reply_params, reply_markup, allow_paid, message_thread_id,
  business_conn_id, thumbnail, text,
}
use telegram_bot_delivery_en.Meta.Params.Media.{
  chat_id_req, user_id, sticker_type, needs_repainting, position, keywords, mask_position, format,
  custom_emoji_id, results, cache_time, is_personal, next_offset, url, commands, scope,
  language_code, description, short_description, menu_button, rights,
}
use telegram_bot_delivery_en.Meta.Params.Chat.{
  sticker_file, name_str, title_str, input_sticker, sticker_id,
}
use telegram_bot_delivery_en.Meta.Params.Stickers.{
  sticker_format, stickers, old_sticker, emoji_list, inline_query_id, button,
  web_app_query_id_const, result_obj, allow_user_chats, callback_query_id, show_alert, for_channels,
}
use telegram_bot_delivery_en.Meta.Spec.{MethodSpec, other, sticker, message, no_message}

abbrev pub part_6 : List MethodSpec
part_6 =
    record {
      name = "sendSticker";
      family = sticker;
      projection = message;
      params =
          chat_id_req ∷ sticker_file ∷ emoji ∷ disable_notif ∷ protect_content ∷ reply_params
          ∷ reply_markup ∷ allow_paid ∷ message_thread_id ∷ business_conn_id ∷ [];
    }
    ∷ record {
      name = "uploadStickerFile";
      family = sticker;
      projection = no_message;
      params = user_id ∷ sticker_file ∷ sticker_format ∷ [];
    }
    ∷ record {
      name = "createNewStickerSet";
      family = sticker;
      projection = no_message;
      params = user_id ∷ name_str ∷ title_str ∷ sticker_type ∷ stickers ∷ needs_repainting ∷ [];
    }
    ∷ record {
      name = "addStickerToSet";
      family = sticker;
      projection = no_message;
      params = user_id ∷ name_str ∷ input_sticker ∷ [];
    }
    ∷ record {
      name = "setStickerPositionInSet";
      family = sticker;
      projection = no_message;
      params = sticker_id ∷ position ∷ [];
    }
    ∷ record {
      name = "deleteStickerFromSet";
      family = sticker;
      projection = no_message;
      params = sticker_id ∷ [];
    }
    ∷ record {
      name = "replaceStickerInSet";
      family = sticker;
      projection = no_message;
      params = user_id ∷ name_str ∷ old_sticker ∷ input_sticker ∷ [];
    }
    ∷ record {
      name = "setStickerEmojiList";
      family = sticker;
      projection = no_message;
      params = sticker_id ∷ emoji_list ∷ [];
    }
    ∷ record {
      name = "setStickerKeywords";
      family = sticker;
      projection = no_message;
      params = sticker_id ∷ keywords ∷ [];
    }
    ∷ record {
      name = "setStickerMaskPosition";
      family = sticker;
      projection = no_message;
      params = sticker_id ∷ mask_position ∷ [];
    }
    ∷ record {
      name = "setStickerSetTitle";
      family = sticker;
      projection = no_message;
      params = name_str ∷ title_str ∷ [];
    }
    ∷ record {
      name = "deleteStickerSet";
      family = sticker;
      projection = no_message;
      params = name_str ∷ [];
    }
    ∷ record {
      name = "setStickerSetThumbnail";
      family = sticker;
      projection = no_message;
      params = name_str ∷ user_id ∷ thumbnail ∷ format ∷ [];
    }
    ∷ record {
      name = "setCustomEmojiStickerSetThumbnail";
      family = sticker;
      projection = no_message;
      params = name_str ∷ custom_emoji_id ∷ [];
    }
    ∷ record {
      name = "answerInlineQuery";
      family = other;
      projection = no_message;
      params = inline_query_id ∷ results ∷ cache_time ∷ is_personal ∷ next_offset ∷ button ∷ [];
    }
    ∷ record {
      name = "answerWebAppQuery";
      family = other;
      projection = message;
      params = web_app_query_id_const ∷ result_obj ∷ [];
    }
    ∷ record {
      name = "savePreparedInlineMessage";
      family = other;
      projection = no_message;
      params = user_id ∷ result_obj ∷ allow_user_chats ∷ [];
    }
    ∷ record {
      name = "answerCallbackQuery";
      family = other;
      projection = no_message;
      params = callback_query_id ∷ text ∷ show_alert ∷ url ∷ cache_time ∷ [];
    }
    ∷ record {
      name = "setMyCommands";
      family = other;
      projection = no_message;
      params = commands ∷ scope ∷ language_code ∷ [];
    }
    ∷ record {
      name = "deleteMyCommands";
      family = other;
      projection = no_message;
      params = scope ∷ language_code ∷ [];
    }
    ∷ record {
      name = "setMyName";
      family = other;
      projection = no_message;
      params = name_str ∷ language_code ∷ [];
    }
    ∷ record {
      name = "setMyDescription";
      family = other;
      projection = no_message;
      params = description ∷ language_code ∷ [];
    }
    ∷ record {
      name = "setMyShortDescription";
      family = other;
      projection = no_message;
      params = short_description ∷ language_code ∷ [];
    }
    ∷ record {
      name = "setChatMenuButton";
      family = other;
      projection = no_message;
      params = chat_id_req ∷ menu_button ∷ [];
    }
    ∷ record {
      name = "setMyDefaultAdministratorRights";
      family = other;
      projection = no_message;
      params = rights ∷ for_channels ∷ [];
    }
    ∷ []
