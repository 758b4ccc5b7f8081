-- ===== src/Meta/Catalog/Part4.antt =====
-- A stretch of METHODS, in source order: from `stopMessageLiveLocation` to `answerPreCheckoutQuery`.
use telegram_bot_delivery_en.Base.{List, [], ◌∷◌}
use telegram_bot_delivery_en.Meta.Params.Core.{
  reply_markup, business_conn_id, disable_notif, protect_content, reply_params, text, parse_mode,
  entities, message_thread_id, currency, prices, max_tip_amount,
}
use telegram_bot_delivery_en.Meta.Params.Media.{
  chat_id_req, message_id, inline_message_id, media_array, description, provider_token,
  suggested_tip_amounts, start_parameter, provider_data, need_name, need_phone_number, need_email,
  need_shipping_address, send_phone_number_to_provider, send_email_to_provider, is_flexible, ok,
  error_message,
}
use telegram_bot_delivery_en.Meta.Params.Chat.{
  message_ids, title_str, payload_str, shipping_query_id, shipping_options, pre_checkout_query_id,
}
use telegram_bot_delivery_en.Meta.Spec.{
  MethodSpec, delete, edit, payment, send, message, no_message,
}

abbrev pub part_4 : List MethodSpec
part_4 =
    record {
      name = "stopMessageLiveLocation";
      family = edit;
      projection = message;
      params = chat_id_req ∷ message_id ∷ inline_message_id ∷ reply_markup ∷ business_conn_id ∷ [];
    }
    ∷ record {
      name = "editMessageReplyMarkup";
      family = edit;
      projection = message;
      params = chat_id_req ∷ message_id ∷ inline_message_id ∷ reply_markup ∷ business_conn_id ∷ [];
    }
    ∷ record {
      name = "stopPoll";
      family = edit;
      projection = no_message;
      params = chat_id_req ∷ message_id ∷ reply_markup ∷ [];
    }
    ∷ record {
      name = "deleteMessage";
      family = delete;
      projection = no_message;
      params = chat_id_req ∷ message_id ∷ [];
    }
    ∷ record {
      name = "deleteMessages";
      family = delete;
      projection = no_message;
      params = chat_id_req ∷ message_ids ∷ [];
    }
    ∷ record {
      name = "sendPaidMedia";
      family = send;
      projection = message;
      params =
          chat_id_req ∷ media_array ∷ disable_notif ∷ protect_content ∷ reply_params ∷ reply_markup
          ∷ business_conn_id ∷ [];
    }
    ∷ record {
      name = "sendChecklist";
      family = send;
      projection = message;
      params =
          chat_id_req ∷ text ∷ parse_mode ∷ entities ∷ disable_notif ∷ protect_content
          ∷ reply_params ∷ reply_markup ∷ message_thread_id ∷ business_conn_id ∷ [];
    }
    ∷ record {
      name = "editMessageChecklist";
      family = edit;
      projection = message;
      params =
          chat_id_req ∷ message_id ∷ text ∷ parse_mode ∷ entities ∷ reply_markup ∷ business_conn_id
          ∷ [];
    }
    ∷ record {
      name = "sendInvoice";
      family = payment;
      projection = message;
      params =
          chat_id_req ∷ title_str ∷ description ∷ payload_str ∷ provider_token ∷ currency ∷ prices
          ∷ max_tip_amount ∷ suggested_tip_amounts ∷ start_parameter ∷ provider_data ∷ need_name
          ∷ need_phone_number ∷ need_email ∷ need_shipping_address ∷ send_phone_number_to_provider
          ∷ send_email_to_provider ∷ is_flexible ∷ disable_notif ∷ protect_content ∷ reply_params
          ∷ reply_markup ∷ message_thread_id ∷ business_conn_id ∷ [];
    }
    ∷ record {
      name = "createInvoiceLink";
      family = payment;
      projection = no_message;
      params =
          title_str ∷ description ∷ payload_str ∷ provider_token ∷ currency ∷ prices
          ∷ max_tip_amount ∷ suggested_tip_amounts ∷ start_parameter ∷ provider_data ∷ need_name
          ∷ need_phone_number ∷ need_email ∷ need_shipping_address ∷ send_phone_number_to_provider
          ∷ send_email_to_provider ∷ is_flexible ∷ [];
    }
    ∷ record {
      name = "answerShippingQuery";
      family = payment;
      projection = no_message;
      params = shipping_query_id ∷ ok ∷ shipping_options ∷ error_message ∷ [];
    }
    ∷ record {
      name = "answerPreCheckoutQuery";
      family = payment;
      projection = no_message;
      params = pre_checkout_query_id ∷ ok ∷ error_message ∷ [];
    }
    ∷ []
