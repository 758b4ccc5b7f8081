-- ===== src/Meta/Catalog/Part5.antt =====
-- A stretch of METHODS, in source order: from `refundStarPayment` to `leaveChat`.
use telegram_bot_delivery_en.Base.{List, [], ◌∷◌}
use telegram_bot_delivery_en.Meta.Params.Core.{is_anonymous, photo, disable_notif}
use telegram_bot_delivery_en.Meta.Params.Media.{
  user_id, chat_id_req, until_date, permissions, custom_title, sender_chat_id, invite_link,
  description, message_id,
}
use telegram_bot_delivery_en.Meta.Params.Chat.{
  payment_charge_id, is_canceled, revoke_messages, only_if_banned, can_manage_chat,
  can_manage_video_chats, can_delete_messages, can_restrict_members, can_promote_members,
  can_change_info, can_invite_users, can_post_messages, can_edit_messages, can_pin_messages,
  can_manage_topics, name_str, expire_date, title_str,
}
use telegram_bot_delivery_en.Meta.Params.Stickers.{member_limit, creates_join_request}
use telegram_bot_delivery_en.Meta.Spec.{MethodSpec, admin, payment, no_message}

abbrev pub part_5 : List MethodSpec
part_5 =
    record {
      name = "refundStarPayment";
      family = payment;
      projection = no_message;
      params = user_id ∷ payment_charge_id ∷ [];
    }
    ∷ record {
      name = "editUserStarSubscription";
      family = payment;
      projection = no_message;
      params = user_id ∷ payment_charge_id ∷ is_canceled ∷ [];
    }
    ∷ record {
      name = "banChatMember";
      family = admin;
      projection = no_message;
      params = chat_id_req ∷ user_id ∷ until_date ∷ revoke_messages ∷ [];
    }
    ∷ record {
      name = "unbanChatMember";
      family = admin;
      projection = no_message;
      params = chat_id_req ∷ user_id ∷ only_if_banned ∷ [];
    }
    ∷ record {
      name = "restrictChatMember";
      family = admin;
      projection = no_message;
      params = chat_id_req ∷ user_id ∷ permissions ∷ until_date ∷ [];
    }
    ∷ record {
      name = "promoteChatMember";
      family = admin;
      projection = no_message;
      params =
          chat_id_req ∷ user_id ∷ is_anonymous ∷ can_manage_chat ∷ can_manage_video_chats
          ∷ can_delete_messages ∷ can_restrict_members ∷ can_promote_members ∷ can_change_info
          ∷ can_invite_users ∷ can_post_messages ∷ can_edit_messages ∷ can_pin_messages
          ∷ can_manage_topics ∷ [];
    }
    ∷ record {
      name = "setChatAdministratorCustomTitle";
      family = admin;
      projection = no_message;
      params = chat_id_req ∷ user_id ∷ custom_title ∷ [];
    }
    ∷ record {
      name = "banChatSenderChat";
      family = admin;
      projection = no_message;
      params = chat_id_req ∷ sender_chat_id ∷ [];
    }
    ∷ record {
      name = "unbanChatSenderChat";
      family = admin;
      projection = no_message;
      params = chat_id_req ∷ sender_chat_id ∷ [];
    }
    ∷ record {
      name = "setChatPermissions";
      family = admin;
      projection = no_message;
      params = chat_id_req ∷ permissions ∷ [];
    }
    ∷ record {
      name = "exportChatInviteLink";
      family = admin;
      projection = no_message;
      params = chat_id_req ∷ [];
    }
    ∷ record {
      name = "createChatInviteLink";
      family = admin;
      projection = no_message;
      params = chat_id_req ∷ name_str ∷ expire_date ∷ member_limit ∷ creates_join_request ∷ [];
    }
    ∷ record {
      name = "editChatInviteLink";
      family = admin;
      projection = no_message;
      params =
          chat_id_req ∷ invite_link ∷ name_str ∷ expire_date ∷ member_limit ∷ creates_join_request
          ∷ [];
    }
    ∷ record {
      name = "revokeChatInviteLink";
      family = admin;
      projection = no_message;
      params = chat_id_req ∷ invite_link ∷ [];
    }
    ∷ record {
      name = "approveChatJoinRequest";
      family = admin;
      projection = no_message;
      params = chat_id_req ∷ user_id ∷ [];
    }
    ∷ record {
      name = "declineChatJoinRequest";
      family = admin;
      projection = no_message;
      params = chat_id_req ∷ user_id ∷ [];
    }
    ∷ record {
      name = "setChatPhoto";
      family = admin;
      projection = no_message;
      params = chat_id_req ∷ photo ∷ [];
    }
    ∷ record {
      name = "deleteChatPhoto";
      family = admin;
      projection = no_message;
      params = chat_id_req ∷ [];
    }
    ∷ record {
      name = "setChatTitle";
      family = admin;
      projection = no_message;
      params = chat_id_req ∷ title_str ∷ [];
    }
    ∷ record {
      name = "setChatDescription";
      family = admin;
      projection = no_message;
      params = chat_id_req ∷ description ∷ [];
    }
    ∷ record {
      name = "pinChatMessage";
      family = admin;
      projection = no_message;
      params = chat_id_req ∷ message_id ∷ disable_notif ∷ [];
    }
    ∷ record {
      name = "unpinChatMessage";
      family = admin;
      projection = no_message;
      params = chat_id_req ∷ message_id ∷ [];
    }
    ∷ record {
      name = "unpinAllChatMessages";
      family = admin;
      projection = no_message;
      params = chat_id_req ∷ [];
    }
    ∷ record {
      name = "leaveChat";
      family = admin;
      projection = no_message;
      params = chat_id_req ∷ [];
    }
    ∷ []
