-- ===== src/Adapters/TwilioSms.antt =====
-- glc/channels/catalogue/twilio_sms: adapter.py and the form of schemas.py.
-- The download of a media item with the store of its bytes, and `upper` of a
-- text are arguments. A negative number of media counts as none.
pub mod Artifacts
pub mod Media
pub mod Outbound
use gateway_glc_v.Common.{
  ℕ, zero, suc, ◌+◌, String, String-eq, ◌==◌, Bool, true, false, not, ◌&&◌, ◌||◌, List, [], ◌∷◌,
  ◌++◌, Option, none, some, if◌then◌else◌, Result, ok, err, contains,
}
use gateway_glc_v.Common.Text.{Text, codes, text_beq, text_eq, starts_with, remove_prefix, strip}
use gateway_glc_v.Common.Numbers.{decimal}
use gateway_glc_v.Common.Dict.{Dict, get}
use gateway_glc_v.Channels.{ChannelMessage}
use gateway_glc_v.Adapters.{Security, Config, trust_of_sender, lets_in}

pub data AttachmentKind : Type 0 where
  image audio video file : AttachmentKind

abbrev pub media_kind : Text → AttachmentKind
media_kind content_type =
    if starts_with content_type (codes "image/")
    then image
    else if starts_with content_type (codes "audio/")
    then audio
    else if starts_with content_type (codes "video/")
    then video
    else file

pub data Keyword : Type 0 where
  stop start help : Keyword

abbrev stop_keywords : List Text
stop_keywords =
    codes "STOP"
    ∷ codes "STOPALL"
    ∷ codes "UNSUBSCRIBE"
    ∷ codes "CANCEL"
    ∷ codes "END"
    ∷ codes "QUIT"
    ∷ []

abbrev start_keywords : List Text
start_keywords = codes "START" ∷ codes "YES" ∷ codes "UNSTOP" ∷ []

abbrev help_keywords : List Text
help_keywords = codes "HELP" ∷ codes "INFO" ∷ []

-- `_detect_keyword`
unfoldable pub detect_keyword : (Text → Text) → Text → Option Keyword
detect_keyword upper body =
    let token = upper (strip body) in
    if contains stop_keywords token
    then some stop
    else if contains start_keywords token
    then some start
    else if contains help_keywords token
    then some help
    else none

pub record TwilioMediaItem : Type 0 where
  pub url : Text
  pub content_type : Text

pub record TwilioInboundForm : Type 0 where
  pub from_phone : String
  pub to_phone : Text
  pub body : Text
  pub message_sid : Text
  pub account_sid : Text
  pub num_media : ℕ
  pub extra : Dict Text Text

abbrev pub text_or : Option Text → Text → Text
text_or none default = default
text_or (some t) default = t

abbrev item_at : Dict Text Text → ℕ → Text → List TwilioMediaItem → List TwilioMediaItem
item_at extra i [] rest = rest
item_at extra i (c ∷ url) rest =
    (record {
      url = c ∷ url;
      content_type =
          text_or (get extra (codes "MediaContentType" ++ decimal i))
            (codes "application/octet-stream");
    })
    ∷ rest

-- `media_items`, from an index on
media_from : Dict Text Text → ℕ → ℕ → List TwilioMediaItem
media_from extra i zero = []
media_from extra i (suc n) =
    item_at extra i (text_or (get extra (codes "MediaUrl" ++ decimal i)) [])
      (media_from extra (i + 1) n)

unfoldable pub media_items : TwilioInboundForm → List TwilioMediaItem
unfolding media_from
media_items form = media_from form.extra 0 form.num_media

pub record Attachment : Type 0 where
  pub kind : AttachmentKind
  pub ref : Text
  pub mime : Text
  pub public_url : Option Text

pub record FailedMedia : Type 0 where
  pub url : Text
  pub error : Text

-- The loop over the media: what is attached and what failed.
abbrev taken :
    TwilioMediaItem
    → Result Text Text
    → List Attachment × List FailedMedia
    → List Attachment × List FailedMedia
taken item (err e) (attachments, failed) =
    (attachments, record { url = item.url; error = e } ∷ failed)
taken item (ok ref) (attachments, failed) = (
  record {
    kind = media_kind item.content_type;
    ref = ref;
    mime = item.content_type;
    public_url = none;
  }
      ∷ attachments,
  failed,
)

unfoldable pub fetch_media :
    (TwilioMediaItem → Result Text Text) → List TwilioMediaItem → List Attachment × List FailedMedia
fetch_media fetch [] = ([], [])
fetch_media fetch (item ∷ items) = taken item (fetch item) (fetch_media fetch items)

-- An envelope with the parts that this adapter adds.
pub record SmsMessage : Type 0 where
  pub envelope : ChannelMessage
  pub attachments : List Attachment
  pub failed_media : List FailedMedia
  pub sms_keyword : Option Keyword

-- `_bot_number` and `_learned_bot_number`
pub record Numbers : Type 0 where
  pub bot_number : Text
  pub learned_bot_number : Text

-- `body or None`
abbrev pub text_or_none : Text → Option Text
text_or_none [] = none
text_or_none (c ∷ s) = some (c ∷ s)

abbrev pub sms_envelope : TwilioInboundForm → String → ChannelMessage
sms_envelope form trust = record {
  channel = "twilio_sms";
  channel_user_id = form.from_phone;
  text = text_or_none form.body;
  thread_id = none;
  trust_level = trust;
  is_public_channel = false;
  was_mentioned = false;
  provider = none;
}

abbrev learned : Numbers → Text → Numbers
learned s [] = s
learned s (c ∷ to) =
    if text_beq s.bot_number [] then record s { learned_bot_number = c ∷ to } else s

-- `bool(raw.get("was_mentioned", False))` of the form
abbrev pub mentioned : TwilioInboundForm → Bool
mentioned form = not (text_beq (text_or (get form.extra (codes "was_mentioned")) []) [])

module _ (upper : Text → Text) (fetch : TwilioMediaItem → Result Text Text) where
  abbrev pub sms_heard : Security → TwilioInboundForm → SmsMessage
  sms_heard world form =
      let (attachments, failed) = fetch_media fetch (media_items form) in
      record {
        envelope = sms_envelope form (trust_of_sender world "twilio_sms" form.from_phone);
        attachments = attachments;
        failed_media = failed;
        sms_keyword = detect_keyword upper form.body;
      }

  abbrev pub sms_refused : TwilioInboundForm → SmsMessage
  sms_refused form = record {
    envelope = sms_envelope form "untrusted";
    attachments = [];
    failed_media = [];
    sms_keyword = none;
  }

  unfoldable pub on_message : Security → Config → Numbers → TwilioInboundForm → Numbers × SmsMessage
  on_message world config s form = (
    learned s form.to_phone,
    if config.is_public_channel
          && not (lets_in world "twilio_sms" form.from_phone true (mentioned form))
        then sms_refused form
        else sms_heard world form,
  )
