-- ===== src/Adapters/TwilioSms/Outbound.antt =====
-- glc/channels/catalogue/twilio_sms: the payload of a reply, and the receiver of webhook.py.
-- A signature in a header is an ASCII text; Twilio's signature is an argument.
use gateway_glc_v.Common.{
  String, String-eq, Bool, true, false, not, ◌&&◌, ◌||◌, List, [], ◌∷◌, ◌++◌, Option, none, some,
  if◌then◌else◌, Result, ok, err,
}
use gateway_glc_v.Common.Text.{Text, codes, text_beq, text_eq, starts_with, remove_prefix}
use gateway_glc_v.Common.Dict.{Dict}
use gateway_glc_v.Adapters.TwilioSms.{
  AttachmentKind, text_or, Attachment, Numbers, image, audio, video, file,
}

-- `base.rstrip("/")`
abbrev rstrip_slash : Text → Text
rstrip_slash [] = []
rstrip_slash (c ∷ s) =
    let rest = rstrip_slash s in
    if text_beq rest [] && text_beq (c ∷ []) (codes "/") then [] else c ∷ rest

abbrev art_url : Text → Text → Option Text
art_url [] ref = none
art_url (c ∷ base) ref =
    some (rstrip_slash (c ∷ base) ++ codes "/" ++ remove_prefix ref (codes "art:"))

abbrev url_of_ref : Text → Text → Option Text
url_of_ref base ref =
    if starts_with ref (codes "http://") || starts_with ref (codes "https://")
    then some ref
    else if starts_with ref (codes "art:")
    then art_url base ref
    else none

-- `_public_media_url`, with `artifact_public_base` or the variable of the environment
unfoldable pub public_media_url : Text → Attachment → Option Text
public_media_url base a = elim a.public_url [
  | none ↦ url_of_ref base a.ref
  | some url ↦ if text_beq url [] then url_of_ref base a.ref else some url
]

pub record SmsPayload : Type 0 where
  pub sender : Text
  pub to : String
  pub body : Text
  pub media_urls : List Text

abbrev is_image : AttachmentKind → Bool
is_image image = true
is_image audio = false
is_image video = false
is_image file = false

abbrev resolved : Text → Option Text → List Text × List Text → List Text × List Text
resolved ref none (urls, skipped) = (urls, ref ∷ skipped)
resolved ref (some url) (urls, skipped) = (url ∷ urls, skipped)

-- The loop over the attachments of a reply: the URLs, and the references that are skipped.
unfoldable pub outbound_media : Text → List Attachment → List Text × List Text
outbound_media base [] = ([], [])
outbound_media base (a ∷ rest) =
    if is_image a.kind
    then resolved a.ref (public_media_url base a) (outbound_media base rest)
    else outbound_media base rest

pub data SendError : Type 0 where
  no_from_phone : SendError

abbrev from_number : Numbers → Result SendError Text
from_number s =
    if not (text_beq s.bot_number [])
    then ok s.bot_number
    else if not (text_beq s.learned_bot_number [])
    then ok s.learned_bot_number
    else err no_from_phone

abbrev sms_payload :
    Text
    → String
    → Option Text
    → List Attachment
    → Result SendError Text
    → Result SendError (SmsPayload × List Text)
sms_payload base to text attachments (err e) = err e
sms_payload base to text attachments (ok sender) =
    let (urls, skipped) = outbound_media base attachments in
    ok (record { sender = sender; to = to; body = text_or text []; media_urls = urls }, skipped)

-- The payload of `send`, and what is reported as skipped.
unfoldable pub send :
    Text
    → Numbers
    → String
    → Option Text
    → List Attachment
    → Result SendError (SmsPayload × List Text)
send base s to text attachments = sms_payload base to text attachments (from_number s)

-- `validate_signature`, with `compute_signature`
module _ (compute_signature : Text → Text → Dict Text Text → Text) where
  unfoldable pub validate_signature : Text → Text → Dict Text Text → Option Text → Bool
  validate_signature auth_token url params none = false
  validate_signature auth_token url params (some signature) =
      not (text_beq auth_token [])
      && not (text_beq signature [])
      && text_beq (compute_signature auth_token url params) signature

  -- `receive`: what is handed to the adapter, or none for a 403
  unfoldable pub receive :
      Bool → Text → Text → Dict Text Text → Option Text → Option (Dict Text Text)
  receive skip auth_token url form signature =
      if not skip && not (validate_signature auth_token url form signature) then none else some form
