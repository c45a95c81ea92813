-- ===== src/Adapters/TwilioSms/Media.antt =====
-- glc/channels/catalogue/twilio_sms/adapter.py: the media items of an inbound message.
use gateway_glc_v.Common.{
  ℕ, zero, suc, ◌+◌, ◌≤◌, ◌≡◌, List, [], ◌∷◌, ◌++◌, Result, ok, err, length, arith,
}
use gateway_glc_v.Common.Text.{Text, codes, text_eq}
use gateway_glc_v.Common.Numbers.{decimal}
use gateway_glc_v.Common.Dict.{Dict, get}
use gateway_glc_v.Adapters.TwilioSms.{
  TwilioMediaItem, TwilioInboundForm, Attachment, FailedMedia, item_at, text_or, media_from,
  media_items, taken, fetch_media,
}

item_at_le :
    (extra : Dict Text Text) (i : ℕ) (url : Text) (rest : List TwilioMediaItem)
    → length (item_at extra i url rest) ≤ suc (length rest)
item_at_le extra i [] rest = omega arith
item_at_le extra i (c ∷ url) rest = omega arith

media_from_le : (extra : Dict Text Text) (i n : ℕ) → length (media_from extra i n) ≤ n
unfolding media_from
media_from_le extra i zero = omega arith
media_from_le extra i (suc n) =
    let rest = media_from_le extra (i + 1) n in
    let here =
      item_at_le extra i (text_or (get extra (codes "MediaUrl" ++ decimal i)) [])
        (media_from extra (i + 1) n) in
    omega (arith, rest, here)

taken_total :
    (item : TwilioMediaItem) (r : Result Text Text) (x : List Attachment × List FailedMedia) (n : ℕ)
    → length (x.0) + length (x.1) ≡ n
    → length ((taken item r x).0) + length ((taken item r x).1) ≡ suc n
taken_total item (ok ref) x n h = omega (arith, h)
taken_total item (err e) x n h = omega (arith, h)

fetch_total :
    (fetch : TwilioMediaItem → Result Text Text) (items : List TwilioMediaItem)
    → length ((fetch_media fetch items).0) + length ((fetch_media fetch items).1) ≡ length items
unfolding fetch_media
fetch_total fetch [] = omega arith
fetch_total fetch (item ∷ items) =
    taken_total item (fetch item) (fetch_media fetch items) (length items) (fetch_total fetch items)

-- Whatever the downloads do, each media item of an SMS form becomes one attachment or one failure,
-- and there are at most as many as the form's NumMedia says.
pub media_accounted :
    (fetch : TwilioMediaItem → Result Text Text) (form : TwilioInboundForm)
    → (length ((fetch_media fetch (media_items form)).0)
          + length ((fetch_media fetch (media_items form)).1)
        ≡ length (media_items form))
      × (length (media_items form) ≤ form.num_media)
unfolding media_items
media_accounted fetch form =
    (fetch_total fetch (media_items form), media_from_le form.extra 0 form.num_media)
