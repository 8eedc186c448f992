-- ===== src/Sonos/Client/Arguments.antt =====
-- internal/sonos/client.go: what a player reads in the arguments of `SetAVTransportURI`.
use sonospoof.Base.{◌≡◌, refl, ◌∙◌, ap, ap₂, none, some, ◌∷◌, ◌++◌, map, Text, codes}
use mathlib.Core.List.{map-append}
use sonospoof.Sonos.Escape.{
  escape, xml_char, escape-IsPlain, map-xml_char_plain, read_text, read_text-escape, content,
  read_content, after_tag, after_tag-append, up_to_markup-append,
}
use sonospoof.Sonos.Client.{didl, stream_args}

-- The content of an element that holds an escaped text.
content_here :
    (tag before s after : Text)
    → after_tag (codes "<" ++ tag ++ codes ">") before ≡ some (escape s ++ b'<' ∷ after)
    → content tag before ≡ some (map xml_char s)
unfolding content
content_here tag before s after e =
    ap read_content e
    ∙ ap (λ t. some (read_text none t)) (up_to_markup-append (escape s) after (escape-IsPlain s))
    ∙ ap some (read_text-escape s)

after_url : Text → Text
after_url title =
    codes "/CurrentURI><CurrentURIMetaData>"
    ++ (escape (didl title) ++ codes "</CurrentURIMetaData>")

url_there :
    (url title : Text)
    → after_tag (codes "<CurrentURI>") (stream_args url title)
      ≡ some (escape url ++ b'<' ∷ after_url title)
unfolding stream_args after_url
url_there url title = refl

data_there :
    (url title : Text)
    → after_tag (codes "<CurrentURIMetaData>") (stream_args url title)
      ≡ some (escape (didl title) ++ b'<' ∷ codes "/CurrentURIMetaData>")
unfolding stream_args
data_there url title =
    after_tag-append (codes "CurrentURIMetaData>") (escape url) _ (escape-IsPlain url)

after_title : Text
after_title =
    codes
      "/dc:title><upnp:class>object.item.audioItem.audioBroadcast</upnp:class><desc id=\"cdudn\" nameSpace=\"urn:schemas-rinconnetworks-com:metadata-1-0/\">SA_RINCON65031_</desc></item></DIDL-Lite>"

title_there :
    (title : Text)
    → after_tag (codes "<dc:title>") (didl title) ≡ some (escape title ++ b'<' ∷ after_title)
unfolding didl after_title
title_there title = refl

fixed-append :
    (s t : Text) → map xml_char s ≡ s → map xml_char t ≡ t → map xml_char (s ++ t) ≡ s ++ t
fixed-append s t e f = map-append xml_char s t ∙ ap₂ ◌++◌ e f

before_title : Text
before_title =
    codes
      "<DIDL-Lite xmlns:dc=\"http://purl.org/dc/elements/1.1/\" xmlns:upnp=\"urn:schemas-upnp-org:metadata-1-0/upnp/\" xmlns=\"urn:schemas-upnp-org:metadata-1-0/DIDL-Lite/\"><item id=\"R:0/0/0\" parentID=\"R:0/0\" restricted=\"true\"><dc:title>"

data_allowed : (title : Text) → map xml_char (didl title) ≡ didl title
unfolding didl before_title after_title
data_allowed title = fixed-append before_title (escape title ++ b'<' ∷ after_title) refl (
    fixed-append (escape title) (b'<' ∷ after_title)
      (map-xml_char_plain (escape title) (escape-IsPlain title)) refl)

-- A player that reads the arguments as XML finds the address that it is to fetch, the metadata
-- whole, and in these the title, whatever characters the address and the title contain; only what
-- XML does not allow at all is replaced.
pub stream_args_read :
    (url title : Text)
    → (content (codes "CurrentURI") (stream_args url title) ≡ some (map xml_char url))
      × (content (codes "CurrentURIMetaData") (stream_args url title) ≡ some (didl title))
      × (content (codes "dc:title") (didl title) ≡ some (map xml_char title))
stream_args_read url title = (
  content_here (codes "CurrentURI") (stream_args url title) url (after_url title)
      (url_there url title),
  content_here (codes "CurrentURIMetaData") (stream_args url title) (didl title)
        (codes "/CurrentURIMetaData>") (data_there url title)
      ∙ ap some (data_allowed title),
  content_here (codes "dc:title") (didl title) title after_title (title_there title),
)
