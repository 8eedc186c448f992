-- ===== src/Sonos/Escape.antt =====
-- internal/sonos/client.go: `escape`, and how a reader of XML undoes it.
use sonospoof.Base.{
  ℕ, Bool, ◌&&◌, ◌||◌, ◌==◌, leb, if◌then◌else◌, ◌≡◌, ◌≢◌, refl, ◌∙◌, ap, Option, none, some, [],
  ◌∷◌, ◌++◌, map, Text, codes, same, cut_prefix, All, All-append, arith,
}

-- The characters that XML allows, and what `xml.EscapeText` writes for the others.
abbrev pub is_xml_char : ℕ → Bool
is_xml_char c =
    c == 9
    || c == 10
    || c == 13
    || (leb 0x20 c && leb c 0xd7ff)
    || (leb 0xe000 c && leb c 0xfffd)
    || (leb 0x10000 c && leb c 0x10ffff)

abbrev pub xml_char : ℕ → ℕ
xml_char c = if is_xml_char c then c else 0xfffd

abbrev pub escape_char : ℕ → Text
escape_char c =
    if c == b'"'
    then codes "&#34;"
    else if c == 39
    then codes "&#39;"
    else if c == b'&'
    then codes "&amp;"
    else if c == b'<'
    then codes "&lt;"
    else if c == b'>'
    then codes "&gt;"
    else if c == 9
    then codes "&#x9;"
    else if c == 10
    then codes "&#xA;"
    else if c == 13
    then codes "&#xD;"
    else xml_char c ∷ []

unfoldable pub escape : Text → Text
escape [] = []
escape (c ∷ s) = escape_char c ++ escape s

-- The character of a reference; the text is what stands between `&` and `;`.
abbrev pub referred : Text → ℕ
referred name =
    if same name (codes "#34")
    then b'"'
    else if same name (codes "#39")
    then 39
    else if same name (codes "amp")
    then b'&'
    else if same name (codes "lt")
    then b'<'
    else if same name (codes "gt")
    then b'>'
    else if same name (codes "#x9")
    then 9
    else if same name (codes "#xA")
    then 10
    else 13

-- A reader: inside a reference, or not.
abbrev pub read_text : Option Text → Text → Text
read_text none [] = []
read_text (some name) [] = []
read_text none (c ∷ s) = if c == b'&' then read_text (some []) s else c ∷ read_text none s
read_text (some name) (c ∷ s) =
    if c == b';' then referred name ∷ read_text none s else read_text (some (name ++ c ∷ [])) s

char_back : (c : ℕ) (s : Text) → read_text none (escape_char c ++ s) ≡ xml_char c ∷ read_text none s
char_back c s = ground arith

char_plain : (c : ℕ) → All (λ d. (d ≢ b'<') × (xml_char d ≡ d)) (escape_char c)
char_plain c = ground arith

-- What a reader of XML makes of an escaped text: every character, with U+FFFD for those that XML
-- does not allow.
pub read_text-escape : (s : Text) → read_text none (escape s) ≡ map xml_char s
unfolding escape
read_text-escape [] = refl
read_text-escape (c ∷ s) = char_back c (escape s) ∙ ap (◌∷◌ (xml_char c)) (read_text-escape s)

abbrev pub IsPlain : ℕ → Type 0
IsPlain d = (d ≢ b'<') × (xml_char d ≡ d)

pub escape-IsPlain : (s : Text) → All IsPlain (escape s)
unfolding escape
escape-IsPlain [] = tt
escape-IsPlain (c ∷ s) =
    All-append IsPlain (escape_char c) (escape s) (char_plain c) (escape-IsPlain s)

pub map-xml_char_plain : (s : Text) → All IsPlain s → map xml_char s ≡ s
map-xml_char_plain [] p = refl
map-xml_char_plain (c ∷ s) (p, ps) = λ i. p.1 i ∷ map-xml_char_plain s ps i

-- The content of an element: what stands between its first opening tag and the next `<`.
abbrev pub after_tag : Text → Text → Option Text
after_tag tag [] = none
after_tag tag (c ∷ s) =
    let rest = after_tag tag s in elim (cut_prefix (c ∷ s) tag) [ none ↦ rest | some t ↦ some t ]

abbrev pub up_to_markup : Text → Text
up_to_markup [] = []
up_to_markup (c ∷ s) = if c == b'<' then [] else c ∷ up_to_markup s

abbrev pub read_content : Option Text → Option Text
read_content none = none
read_content (some t) = some (read_text none (up_to_markup t))

unfoldable pub content : Text → Text → Option Text
content tag s = read_content (after_tag (codes "<" ++ tag ++ codes ">") s)

pub up_to_markup-append : (s t : Text) → All IsPlain s → up_to_markup (s ++ b'<' ∷ t) ≡ s
up_to_markup-append [] t p = refl
up_to_markup-append (c ∷ s) t (p, ps) = ground (arith, up_to_markup-append s t ps)

pub after_tag-append :
    (tag s t : Text) → All IsPlain s → after_tag (b'<' ∷ tag) (s ++ t) ≡ after_tag (b'<' ∷ tag) t
after_tag-append tag [] t p = refl
after_tag-append tag (c ∷ s) t ((p, q), ps) = ground (arith, after_tag-append tag s t ps)
