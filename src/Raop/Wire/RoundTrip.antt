-- ===== src/Raop/Wire/RoundTrip.antt =====
-- internal/raop/rtsp.go: a request that a sender writes is read back.
use sonospoof.Base.{
  ℕ, ◌^◌, ◌≤◌, ◌<◌, true, false, ◌==◌, ltb, if◌then◌else◌, if_true, if_false, ◌≡◌, refl, sym, ◌∙◌,
  ap, ap₂, Option, some, List, [], ◌∷◌, ◌++◌, append_assoc, append-nil, map, Text, codes, same,
  cut-append, fields, fields-append, IsWord, trim, trim_none, trim_right, trim_right-append,
  is_space, itoa, itoa-IsWord, atoi-itoa, byte_size, byte_size-append, split_bytes-append, All,
  All-append, All-weaken, arith,
}
use sonospoof.Raop.Wire.{
  Outcome, is_break, to_lower, add_parts, add_header, read_headers, is_positive_int, first_two,
  read_body, with_body, with_headers, with_line, after_line, read_request,
}

-- What a sender writes. The header lines end in CRLF, and the last one gives the body's length.
abbrev pub print_headers : List (Text × Text) → Text → Text
print_headers [] s = s
print_headers ((k, v) ∷ hs) s = (k ++ (codes ": " ++ (v ++ codes "\r"))) ++ 10 ∷ print_headers hs s

abbrev pub with_length : List (Text × Text) → Text → List (Text × Text)
with_length hs body = hs ++ (codes "Content-Length", itoa (byte_size body)) ∷ []

-- What follows the request line; `rest` is what comes after the request.
abbrev pub rest_of : List (Text × Text) → Text → Text → Text
rest_of hs body rest = print_headers (with_length hs body) (13 ∷ 10 ∷ (body ++ rest))

abbrev pub first_line : Text → Text → Text
first_line method target = method ++ (codes " " ++ (target ++ codes " RTSP/1.0\r"))

unfoldable pub print_request : Text → Text → List (Text × Text) → Text → Text → Text
print_request method target hs body rest = first_line method target ++ 10 ∷ rest_of hs body rest

-- Names are words without a colon; values start and end in no space and hold no line break.
abbrev pub IsHeader : Text × Text → Type 0
IsHeader (k, v) =
    All (λ c. (is_space c ≡ false) × ((c == b':') ≡ false)) k
    × All (λ c. is_break c ≡ false) v
    × (trim is_space v ≡ v)

-- The headers as the reader keeps them.
abbrev pub stored : List (Text × Text) → List (Text × Text) → List (Text × Text)
stored hs [] = hs
stored hs ((k, v) ∷ more) = stored ((map to_lower k, v) ∷ hs) more

no_break : (c : ℕ) → is_space c ≡ false → is_break c ≡ false
no_break c h = ground arith

not_newline : (c : ℕ) → is_break c ≡ false → (c == 10) ≡ false
not_newline c h = ground arith

abbrev next_line : List (Text × Text) → Text → Text → Option (List (Text × Text) × Text)
next_line hs h s = if same h [] then some (hs, s) else read_headers [] (add_header hs h) s

read_headers-append :
    (line l : Text) (hs : List (Text × Text)) (s : Text)
    → All (λ c. (c == 10) ≡ false) l
    → read_headers line hs (l ++ 10 ∷ s) ≡ next_line hs (trim_right is_break (line ++ l)) s
read_headers-append line [] hs s p =
    ap (λ t. next_line hs (trim_right is_break t) s) (sym (append-nil line))
read_headers-append line (c ∷ l) hs s (p, ps) = rw p (
    read_headers-append (line ++ c ∷ []) l hs s ps
    ∙ ap (λ t. next_line hs (trim_right is_break t) s) (append_assoc line (c ∷ []) l))

-- A line of a header, without its line feed, and what is trimmed to.
abbrev header_text : Text → Text → Text
header_text k v = k ++ (b':' ∷ b' ' ∷ v)

header_plain : (k v : Text) → IsHeader (k, v) → All (λ c. is_break c ≡ false) (header_text k v)
header_plain k v (p, q, t) =
    All-append (λ c. is_break c ≡ false) k (b':' ∷ b' ' ∷ v)
      (All-weaken (λ c h. no_break c h.0) k p) (refl, (refl, q))

header_line : (k v : Text) → k ++ (codes ": " ++ (v ++ codes "\r")) ≡ header_text k v ++ codes "\r"
header_line k v = sym (append_assoc k (b':' ∷ b' ' ∷ v) (codes "\r"))

header_stored :
    (k v : Text) (hs : List (Text × Text))
    → IsHeader (k, v)
    → add_header hs (header_text k v) ≡ (map to_lower k, v) ∷ hs
header_stored k v hs (p, q, t) =
    ap (add_parts hs) (cut-append b':' k (b' ' ∷ v) (All-weaken (λ c h. h.1) k p))
    ∙ ap₂ (λ a b. (map to_lower a, b) ∷ hs) (trim_none is_space k (All-weaken (λ c h. h.0) k p)) t

header_some : (k v : Text) → same (header_text k v) [] ≡ false
header_some [] v = refl
header_some (c ∷ k) v = refl

one_header :
    (k v : Text) (hs : List (Text × Text)) (s : Text)
    → IsHeader (k, v)
    → read_headers [] hs ((k ++ (codes ": " ++ (v ++ codes "\r"))) ++ 10 ∷ s)
      ≡ read_headers [] ((map to_lower k, v) ∷ hs) s
one_header k v hs s h =
    let plain = header_plain k v h in
    let line : Text = header_text k v ++ codes "\r" in
    let newline_free : All (λ c. (c == 10) ≡ false) line =
      All-append (λ c. (c == 10) ≡ false) (header_text k v) (codes "\r")
        (All-weaken not_newline (header_text k v) plain) (refl, tt) in
    ap (λ l. read_headers [] hs (l ++ 10 ∷ s)) (header_line k v)
    ∙ read_headers-append [] line hs s newline_free
    ∙ ap (λ l. next_line hs l s)
        (trim_right-append is_break (header_text k v) (codes "\r") plain refl)
    ∙ if_false _ _ (header_some k v)
    ∙ ap (λ g. read_headers [] g s) (header_stored k v hs h)

read_headers-print_headers :
    (more hs : List (Text × Text)) (body : Text)
    → All IsHeader more
    → read_headers [] hs (print_headers more (13 ∷ 10 ∷ body)) ≡ some (stored hs more, body)
read_headers-print_headers [] hs body p = refl
read_headers-print_headers ((k, v) ∷ more) hs body (h, p) =
    one_header k v hs (print_headers more (13 ∷ 10 ∷ body)) h
    ∙ read_headers-print_headers more ((map to_lower k, v) ∷ hs) body p

length_IsHeader : (n : ℕ) → IsHeader (codes "Content-Length", itoa n)
length_IsHeader n = (
  ground arith,
  All-weaken no_break (itoa n) (itoa-IsWord n),
  trim_none is_space (itoa n) (itoa-IsWord n),
)

stored-last :
    (hs more : List (Text × Text)) (k v : Text)
    → stored hs (more ++ (k, v) ∷ []) ≡ (map to_lower k, v) ∷ stored hs more
stored-last hs [] k v = refl
stored-last hs ((a, b) ∷ more) k v = stored-last ((map to_lower a, b) ∷ hs) more k v

line_plain :
    (method target : Text)
    → IsWord method
    → IsWord target
    → All (λ c. is_break c ≡ false) (method ++ b' ' ∷ (target ++ b' ' ∷ codes "RTSP/1.0"))
line_plain method target m t =
    All-append (λ c. is_break c ≡ false) method (b' ' ∷ (target ++ b' ' ∷ codes "RTSP/1.0"))
      (All-weaken no_break method m.1)
      (
        refl,
        All-append (λ c. is_break c ≡ false) target (b' ' ∷ codes "RTSP/1.0")
            (All-weaken no_break target t.1) (ground arith),
      )

line_newline_free :
    (method target : Text)
    → IsWord method
    → IsWord target
    → All (λ c. (c == 10) ≡ false) (method ++ (codes " " ++ (target ++ codes " RTSP/1.0\r")))
line_newline_free method target m t =
    let free : (c : ℕ) → is_space c ≡ false → (c == 10) ≡ false =
      λ c h. not_newline c (no_break c h) in
    All-append (λ c. (c == 10) ≡ false) method (codes " " ++ (target ++ codes " RTSP/1.0\r"))
      (All-weaken free method m.1)
      (
        refl,
        All-append (λ c. (c == 10) ≡ false) target (codes " RTSP/1.0\r")
            (All-weaken free target t.1) (ground arith),
      )

request_words :
    (method target : Text)
    → IsWord method
    → IsWord target
    → first_two
        (fields (trim_right is_break (method ++ (codes " " ++ (target ++ codes " RTSP/1.0\r")))))
      ≡ some (method, target)
request_words method target m t =
    let second : Text = target ++ b' ' ∷ codes "RTSP/1.0" in
    let line : Text = method ++ b' ' ∷ second in
    let regrouped : method ++ (codes " " ++ (target ++ codes " RTSP/1.0\r")) ≡ line ++ codes "\r" =
      ap (λ u. method ++ b' ' ∷ u) (sym (append_assoc target (codes " RTSP/1.0") (codes "\r")))
      ∙ sym (append_assoc method (b' ' ∷ second) (codes "\r")) in
    ap (λ u. first_two (fields (trim_right is_break u))) regrouped
    ∙ ap (λ u. first_two (fields u))
        (trim_right-append is_break line (codes "\r") (line_plain method target m t) refl)
    ∙ ap first_two (
        fields-append method second m ∙ ap (◌∷◌ method) (fields-append target (codes "RTSP/1.0") t))

body_read :
    (max_alloc : ℕ) (method target : Text) (hs : List (Text × Text)) (body rest : Text)
    → byte_size body ≤ max_alloc
    → byte_size body < 2 ^ 63
    → read_body max_alloc
        (record { method = method; target = target; headers = hs; body = [] })
        (byte_size body)
        (body ++ rest)
      ≡ Outcome.received
          (record { method = method; target = target; headers = hs; body = body })
          rest
body_read max_alloc method target hs [] rest fits small = refl
body_read max_alloc method target hs (c ∷ body) rest fits small =
    let n : ℕ = byte_size (c ∷ body) in
    let some_bytes : 1 ≤ n = ground arith in
    let positive : is_positive_int n ≡ true = ground arith in
    let allocated : ltb max_alloc n ≡ false = ground arith in
    let there : ltb (byte_size ((c ∷ body) ++ rest)) n ≡ false =
      ground (arith, byte_size-append (c ∷ body) rest) in
    if_true _ _ positive
    ∙ if_false _ _ allocated
    ∙ if_false _ _ there
    ∙ ap (with_body (record { method = method; target = target; headers = hs; body = [] }))
        (split_bytes-append (c ∷ body) rest)

headers_read :
    (hs : List (Text × Text)) (body rest : Text)
    → All IsHeader hs
    → read_headers [] [] (rest_of hs body rest)
      ≡ some ((codes "content-length", itoa (byte_size body)) ∷ stored [] hs, body ++ rest)
headers_read hs body rest p =
    read_headers-print_headers (with_length hs body) [] (body ++ rest) (
      All-append IsHeader hs ((codes "Content-Length", itoa (byte_size body)) ∷ []) p
        (length_IsHeader (byte_size body), tt))
    ∙ ap (λ g. some (g, body ++ rest))
        (stored-last [] hs (codes "Content-Length") (itoa (byte_size body)))

-- A request that a sender writes is read back whole, and what follows it is left in the input: its
-- method and target are words, its headers have names without spaces or colons and values
-- without line breaks or outer spaces, and its body, of any characters, has a size
-- that can be allocated.
pub read_request-print_request :
    (max_alloc : ℕ) (method target : Text) (hs : List (Text × Text)) (body rest : Text)
    → IsWord method
    → IsWord target
    → All IsHeader hs
    → byte_size body ≤ max_alloc
    → byte_size body < 2 ^ 63
    → read_request max_alloc (print_request method target hs body rest)
      ≡ Outcome.received
          (record {
            method = method;
            target = target;
            headers = (codes "content-length", itoa (byte_size body)) ∷ stored [] hs;
            body = body;
          })
          rest
unfolding read_request print_request
read_request-print_request max_alloc method target hs body rest m t p fits small =
    let kept : List (Text × Text) =
      (codes "content-length", itoa (byte_size body)) ∷ stored [] hs in
    ap (after_line max_alloc) (
      cut-append 10 (first_line method target) (rest_of hs body rest)
        (line_newline_free method target m t))
    ∙ ap (λ o. with_line max_alloc o (rest_of hs body rest)) (request_words method target m t)
    ∙ ap (with_headers max_alloc (method, target)) (headers_read hs body rest p)
    ∙ ap
        (λ n.
          read_body max_alloc
            (record { method = method; target = target; headers = kept; body = [] }) n.0
            (body ++ rest))
        (atoi-itoa (byte_size body) small)
    ∙ body_read max_alloc method target kept body rest fits small
