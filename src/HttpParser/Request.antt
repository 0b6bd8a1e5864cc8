-- ===== src/HttpParser/Request.antt =====
-- `CHttpParser::Decode` on requests.
use ape_cpp_server.Base.{
  leb, le→not_ltb, ==_ne, length, take, drop, All, length-append, take-append_left, drop-append,
  codes, ℤ, ℕ, ◌+◌, ◌≤◌, ◌≡◌, refl, ap, ◌∙◌, ◌≢◌, Bool, true, false, Option, some, List, [], ◌∷◌,
  ◌++◌, append_assoc, arith,
}
use ape_cpp_server.CText.{found, strchr}
use ape_cpp_server.HttpMessage.{
  HttpVersion, http_1_0, http_1_1, HttpMessage, new_http_message, version_text, crlf,
}
use ape_cpp_server.HttpParser.{version_at, method_at, decode_headers, decode_request, http_decode}
use ape_cpp_server.HttpParser.Head.{behind, behind_one, behind_none, strchr_here}

-- The methods that `Decode` knows.
pub data Method : Type 0 where
  get post head trace puts delete options connect : Method

abbrev pub method_text : Method → List ℕ
method_text get = codes "GET"
method_text post = codes "POST"
method_text head = codes "HEAD"
method_text trace = codes "TRACE"
method_text puts = codes "PUT"
method_text delete = codes "DELETE"
method_text options = codes "OPTIONS"
method_text connect = codes "CONNECT"

abbrev pub is_1_1 : HttpVersion → Bool
is_1_1 http_1_1 = true
is_1_1 http_1_0 = false

abbrev pub request_line : Method → List ℕ → HttpVersion → List ℕ
request_line w url v = (method_text w ++ (b' ' ∷ url)) ++ (b' ' ∷ (version_text v ++ crlf))

-- what the first line says
abbrev pub first_message : Method → List ℕ → HttpVersion → HttpMessage
first_message w url v = record new_http_message {
  method = method_text w;
  url = url;
  httpversion = v;
  keepalive = is_1_1 v;
}

-- a text without a space and NUL
abbrev pub IsUrl : List ℕ → Type 0
IsUrl = All (λ c. (c ≢ 0) × (c ≢ b' '))

pub method_at-text :
    (w : Method) (s : List ℕ)
    → method_at (method_text w ++ s) ≡ some (length (method_text w), false)
unfolding method_at
method_at-text get s = refl
method_at-text post s = refl
method_at-text head s = refl
method_at-text trace s = refl
method_at-text puts s = refl
method_at-text delete s = refl
method_at-text options s = refl
method_at-text connect s = refl

pub length-method : (w : Method) → (3 ≤ length (method_text w)) × (length (method_text w) ≤ 7)
length-method get = omega arith
length-method post = omega arith
length-method head = omega arith
length-method trace = omega arith
length-method puts = omega arith
length-method delete = omega arith
length-method options = omega arith
length-method connect = omega arith

pub strchr-url :
    (url s : List ℕ) → IsUrl url → strchr b' ' (url ++ s) ≡ behind (length url) (strchr b' ' s)
unfolding strchr
strchr-url [] s p = behind_none (strchr b' ' s)
strchr-url (c ∷ url) s ((h0, h32), p) =
    rw (strchr, ==_ne c b' ' h32, ==_ne c 0 h0, strchr-url url s p)
      (behind_one (length url) (strchr b' ' s))

version_at-text :
    (v : HttpVersion) (s : List ℕ) (m : HttpMessage)
    → version_at (drop 6 (b' ' ∷ (version_text v ++ (crlf ++ s)))) m
      ≡ some (record m { httpversion = v; keepalive = is_1_1 v })
unfolding version_at
version_at-text http_1_1 s m = refl
version_at-text http_1_0 s m = refl

pub length-version : (v : HttpVersion) → length (version_text v) ≡ 8
length-version http_1_1 = refl
length-version http_1_0 = refl

module _ (parse_gmt : List ℕ → Option ℤ) (w : Method) (url : List ℕ) (v : HttpVersion)
    (u : IsUrl url) where
  pub length-line : length (request_line w url v) ≡ length (method_text w) + 1 + length url + 11
  length-line = omega (
    arith,
    length-append (method_text w ++ (b' ' ∷ url)) (b' ' ∷ (version_text v ++ crlf)),
    length-append (method_text w) (b' ' ∷ url),
    length-append (version_text v) crlf,
    length-version v,
  )

  -- The first line of a request, if it is complete.
  pub decode-request_line :
      (len : ℕ) (s : List ℕ)
      → 16 ≤ len
      → length (request_line w url v) ≤ len
      → http_decode parse_gmt len (request_line w url v ++ s) new_http_message
        ≡ decode_headers parse_gmt len
            (request_line w url v ++ s)
            (length (request_line w url v))
            (first_message w url v)
  unfolding http_decode decode_request
  decode-request_line len s h16 hl =
      rw
        (
          http_decode,
          le→not_ltb len 16 h16,
          method_found,
          decode_request,
          space_found,
          not_short,
          version_found,
        )
        (ap
          (λ k. decode_headers parse_gmt len (request_line w url v ++ s) k (first_message w url v))
          (omega (arith, length-line)))
    where
      n : ℕ
      n = length (method_text w)

      after : List ℕ
      after = b' ' ∷ (version_text v ++ (crlf ++ s))

      mem_eq : request_line w url v ++ s ≡ method_text w ++ ((b' ' ∷ url) ++ after)
      mem_eq =
          append_assoc (method_text w ++ (b' ' ∷ url)) (b' ' ∷ (version_text v ++ crlf)) s
          ∙ ap (λ l. (method_text w ++ (b' ' ∷ url)) ++ (b' ' ∷ l))
              (append_assoc (version_text v) crlf s)
          ∙ append_assoc (method_text w) (b' ' ∷ url) after

      method_found : method_at (request_line w url v ++ s) ≡ some (length (method_text w), false)
      method_found = ap method_at mem_eq ∙ method_at-text w ((b' ' ∷ url) ++ after)

      space_found : strchr b' ' (drop (n + 1) (request_line w url v ++ s)) ≡ found (length url)
      space_found =
          ap (λ l. strchr b' ' (drop (n + 1) l)) mem_eq
          ∙ ap (strchr b' ') (drop-append (method_text w) ((b' ' ∷ url) ++ after) (n + 1) 1 refl)
          ∙ strchr-url url after u
          ∙ ap (behind (length url)) (strchr_here b' ' (version_text v ++ (crlf ++ s)))
          ∙ ap found (omega arith)

      not_short : leb len (n + 1 + length url + 9) ≡ false
      not_short = ground (arith, length-line)

      method_eq : take n (request_line w url v ++ s) ≡ method_text w
      method_eq = ap (take n) mem_eq ∙ take-append_left (method_text w) ((b' ' ∷ url) ++ after)

      url_eq : take (length url) (drop (n + 1) (request_line w url v ++ s)) ≡ url
      url_eq =
          ap (λ l. take (length url) (drop (n + 1) l)) mem_eq
          ∙ ap (take (length url))
              (drop-append (method_text w) ((b' ' ∷ url) ++ after) (n + 1) 1 refl)
          ∙ take-append_left url after

      version_found :
          version_at
            (drop (n + 1 + length url + 6) (request_line w url v ++ s))
            (record new_http_message {
              method = take n (request_line w url v ++ s);
              url = take (length url) (drop (n + 1) (request_line w url v ++ s));
            })
          ≡ some (first_message w url v)
      version_found = cc (
        method_eq,
        url_eq,
        ap (drop (n + 1 + length url + 6)) mem_eq
            ∙ drop-append (method_text w) ((b' ' ∷ url) ++ after) (n + 1 + length url + 6)
                (1 + length url + 6) (omega arith)
            ∙ drop-append (b' ' ∷ url) after (1 + length url + 6) 6 (omega arith),
        version_at-text v s (record new_http_message { method = method_text w; url = url }),
      )
