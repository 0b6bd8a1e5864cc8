-- ===== src/HttpMessage.antt =====
-- frame/event/httpmessage.h and httpmessage.cc: `SHttpMessage`. The two tables are lists, in the order
-- in which a loop over them goes.
use ape_cpp_server.Base.{
  ◌==◌, if◌then◌else◌, codes, ℤ, pos, negsuc, decimal, ℕ, suc, Bool, true, false, ◌&&◌, List, [],
  ◌∷◌, ◌++◌,
}
use ape_cpp_server.Message.{Direction, request, NetMessage, new_message}

-- `EHttpVersion`
pub data HttpVersion : Type 0 where
  http_1_0 http_1_1 : HttpVersion

-- `SCookie`; `expires` is 0 if it is not set.
pub record Cookie : Type 0 where
  pub value : List ℕ
  pub path : List ℕ
  pub domain : List ℕ
  pub expires : ℕ

pub record HttpMessage : Type 0 where
  pub net : NetMessage
  pub keepalive : Bool
  pub requestno : ℕ
  pub httpversion : HttpVersion
  pub method : List ℕ
  pub url : List ℕ
  pub xforwordip : List ℕ
  pub body : List ℕ
  pub headers : List (List ℕ × List ℕ)
  pub cookies : List (List ℕ × Cookie)

abbrev pub new_http_message : HttpMessage
new_http_message = record {
  net = new_message;
  keepalive = false;
  requestno = 0;
  httpversion = http_1_0;
  method = [];
  url = [];
  xforwordip = [];
  body = [];
  headers = [];
  cookies = [];
}

-- `IsOk`
pub http_is_ok : HttpMessage → Bool
http_is_ok m = elim m.net.code [ pos n ↦ n == 200 | negsuc n ↦ false ]

abbrev pub same_bytes : List ℕ → List ℕ → Bool
same_bytes [] [] = true
same_bytes (c ∷ s) (d ∷ t) = c == d && same_bytes s t
same_bytes _ _ = false

-- `table[key] = value`
unfoldable pub put {ℓ} : {V : Type ℓ} → List ℕ → V → List (List ℕ × V) → List (List ℕ × V)
put key value [] = (key, value) ∷ []
put key value ((k, v) ∷ table) =
    let rest = put key value table in
    if same_bytes key k then (key, value) ∷ table else (k, v) ∷ rest

-- `AddHeader`
unfoldable pub add_header : List ℕ → List ℕ → HttpMessage → HttpMessage
unfolding put
add_header key value m = record m { headers = put key value m.headers }

-- `SetCookie`
unfoldable pub set_cookie : List ℕ → Cookie → HttpMessage → HttpMessage
unfolding put
set_cookie key cookie m = record m { cookies = put key cookie m.cookies }

abbrev pub version_text : HttpVersion → List ℕ
version_text http_1_1 = codes "HTTP/1.1"
version_text http_1_0 = codes "HTTP/1.0"

abbrev pub crlf : List ℕ
crlf = 13 ∷ 10 ∷ []

abbrev pub decimal_int : ℤ → List ℕ
unfolding decimal
decimal_int (pos n) = decimal n
decimal_int (negsuc n) = b'-' ∷ decimal (suc n)

pub first_line : Direction → HttpMessage → List ℕ
first_line request m =
    m.method ++ (codes " " ++ (m.url ++ (codes " " ++ (version_text m.httpversion ++ crlf))))
first_line _ m =
    version_text m.httpversion ++ (codes " " ++ (decimal_int m.net.code ++ (codes " " ++ crlf)))

-- `BriefInfo`: the first line.
pub brief_info : HttpMessage → List ℕ
unfolding first_line
brief_info m = first_line m.net.direction m

abbrev pub indent : List ℕ
indent = codes "    "

pub header_info : List (List ℕ × List ℕ) → List ℕ
header_info [] = []
header_info ((k, v) ∷ l) = indent ++ (k ++ (codes ": " ++ (v ++ (crlf ++ header_info l))))

pub cookie_info : List (List ℕ × Cookie) → List ℕ
cookie_info [] = []
cookie_info ((k, c) ∷ l) =
    indent
    ++ (codes "Cookie: "
        ++ (k
            ++ (codes "="
                ++ (c.value
                    ++ (codes ";path="
                        ++ (c.path
                            ++ (codes "; domain=" ++ (c.domain ++ (crlf ++ cookie_info l)))))))))

-- `NoticeInfo`
pub notice_info : HttpMessage → List ℕ
unfolding brief_info header_info cookie_info
notice_info m =
    indent
    ++ (brief_info m ++ (header_info m.headers ++ (cookie_info m.cookies ++ (indent ++ m.body))))
