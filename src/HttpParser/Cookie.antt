-- ===== src/HttpParser/Cookie.antt =====
-- frame/protocol/httpparser.cc: `CHttpParser::DecodeCookie`, on places in the value of the header.
-- `parse_gmt` is `strptime` followed by `mktime`, `none` where the former returns NULL.
use ape_cpp_server.Base.{
  ltb, leb, ◌==◌, if◌then◌else◌, length, take, drop, codes, starts_nocase, ℤ, pos, negsuc, ℕ, suc,
  ◌+◌, ◌-◌, ◌≡◌, ◌&&◌, Option, none, some, List, [], ◌∷◌, ◌++◌, arith,
}
use ape_cpp_server.CText.{c_text}
use ape_cpp_server.HttpMessage.{HttpMessage, put}

-- The variables of the loop.
pub record CookieScan : Type 0 where
  pub begin : ℕ
  pub split1 : ℕ
  pub split2 : ℕ
  pub key : List ℕ
  pub value : List ℕ
  pub path : List ℕ
  pub domain : List ℕ
  pub expires : ℕ

abbrev pub new_scan : CookieScan
new_scan = record {
  begin = 0;
  split1 = 0;
  split2 = 0;
  key = [];
  value = [];
  path = [];
  domain = [];
  expires = 0;
}

-- the character `c` at the place `p` of a text of `len` characters
pub note_char : ℕ → ℕ → ℕ → CookieScan → CookieScan
note_char len p c q =
    if c == b'='
    then record q { split1 = p }
    else if c == b';'
    then record q { split2 = p }
    else if p + 1 == len
    then record q { split2 = len }
    else q

abbrev pub count_spaces : List ℕ → ℕ
count_spaces [] = 0
count_spaces (c ∷ s) = if c == b' ' then suc (count_spaces s) else 0

-- the part before the `=`, and the one behind it
abbrev pub left_part : List ℕ → CookieScan → List ℕ
left_part s q = take (q.split1 - q.begin) (drop q.begin s)

abbrev pub right_part : List ℕ → CookieScan → List ℕ
right_part s q = take (q.split2 - q.split1 - 1) (drop (q.split1 + 1) s)

module _ (parse_gmt : List ℕ → Option ℤ) where
  -- `httptime` of a text
  pub parse_time : List ℕ → ℕ
  parse_time s = elim (parse_gmt s) [ none ↦ 0 | some (pos n) ↦ n | some (negsuc _) ↦ 0 ]

  pub keep_part : List ℕ → CookieScan → CookieScan
  unfolding parse_time
  keep_part s q =
      if starts_nocase (codes "path") (drop q.begin s)
      then record q { path = q.path ++ right_part s q }
      else if starts_nocase (codes "domain") (drop q.begin s)
      then record q { domain = q.domain ++ right_part s q }
      else if starts_nocase (codes "expires") (drop q.begin s)
      then record q { expires = parse_time (c_text (right_part s q)) }
      else record q { key = q.key ++ left_part s q; value = q.value ++ right_part s q }

  -- The block that takes a part once both its ends are known.
  pub take_part : List ℕ → CookieScan → CookieScan
  unfolding keep_part
  take_part s q =
      if ltb q.begin q.split1 && leb (q.split1 + 1) q.split2
      then record (keep_part s q) { begin = q.split2 + 1 + count_spaces (drop (q.split2 + 1) s) }
      else q

  pub cookie_loop : List ℕ → ℕ → List ℕ → CookieScan → CookieScan
  unfolding take_part note_char
  cookie_loop s p [] q = q
  cookie_loop s p (c ∷ rest) q =
      let next = cookie_loop s (p + 1) rest (take_part s (note_char (length s) p c q)) in
      if ltb q.begin (length s) then next else q

  -- `cookies[strkey] = …`, unless no key was found
  pub keep_cookie : CookieScan → HttpMessage → HttpMessage
  unfolding put
  keep_cookie q m = elim q.key [
    | [] ↦ m
    | c ∷ k ↦ record m {
      cookies =
          put (c ∷ k)
            (record { value = q.value; path = q.path; domain = q.domain; expires = q.expires })
            m.cookies;
    }
  ]

  -- `DecodeCookie`
  unfoldable pub decode_cookie : List ℕ → HttpMessage → HttpMessage
  unfolding cookie_loop keep_cookie
  decode_cookie s m = keep_cookie (cookie_loop s 0 s new_scan) m

  pub body-decode_cookie : (s : List ℕ) (m : HttpMessage) → (decode_cookie s m).body ≡ m.body
  unfolding decode_cookie
  body-decode_cookie s m = same (cookie_loop s 0 s new_scan)
    where
      same : (q : CookieScan) → (keep_cookie q m).body ≡ m.body
      same q = ground arith
