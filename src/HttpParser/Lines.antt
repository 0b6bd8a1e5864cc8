-- ===== src/HttpParser/Lines.antt =====
-- The loop over the lines of a head.
use ape_cpp_server.Base.{
  leb, lt→ltb, length, take, drop, All, length-append, take-append_left, drop-append,
  take-append_at, ℤ, ℕ, zero, suc, ◌+◌, ◌-◌, ◌<◌, ◌≡◌, refl, ap, ◌∙◌, true, false, Option, some,
  List, [], ◌∷◌, ◌++◌, append_assoc, arith,
}
use ape_cpp_server.CText.{found, strchr, strstr}
use ape_cpp_server.HttpMessage.{add_header, crlf}
use ape_cpp_server.HttpParser.{Reading, trim, parse_header, header_line, header_lines}
use ape_cpp_server.HttpParser.Head.{
  Header, IsHeader, line_of, head_text, behind, strchr-text, strchr_here, line-IsText, strstr-line,
  head_end, length-head, head-append,
}

module _ (parse_gmt : List ℕ → Option ℤ) where
  -- What one line does to the parser and the message, and what all lines do.
  abbrev pub read_header : Header → Reading → Reading
  read_header h r =
      let key = trim true h.key in
      let value = trim false h.value in
      parse_header parse_gmt key value (record r { msg = add_header key value r.msg })

  abbrev pub read_headers : List Header → Reading → Reading
  read_headers [] r = r
  read_headers (h ∷ hs) r = read_headers hs (read_header h r)

  header_line_lem :
      (h : Header) (s : List ℕ) (r : Reading)
      → IsHeader h
      → header_line parse_gmt (line_of h ++ s) (length (line_of h)) (strchr b':' (line_of h ++ s)) r
        ≡ some (read_header h r)
  unfolding header_line
  header_line_lem h s r v =
      rw (colon, lt→ltb (length h.key) (length (line_of h)) (omega (arith, size)), key_at, value_at)
        refl
    where
      size : length (line_of h) ≡ length h.key + suc (length h.value)
      size = length-append h.key (b':' ∷ h.value)

      colon : strchr b':' (line_of h ++ s) ≡ found (length h.key)
      colon =
          ap (strchr b':') (append_assoc h.key (b':' ∷ h.value) s)
          ∙ strchr-text b':' h.key (b':' ∷ (h.value ++ s)) v.key_text v.key_colon
          ∙ ap (behind (length h.key)) (strchr_here b':' (h.value ++ s))
          ∙ ap found (omega arith)

      key_at : take (length h.key) (line_of h ++ s) ≡ h.key
      key_at =
          ap (take (length h.key)) (append_assoc h.key (b':' ∷ h.value) s)
          ∙ take-append_left h.key (b':' ∷ (h.value ++ s))

      value_at :
          take (length (line_of h) - length h.key - 1) (drop (length h.key + 1) (line_of h ++ s))
          ≡ h.value
      value_at =
          ap (λ l. take (length (line_of h) - length h.key - 1) (drop (length h.key + 1) l))
            (append_assoc h.key (b':' ∷ h.value) s)
          ∙ ap (take (length (line_of h) - length h.key - 1))
              (drop-append h.key (b':' ∷ (h.value ++ s)) (length h.key + 1) 1 refl)
          ∙ take-append_at (length (line_of h) - length h.key - 1) h.value s (omega (arith, size))

  -- The loop reads the lines in their order, and stops at the end of the head.
  pub header_lines_lem :
      (hs : List Header) (n room : ℕ) (rest : List ℕ) (r : Reading)
      → All IsHeader hs
      → length hs < n
      → room ≡ head_end hs
      → header_lines parse_gmt n (head_text hs ++ (crlf ++ rest)) room r ≡ some (read_headers hs r)
  unfolding header_lines
  header_lines_lem hs zero room rest r v h e = elim h [ ]
  header_lines_lem [] (suc n) room rest r v h e = rw (header_lines, e) refl
  header_lines_lem (h ∷ hs) (suc n) room rest r (v, vs) hn e =
      rw
        (
          header_lines,
          ap (strstr crlf) (head-append h hs (crlf ++ rest))
              ∙ strstr-line (line_of h) (head_text hs ++ (crlf ++ rest)) (line-IsText h v),
          lt→ltb 0 room (omega (arith, e, length-head h hs, length-append h.key (b':' ∷ h.value))),
          fits,
          ap (λ l. header_line parse_gmt l (length (line_of h)) (strchr b':' l) r)
                (head-append h hs (crlf ++ rest))
              ∙ header_line_lem h (13 ∷ 10 ∷ (head_text hs ++ (crlf ++ rest))) r v,
          ap (drop (length (line_of h) + 2)) (head-append h hs (crlf ++ rest))
              ∙ drop-append (line_of h) (13 ∷ 10 ∷ (head_text hs ++ (crlf ++ rest)))
                  (length (line_of h) + 2) 2 refl,
        )
        (header_lines_lem hs n (room - (length (line_of h) + 2)) rest (read_header h r) vs
          (omega arith) (omega (arith, e, length-head h hs)))
    where
      fits : leb (length (line_of h)) room ≡ true
      fits = ground (arith, e, length-head h hs)
