-- ===== src/UrlCode/Tests.antt =====
-- The theorems on encoded texts at concrete inputs, and runs of the code.
use ape_cpp_server.Base.{length, codes, ◌≡◌, refl, none, some, [], ◌∷◌, ◌++◌, arith}
use ape_cpp_server.UrlCode.{encode, decode}
use ape_cpp_server.UrlCode.Roundtrip.{decode-encode}

encoded : encode (codes "a b&c") ≡ codes "a+b%26c"
unfolding encode
encoded = refl

-- A `%` at the end makes the decoder read behind the NUL.
cut_off : decode 2 (codes "a%" ++ (0 ∷ [])) ≡ none
unfolding decode
cut_off = refl

decode-encode_example :
    decode (length (encode (codes "a b&c"))) (encode (codes "a b&c") ++ (0 ∷ []))
    ≡ some (codes "a b&c")
decode-encode_example = decode-encode (codes "a b&c") (0 ∷ []) (omega arith)
