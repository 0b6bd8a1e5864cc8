-- ===== src/Config.antt =====
-- frame/common/xmlconfigparser.cc: `CXmlConfigParser`. Of tinyxml2 the code uses what `Parse` and
-- `LoadFile` leave of the document, `FirstChildElement`, `NextSiblingElement` and the printer; an element
-- is a value of a type that is a parameter.
pub mod Keys
mod Tests
use ape_cpp_server.Base.{
  ◌==◌, if◌then◌else◌, length, take, drop, codes, decimal, ℤ, ℕ, zero, suc, ◌+◌, Bool, true, false,
  Option, none, some, List, [], ◌∷◌, ◌++◌, map,
}
use mathlib.Core.Option
use ape_cpp_server.CText.{c_text, atoi}

-- What tinyxml2 leaves of a document: whether it has an error, with the number, the name and the two
-- texts of that, and the root.
pub record Loaded (E : Type 0) : Type 0 where
  pub failed : Bool
  pub error_id : ℕ
  pub error_name : List ℕ
  pub str1 : Option (List ℕ)
  pub str2 : Option (List ℕ)
  pub root_element : Option E

pub record ConfigParser (E : Type 0) : Type 0 where
  pub root : Option E
  pub error : List ℕ

abbrev pub new_config_parser : {E : Type 0} → ConfigParser E
new_config_parser = record { root = none; error = [] }

abbrev pub or_nothing : Option (List ℕ) → List ℕ
or_nothing none = []
or_nothing (some s) = s

-- `SetXmlError`: the number is printed with room for 14 characters.
pub set_xml_error : {E : Type 0} → Loaded E → ConfigParser E → ConfigParser E
unfolding decimal
set_xml_error d p =
    if d.failed
    then record p {
      error =
          codes "XMLDocument error "
          ++ (take 14 (codes "id=" ++ (decimal d.error_id ++ codes " "))
              ++ (d.error_name
                  ++ (codes " str1="
                      ++ (or_nothing d.str1 ++ (codes " str2=" ++ or_nothing d.str2)))));
    }
    else p

-- The end of `ParseFile` and `ParseBuffer`: whether it returns 0, and the parser.
pub take_root : {E : Type 0} → Option E → ConfigParser E → Bool × ConfigParser E
take_root none p = (false, record p { root = none; error = codes "no root node!" })
take_root (some e) p = (true, record p { root = some e })

-- `ParseFile`, whose test is on the value of `LoadFile`, and `ParseBuffer`
pub parse_loaded : {E : Type 0} → Loaded E → ConfigParser E → Bool × ConfigParser E
unfolding set_xml_error take_root
parse_loaded d p = if d.failed then (false, set_xml_error d p) else take_root d.root_element p

-- `ParseDetailBuffer`
pub parse_detail_buffer :
    {E : Type 0} → (List ℕ → Loaded E) → List ℕ → ConfigParser E → Bool × ConfigParser E
unfolding parse_loaded
parse_detail_buffer parse s p =
    parse_loaded
      (parse (
        codes "<?xml version=\"1.0\" encoding=\"UTF-8\" ?><parameters>"
        ++ (c_text s ++ codes "</parameters>")))
      p

-- `find ("/", begin)` from the beginning of the rest on
pub find_slash : List ℕ → Option ℕ
find_slash [] = none
find_slash (c ∷ s) = if c == b'/' then some 0 else Option.map suc (find_slash s)

abbrev pub is_nil : List ℕ → Bool
is_nil [] = true
is_nil (c ∷ s) = false

module _ {E : Type 0} (first_child : E → List ℕ → Option E) where
  -- `FirstChildElement` of a key, unless that is empty
  pub child_of : E → List ℕ → Option E
  child_of e key = if is_nil key then none else first_child e (c_text key)

  -- The loop over the keys and what follows it, on the rest of the path: each turn takes a character
  -- at least.
  pub find_element : ℕ → E → List ℕ → Option E
  unfolding find_slash child_of
  find_element zero e path = none
  find_element (suc n) e path = elim (find_slash path) [
    | none ↦ child_of e path
    | some k ↦ elim (child_of e (take k path)) [
      | none ↦ none
      | some e' ↦ find_element n e' (drop (suc k) path)
    ]
  ]

  pub element_at : Option E → List ℕ → Option E
  unfolding find_element
  element_at none path = none
  element_at (some e) path = find_element (suc (length path)) e path

  -- `GetParameter (path)`
  pub get_parameter : (E → List ℕ) → List ℕ → ConfigParser E → List ℕ
  unfolding element_at
  get_parameter inner path p = elim (element_at p.root path) [ none ↦ [] | some e ↦ inner e ]

  -- `GetParameter` with a text or a number for a default
  pub get_text : (E → List ℕ) → List ℕ → List ℕ → ConfigParser E → List ℕ
  unfolding get_parameter
  get_text inner path default p =
      let result = get_parameter inner path p in if is_nil result then default else result

  pub get_number : (E → List ℕ) → List ℕ → ℤ → ConfigParser E → ℤ
  unfolding get_parameter atoi
  get_number inner path default p =
      let result = get_parameter inner path p in
      if is_nil result then default else atoi (c_text result)

  -- the last key of a path, by which `GetParameters` looks for the siblings
  pub last_key : ℕ → List ℕ → List ℕ
  unfolding find_slash
  last_key zero path = path
  last_key (suc n) path = elim (find_slash path) [
    | none ↦ path
    | some k ↦ last_key n (drop (suc k) path)
  ]

  -- `GetParameters`; `following` are the elements that repeated calls of `NextSiblingElement` give.
  pub get_parameters :
      (E → List ℕ) → (E → List ℕ → List E) → List ℕ → ConfigParser E → List (List ℕ)
  unfolding element_at last_key
  get_parameters inner following path p = elim (element_at p.root path) [
    | none ↦ []
    | some e ↦ map inner (e ∷ following e (c_text (last_key (suc (length path)) path)))
  ]
