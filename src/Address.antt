-- ===== src/Address.antt =====
-- frame/protocol/protocolhelper.cc: `ParseAddr`, with the protocols of frame/protocol/protocol.h and the
-- factories of frame/protocol/baseparser.cc and frame/session/sessionfactory.cc. A text has no NUL.
pub mod Printed
mod Tests
use Prim.Native.Nat.{min}
use ape_cpp_server.Base.{
  ltb, leb, ◌==◌, if◌then◌else◌, length, get_elem?, set, replicate, drop, codes, starts_nocase,
  ◌>>=◌, ℕ, zero, suc, ◌-◌, ◌%◌, ◌^◌, Bool, true, false, Option, none, some, List, [], ◌∷◌,
}
use ape_cpp_server.CText.{starts, is_digit, skip_space, read_decimal}

-- `EProtocolType`, but for the error
pub data Protocol : Type 0 where
  http thrift ftd : Protocol

-- the value in the enumeration, of which `E_PROTOCOL_ALL` is 4
abbrev pub protocol_no : Protocol → ℕ
protocol_no http = 1
protocol_no thrift = 2
protocol_no ftd = 3

-- What `ParseAddr` comes to: -1, -2, a write behind the 32 bytes of `ip`, or 0 with the protocol, the
-- host, and the port, `none` where it is left as it was.
pub data Address : Type 0 where
  malformed unknown overrun : Address
  address : Protocol → List ℕ → Option ℕ → Address

abbrev pub prepend : ℕ → List ℕ × List ℕ → List ℕ × List ℕ
prepend c (s, rest) = (c ∷ s, rest)

-- `%[^:]`, with `n` characters at most: what it takes, and what it leaves
unfoldable pub span_colon : ℕ → List ℕ → List ℕ × List ℕ
span_colon zero s = ([], s)
span_colon (suc n) [] = ([], [])
span_colon (suc n) (c ∷ s) =
    let more = prepend c (span_colon n s) in if c == b':' then ([], c ∷ s) else more

-- the value of `strtoul` as an `unsigned int`
abbrev pub as_unsigned : Bool → ℕ → ℕ
as_unsigned minus n =
    (if ltb (2 ^ 64 - 1) n then 2 ^ 64 - 1 else if minus then 2 ^ 64 - n else n) % 2 ^ 32

abbrev pub decimal_here : Bool → List ℕ → Option ℕ
decimal_here minus [] = none
decimal_here minus (c ∷ s) =
    if is_digit c then some (as_unsigned minus (read_decimal 0 (c ∷ s))) else none

abbrev pub signed_decimal : List ℕ → Option ℕ
signed_decimal [] = none
signed_decimal (c ∷ s) =
    if c == b'-' then decimal_here true s else decimal_here false (if c == b'+' then s else c ∷ s)

-- `:%u`
unfoldable pub port_behind : List ℕ → Option ℕ
unfolding skip_space read_decimal
port_behind [] = none
port_behind (c ∷ s) = if c == b':' then signed_decimal (skip_space s) else none

abbrev pub or_80 : Option ℕ → ℕ
or_80 none = 80
or_80 (some n) = n

-- The branches on the protocol.
pub choose : List ℕ → List ℕ → Option ℕ → Address
choose pro ip port =
    if starts_nocase (codes "http") pro
    then address http ip (some (or_80 port))
    else if starts_nocase (codes "thrift") pro
    then address thrift ip port
    else if starts_nocase (codes "ftd") pro
    then address ftd ip port
    else unknown

-- The host, which the conversion writes with a NUL behind it, and what follows.
pub with_host : List ℕ → List ℕ × List ℕ → Address
unfolding choose port_behind
with_host pro ([], rest) = malformed
with_host pro (c ∷ ip, rest) =
    if leb 32 (length (c ∷ ip)) then overrun else choose pro (c ∷ ip) (port_behind rest)

pub with_protocol : List ℕ × List ℕ → Address
unfolding with_host span_colon
with_protocol ([], rest) = malformed
with_protocol (c ∷ pro, rest) =
    if starts (codes "://") rest
    then with_host (c ∷ pro) (span_colon (length rest) (drop 3 rest))
    else malformed

-- `ParseAddr`
unfoldable pub parse_addr : List ℕ → Address
unfolding with_protocol
parse_addr s = with_protocol (span_colon 31 s)

-- `factories_`, of `ParserFactory` and of `SessionFactory`
abbrev pub Factories : Type 0 → Type 0
Factories F = List (Option F)

abbrev pub no_factories : {F : Type 0} → Factories F
no_factories = replicate 4 none

-- `RegisterFactory`
abbrev pub register : {F : Type 0} → ℕ → F → Factories F → Factories F
register protocol factory factories = set factories protocol (some factory)

-- The parsers and the sessions that there are.
pub data Parser : Type 0 where
  http_parser thrift_parser : Parser

pub data SessionKind : Type 0 where
  plain_session http_session : SessionKind

abbrev pub parser_factories : Factories Parser
parser_factories = register 2 thrift_parser (register 1 http_parser no_factories)

abbrev pub session_factories : Factories SessionKind
session_factories = register 1 http_session no_factories

-- `ParserFactory::CreateParser`; `none` is NULL.
unfoldable pub create_parser : ℕ → Option Parser
create_parser protocol = get_elem? parser_factories protocol >>= (λ factory. factory)

abbrev pub or_plain : Option SessionKind → SessionKind
or_plain none = plain_session
or_plain (some kind) = kind

-- `SessionFactory::CreateSession`
unfoldable pub create_session : ℕ → Option SessionKind
create_session protocol =
    get_elem? session_factories protocol >>= (λ factory. some (or_plain factory))
