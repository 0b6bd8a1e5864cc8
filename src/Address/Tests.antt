-- ===== src/Address/Tests.antt =====
-- Runs of `ParseAddr`, and its theorem at a concrete input.
use ape_cpp_server.Base.{codes, decimal, ◌≡◌, refl, none, some, arith}
use ape_cpp_server.Address.Printed.{parse_addr-text}
use ape_cpp_server.Address.{http, thrift, malformed, overrun, address, parse_addr, create_parser}

with_port :
    parse_addr (codes "http://127.0.0.1:8008") ≡ address http (codes "127.0.0.1") (some 8008)
unfolding parse_addr
with_port = refl

no_port : parse_addr (codes "thrift://h") ≡ address thrift (codes "h") none
unfolding parse_addr
no_port = refl

no_host : parse_addr (codes "http:/h") ≡ malformed
unfolding parse_addr
no_host = refl

-- The conversion of the host has no limit.
long_host : parse_addr (codes "ftd://abcdefghijklmnopqrstuvwxyz012345:1") ≡ overrun
unfolding parse_addr
long_host = refl

-- No parser is registered for this protocol.
no_parser : create_parser 3 ≡ none
unfolding create_parser
no_parser = refl

parse_addr-text_example :
    parse_addr (codes "thrift://db-1:9090") ≡ address thrift (codes "db-1") (some 9090)
unfolding decimal
parse_addr-text_example =
    parse_addr-text thrift (codes "db-1") 9090 (omega arith, omega arith, omega arith) (omega arith)
