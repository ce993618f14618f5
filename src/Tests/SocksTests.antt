-- ===== src/Tests/SocksTests.antt =====
-- net/socks5.cpp at concrete inputs.
use libight.Prelude.{◌≡◌, refl, true, false, List, [], ◌∷◌, ◌++◌, arith}
use libight.Prelude.Bytes.{Bytes, codes}
use libight.Prelude.Int.{pos}
use libight.Common.Error.{ok}
use libight.Net.Socks5.{format_connect_request, parse_connect_response}
use libight.Net.Socks5.Wire.{long_name_stalls}
use libight.Net.Socks5.Machine.{Config}

abbrev reply_body : Bytes
reply_body = 127 ∷ 0 ∷ 0 ∷ 1 ∷ 0 ∷ 80 ∷ []

abbrev granted : Bytes
granted = 5 ∷ 0 ∷ 0 ∷ 1 ∷ reply_body

long_name_stalls_example :
    parse_connect_response true (5 ∷ 0 ∷ 0 ∷ 3 ∷ 200 ∷ codes "abc")
    ≡ (ok false, 5 ∷ 0 ∷ 0 ∷ 3 ∷ 200 ∷ codes "abc")
long_name_stalls_example =
    long_name_stalls 200 (codes "abc") (omega arith) (omega arith) (omega arith)

abbrev to_ooni : Config
to_ooni = record { signed = true; closes = false; address = codes "ooni.org"; port = pos 80 }

-- The method and the reply are cut somewhere.
abbrev pieces : List Bytes
pieces =
    (5 ∷ []) ∷ (0 ∷ 5 ∷ 0 ∷ 0 ∷ 1 ∷ 127 ∷ []) ∷ (0 ∷ 0 ∷ 1 ∷ 0 ∷ 80 ∷ codes "HT") ∷ codes "TP" ∷ []

abbrev request : Bytes
request = 5 ∷ 1 ∷ 0 ∷ 3 ∷ 8 ∷ (codes "ooni.org" ++ 0 ∷ 80 ∷ [])

formatted : format_connect_request (codes "ooni.org") (pos 80) ≡ ok request
unfolding format_connect_request
formatted = refl
