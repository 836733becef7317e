-- ===== src/Http/Tests.antt =====
-- The theorems at concrete inputs.
use libevent_1_4_3_stable_le.Base.{ℕ, ◌≡◌, refl, List, [], ◌∷◌, arith}
use libevent_1_4_3_stable_le.Base.Run.{ok, Returns}
use libevent_1_4_3_stable_le.Http.Uri.{encode_uri, decode_uri, decode_loop, has_pair, pair_value}
use libevent_1_4_3_stable_le.Http.Uri.RoundTrip.{
  IsString, decode_uri-encode_uri, decode_query-encode_uri,
}
use libevent_1_4_3_stable_le.Http.Headers.{
  AllLegal, Evkeyval, add_header, remove_header, RemovedHeader, remove_header-RemovedHeader,
}
use libevent_1_4_3_stable_le.Http.Query.{parse_query, parse_query-AllLegal}

-- "a+b c"
abbrev text : List ℕ
text = 97 ∷ 43 ∷ 98 ∷ 32 ∷ 99 ∷ []

text-IsString : IsString text
text-IsString = (omega arith, (omega arith, (omega arith, (omega arith, (omega arith, tt)))))

decode_uri-encode_uri_example : decode_uri (encode_uri text) ≡ ok text
decode_uri-encode_uri_example = decode_uri-encode_uri text text-IsString (omega arith)

decode_query-encode_uri_example :
    decode_uri (63 ∷ encode_uri text) ≡ ok (63 ∷ 97 ∷ 32 ∷ 98 ∷ 32 ∷ 99 ∷ [])
decode_query-encode_uri_example = decode_query-encode_uri text text-IsString (omega arith)

-- Of the keys "Host" and "via".
abbrev two_headers : List Evkeyval
two_headers =
    (record { key = 72 ∷ 111 ∷ 115 ∷ 116 ∷ []; value = 120 ∷ [] })
    ∷ (record { key = 118 ∷ 105 ∷ 97 ∷ []; value = 121 ∷ [] })
    ∷ []

remove_header-RemovedHeader_example :
    RemovedHeader two_headers (86 ∷ 73 ∷ 65 ∷ []) (remove_header two_headers (86 ∷ 73 ∷ 65 ∷ []))
remove_header-RemovedHeader_example = remove_header-RemovedHeader two_headers (86 ∷ 73 ∷ 65 ∷ [])

-- "/?a=%0a&b=c": the value with a line break is dropped.
abbrev query_text : List ℕ
query_text = 47 ∷ 63 ∷ 97 ∷ 61 ∷ 37 ∷ 48 ∷ 97 ∷ 38 ∷ 98 ∷ 61 ∷ 99 ∷ []

parse_query-AllLegal_example : Returns AllLegal (parse_query query_text)
parse_query-AllLegal_example = parse_query-AllLegal query_text (omega arith)

query_result : parse_query query_text ≡ ok (record { key = 98 ∷ []; value = 99 ∷ [] } ∷ [])
unfolding parse_query decode_uri add_header decode_loop has_pair pair_value
query_result = refl
