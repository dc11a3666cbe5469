-- ===== src/Url/Tests.antt =====
-- Escapes of texts with delimiters, spaces and code points of every length.
use custd_sdk_go.Base.{codes, ◌∷◌, [], ◌≡◌, refl, some}
use custd_sdk_go.Url.{path_escape, query_escape, escape_path_byte, escape_query_byte}
use custd_sdk_go.Url.Reading.{query_unescape}

path_kept : path_escape (codes "a/b c?") ≡ codes "a%2Fb%20c%3F"
unfolding path_escape escape_path_byte codes
path_kept = refl

-- A dot segment is not escaped.
dots_kept : path_escape (codes "..") ≡ codes ".."
unfolding path_escape escape_path_byte codes
dots_kept = refl

wide : path_escape (0xe9 ∷ 0x20ac ∷ 0x1f600 ∷ []) ≡ codes "%C3%A9%E2%82%AC%F0%9F%98%80"
unfolding path_escape escape_path_byte codes
wide = refl

query_kept : query_escape (codes "a b&c=d") ≡ codes "a+b%26c%3Dd"
unfolding query_escape escape_query_byte codes
query_kept = refl

lower_digits : query_unescape (codes "a%2fb") ≡ some (codes "a/b")
unfolding query_unescape codes
lower_digits = refl
