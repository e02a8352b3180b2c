-- ===== src/Util/Tests.antt =====
-- Runs of append_format and of the status table.
use h2_client_proxy.Base.{◌+◌, ◌<◌, ◌≡◌, refl, [], arith, false, true, codes, length}
use h2_client_proxy.Util.{append_format, get_status_string}
use h2_client_proxy.Util.Format.{append_format_overflow}

status_lines :
    (get_status_string 404 false ≡ codes "404 Not Found")
    × (get_status_string 200 true ≡ codes "200 Connection established")
    × (get_status_string 429 false ≡ [])
unfolding get_status_string
status_lines = (refl, refl, refl)

-- A buffer of ten bytes that holds six takes six more.
append_format_overflow_example :
    10 < length (append_format (codes "abcdef") 10 (codes "ghijkl")) + 1
append_format_overflow_example =
    append_format_overflow (codes "abcdef") 10 (codes "ghijkl") (omega arith) (omega arith)
      (omega arith)
