-- ===== src/Metrics.antt =====
-- `src/metrics.rs`: the endpoint that reports the statistics. A text is a list of `char`s, and goes
-- out as UTF-8.
pub mod Escape
pub mod Head
pub mod Health
pub mod Json
pub mod Prometheus
pub mod Serve
pub mod Webhook
use rfw.Base.{[], if◌then◌else◌, ltb, zero, ℕ, ◌++◌, ◌+◌, ◌∷◌}
use rfw.Text.{Text, codes}
use rfw.Text.Decimal.{show}

abbrev pub crlf : Text
crlf = 13 ∷ 10 ∷ []

-- `len_utf8`.
abbrev len_utf8 : ℕ → ℕ
len_utf8 c = if ltb c 0x80 then 1 else if ltb c 0x800 then 2 else if ltb c 0x10000 then 3 else 4

-- `len` of a string, in bytes.
unfoldable pub byte_len : Text → ℕ
byte_len [] = 0
byte_len (c ∷ s) = len_utf8 c + byte_len s

unfoldable pub http_response : Text → Text → Text → Text
http_response status content_type body =
    codes "HTTP/1.1 "
    ++ (status
        ++ (crlf
            ++ (codes "Content-Type: "
                ++ (content_type
                    ++ (crlf
                        ++ (codes "Content-Length: "
                            ++ (show (byte_len body)
                                ++ (crlf
                                    ++ (codes "Connection: close"
                                        ++ (crlf ++ (crlf ++ body)))))))))))
