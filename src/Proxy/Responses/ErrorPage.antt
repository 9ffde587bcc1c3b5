-- ===== src/Proxy/Responses/ErrorPage.antt =====
-- `build_error_page` of src/proxy/handler.rs. The lines of the page that do not change are given by
-- their text; the picture in the heading is the four bytes of its UTF-8.
pub mod Safe
use squiddish.Prelude.{ℕ, Bool, Option, none, some, List, [], ◌∷◌, ◌++◌, length}
use squiddish.Text.{Bytes, codes}
use squiddish.Text.Decimal.{print_uint}
use squiddish.Error.{ProxyError, to_string, Result, ok, panicked}
use squiddish.Proxy.Http.{Http}
use squiddish.Proxy.Handler.{html_escape, error_status}
use squiddish.Proxy.Responses.{Response, header}

-- the lines, each with its end
abbrev lines : List Bytes → Bytes
lines [] = []
lines (l ∷ ls) = l ++ b'\n' ∷ lines ls

abbrev picture : Bytes
picture = 240 ∷ 159 ∷ 166 ∷ 145 ∷ []

abbrev pub before_error : Bytes
before_error =
    lines (
      codes "<!DOCTYPE html>"
      ∷ codes "<html>"
      ∷ codes "<head>"
      ∷ codes "    <meta charset=\"utf-8\">"
      ∷ codes "    <title>Squiddish Proxy Error</title>"
      ∷ codes "    <style>"
      ∷ codes "        body {"
      ∷ codes
          "            font-family: -apple-system, BlinkMacSystemFont, \"Segoe UI\", Roboto, sans-serif;"
      ∷ codes "            max-width: 800px;"
      ∷ codes "            margin: 50px auto;"
      ∷ codes "            padding: 20px;"
      ∷ codes "            background: #f5f5f5;"
      ∷ codes "        }"
      ∷ codes "        .error-container {"
      ∷ codes "            background: white;"
      ∷ codes "            border-radius: 8px;"
      ∷ codes "            padding: 30px;"
      ∷ codes "            box-shadow: 0 2px 10px rgba(0,0,0,0.1);"
      ∷ codes "        }"
      ∷ codes "        h1 {"
      ∷ codes "            color: #d32f2f;"
      ∷ codes "            margin-top: 0;"
      ∷ codes "        }"
      ∷ codes "        .error-code {"
      ∷ codes "            font-family: monospace;"
      ∷ codes "            background: #f5f5f5;"
      ∷ codes "            padding: 15px;"
      ∷ codes "            border-radius: 4px;"
      ∷ codes "            margin: 20px 0;"
      ∷ codes "            word-wrap: break-word;"
      ∷ codes "        }"
      ∷ codes "        .info {"
      ∷ codes "            color: #666;"
      ∷ codes "            margin-top: 20px;"
      ∷ codes "            padding-top: 20px;"
      ∷ codes "            border-top: 1px solid #eee;"
      ∷ codes "        }"
      ∷ codes "        .timestamp {"
      ∷ codes "            color: #999;"
      ∷ codes "            font-size: 0.9em;"
      ∷ codes "        }"
      ∷ codes "    </style>"
      ∷ codes "</head>"
      ∷ codes "<body>"
      ∷ codes "    <div class=\"error-container\">"
      ∷ (codes "        <h1>" ++ picture ++ codes " Squiddish Proxy Error</h1>")
      ∷ codes "        <p>The proxy encountered an error while processing your request.</p>"
      ∷ codes ""
      ∷ codes "        <div class=\"error-code\">"
      ∷ [])
    ++ codes "            <strong>Error:</strong> "

abbrev pub before_time : Bytes
before_time =
    lines (
      codes ""
      ∷ codes "        </div>"
      ∷ codes ""
      ∷ codes "        <div class=\"info\">"
      ∷ codes "            <p><strong>What happened?</strong></p>"
      ∷ codes
          "            <p>The proxy was unable to complete your request. This could be due to:</p>"
      ∷ codes "            <ul>"
      ∷ codes "                <li>The remote server being unreachable</li>"
      ∷ codes "                <li>Network connectivity issues</li>"
      ∷ codes "                <li>Invalid request format</li>"
      ∷ codes "                <li>Cache system errors</li>"
      ∷ codes "            </ul>"
      ∷ codes ""
      ∷ [])
    ++ codes "            <p class=\"timestamp\">Time: "

abbrev pub behind_time : Bytes
behind_time =
    lines (codes "</p>" ∷ codes "        </div>" ∷ codes "    </div>" ∷ codes "</body>" ∷ [])
    ++ codes "</html>"

-- the text of the page: the error, and the time as `fmt_http_date` prints it
pub error_html : ProxyError → Bytes → Bytes
error_html error time =
    before_error ++ html_escape (to_string error) ++ before_time ++ time ++ behind_time

module _ (lib : Http) (valid : Bytes → Bytes → Bool) where
  -- `unwrap` of what the builder gives
  unwrapped : ℕ → Bytes → Option (List (Bytes × Bytes)) → Result Response
  unwrapped status body none = panicked
  unwrapped status body (some hs) = ok (record { status = status; headers = hs; body = body })

  pub build_error_page : Bytes → ProxyError → Result Response
  unfolding unwrapped error_html header
  build_error_page time error =
      let body = error_html error time in
      unwrapped (error_status error) body (
        header lib valid (codes "content-length") (print_uint (length body))
          (header lib valid (codes "content-type") (codes "text/html; charset=utf-8") (some [])))
