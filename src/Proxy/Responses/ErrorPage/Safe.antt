-- ===== src/Proxy/Responses/ErrorPage/Safe.antt =====
-- The page for an error: its status, its headers, and that the message in it is mere text.
use squiddish.Prelude.{ℕ, ◌≡◌, ◌≢◌, refl, Bool, true, [], ◌∷◌, ◌++◌, length, All, arith}
use squiddish.Text.{Bytes, codes}
use squiddish.Text.Decimal.{print_uint}
use squiddish.Error.{ProxyError, to_string, ok}
use squiddish.Proxy.Http.{Http}
use squiddish.Proxy.Handler.{html_escape, error_status}
use squiddish.Proxy.Handler.Escape.{escaped, escape_each, html_escape-escape_each}
use squiddish.Proxy.Responses.{Response, header}
use squiddish.Proxy.Responses.ErrorPage.{
  before_error, before_time, behind_time, error_html, build_error_page,
}

-- a byte that begins or ends neither a tag nor the value of an attribute
abbrev pub IsInert : ℕ → Type 0
IsInert c = (c ≢ b'<') × (c ≢ b'>') × (c ≢ b'"') × (c ≢ b'\'')

All-append : (s t : Bytes) → All IsInert s → All IsInert t → All IsInert (s ++ t)
All-append [] t a b = b
All-append (c ∷ s) t (h, a) b = (h, All-append s t a b)

escaped-IsInert : (c : ℕ) → All IsInert (escaped c)
escaped-IsInert c = ground arith

escape_each-IsInert : (s : Bytes) → All IsInert (escape_each s)
escape_each-IsInert [] = tt
escape_each-IsInert (c ∷ s) =
    All-append (escaped c) (escape_each s) (escaped-IsInert c) (escape_each-IsInert s)

-- What the page for an error is: the message stands in it with no byte that could begin or end a tag.
pub record Page (time : Bytes) (error : ProxyError) (response : Response) : Type 0 where
  pub message : Bytes
  pub inert : All IsInert message
  pub of_error : message ≡ escape_each (to_string error)
  pub body_lem : response.body ≡ before_error ++ message ++ before_time ++ time ++ behind_time
  pub status_lem : response.status ≡ error_status error
  pub headers_lem :
      response.headers
      ≡ (codes "content-type", codes "text/html; charset=utf-8")
        ∷ (codes "content-length", print_uint (length response.body))
        ∷ []

module _ (lib : Http) (valid : Bytes → Bytes → Bool)
    (html : valid (codes "content-type") (codes "text/html; charset=utf-8") ≡ true)
    (numbers : (n : ℕ) → valid (codes "content-length") (print_uint n) ≡ true) where
  page : Bytes → ProxyError → Response
  page time error = record {
    status = error_status error;
    headers =
        (codes "content-type", codes "text/html; charset=utf-8")
        ∷ (codes "content-length", print_uint (length (error_html error time)))
        ∷ [];
    body = error_html error time;
  }

  -- If the builder takes the two headers of the page, then there is a page for every error. Its
  -- status is that of the error, its length is stated, and the message of the error stands in it with
  -- each byte escaped on its own, so that no byte of it begins or ends a tag or an attribute.
  pub build_error_page-Page :
      (time : Bytes) (error : ProxyError)
      → (response : Response) × (build_error_page lib valid time error ≡ ok response)
        × Page time error response
  unfolding build_error_page header error_html page
  build_error_page-Page time error = (
    page time error,
    rw (html, numbers (length (error_html error time))) refl,
    record {
      message = html_escape (to_string error);
      inert =
          rw (html_escape-escape_each (to_string error)) (escape_each-IsInert (to_string error));
      of_error = html_escape-escape_each (to_string error);
      body_lem = refl;
      status_lem = refl;
      headers_lem = refl;
    },
  )
