-- ===== src/Proxy/Responses/Streamed.antt =====
-- src/proxy/handler.rs: the response whose body is fed by a download.
use squiddish.Prelude.{
  ℕ, ◌≡◌, refl, true, ◌&&◌, Option, none, some, List, [], ◌∷◌, ◌++◌, leb, if◌then◌else◌, Bool-cases,
  inl, inr,
}
use squiddish.Text.{Bytes, codes}
use squiddish.Error.{Result, ok, err, http}
use squiddish.Cache.Inflight.Broadcast.{ResponseMeta}
use squiddish.Proxy.Shared.{Crates}
use squiddish.Proxy.Policy.{pseudonym}
use squiddish.Proxy.Streaming.{StreamingBody, new}
use squiddish.Proxy.Responses.{status_or_ok, header, add_headers}
use squiddish.Proxy.Responses.Cached.{all_valid, add_headers-some, status_lem}

module _ (c : Crates) where
  pub record StreamingResponse : Type 0 where
    pub status : ℕ
    pub headers : List (Bytes × Bytes)
    pub body : StreamingBody c.channels.Receiver c.poll_next

  -- what `builder.body` gives
  with_body :
      ℕ
      → StreamingBody c.channels.Receiver c.poll_next
      → Option (List (Bytes × Bytes))
      → Result StreamingResponse
  with_body status body none = err (http c.refusal)
  with_body status body (some hs) = ok (record { status = status; headers = hs; body = body })

  pub build_streaming_response :
      ResponseMeta → c.channels.Receiver → List Bytes → Result StreamingResponse
  unfolding with_body status_or_ok add_headers header
  build_streaming_response meta receiver initial_chunks =
      with_body (status_or_ok c.http c.valid (c.http.from_u16 meta.status))
        (new c.channels.Receiver c.poll_next receiver initial_chunks)
        (header c.http c.valid (codes "via") pseudonym
          (add_headers c.http c.valid meta.headers (some [])))

  -- If the builder takes the proxy's own header, then the response for a download has the headers of
  -- upstream with that one behind them, the status of upstream, or 200 where that is no status, and a
  -- body that begins with the given chunks and goes on with the receiver. If it refuses a header of
  -- upstream, there is an error.
  pub build_streaming_response_lem :
      c.valid (codes "via") pseudonym ≡ true
      → (meta : ResponseMeta) (receiver : c.channels.Receiver) (initial_chunks : List Bytes)
      → build_streaming_response meta receiver initial_chunks ≡ (
          if all_valid c.http c.valid meta.headers
          then ok (record {
            status = if leb 100 meta.status && leb meta.status 999 then meta.status else 200;
            headers = meta.headers ++ (codes "via", pseudonym) ∷ [];
            body = new c.channels.Receiver c.poll_next receiver initial_chunks;
          })
          else err (http c.refusal))
  unfolding build_streaming_response
  build_streaming_response_lem via meta receiver initial_chunks =
      elim (Bool-cases (all_valid c.http c.valid meta.headers)) [
        | inl good ↦
            rw
              (
                add_headers-some c.http c.valid meta.headers [],
                good,
                via,
                c.http.from_u16_lem meta.status,
                status_lem c.http c.valid (leb 100 meta.status && leb meta.status 999) meta.status,
              )
              refl
        | inr bad ↦ rw (add_headers-some c.http c.valid meta.headers [], bad) refl
      ]
