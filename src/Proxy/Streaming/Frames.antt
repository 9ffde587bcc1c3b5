-- ===== src/Proxy/Streaming/Frames.antt =====
-- The frames of a streaming body: the chunks it was given first, then the stream, then the end.
use squiddish.Prelude.{
  append-nil, ℕ, zero, suc, ◌+◌, ◌≡◌, refl, ap, Bool, true, false, none, some, List, [], ◌∷◌, ◌++◌,
  get_elem?, length, arith, map, length-append,
}
use squiddish.Text.{Bytes, codes}
use squiddish.Text.Decimal.{print_uint}
use squiddish.Cache.Inflight.Broadcast.{data_chunk, complete, error}
use squiddish.Proxy.Streaming.{
  Polled, received, lagged, closed, waiting, Frame, frame, fault, finish, not_ready, StreamingBody,
  new, poll_frame, initial_or, polled,
}

get_elem?-append :
    (xs : List Bytes) (y : Bytes) (ys : List Bytes) → get_elem? (xs ++ y ∷ ys) (length xs) ≡ some y
get_elem?-append [] y ys = refl
get_elem?-append (x ∷ xs) y ys = get_elem?-append xs y ys

get_elem?-length : (xs : List Bytes) → get_elem? xs (length xs) ≡ none
get_elem?-length [] = refl
get_elem?-length (x ∷ xs) = get_elem?-length xs

append-cons : (xs : List Bytes) (y : Bytes) (ys : List Bytes) → (xs ++ y ∷ []) ++ ys ≡ xs ++ y ∷ ys
append-cons [] y ys = refl
append-cons (x ∷ xs) y ys = ap (◌∷◌ x) (append-cons xs y ys)

module _ (Stream : Type 0) (poll_next : Stream → Polled × Stream) where
  abbrev Body : Type 0
  Body = StreamingBody Stream poll_next

  -- the frames of a number of polls, and the body behind them
  abbrev pub frames : ℕ → Body → List Frame × Body
  frames zero body = ([], body)
  frames (suc n) body =
      let (f, body₁) = poll_frame Stream poll_next body in
      let (fs, body₂) = frames n body₁ in (f ∷ fs, body₂)

  -- the frame of a result of the stream, and whether that result ends the body
  abbrev pub shown : Polled → Frame
  shown (received (data_chunk b)) = frame b
  shown (received complete) = finish
  shown (received (error e)) = fault e
  shown (lagged k) = fault (codes "Stream lagged by " ++ print_uint k ++ codes " messages")
  shown closed = finish
  shown waiting = not_ready

  abbrev pub ends : Polled → Bool
  ends (received (data_chunk b)) = false
  ends (received complete) = true
  ends (received (error e)) = true
  ends (lagged k) = true
  ends closed = true
  ends waiting = false

  -- the frames of a number of polls of the stream alone, which is left alone behind its end
  abbrev pub of_stream : ℕ → Bool → Stream → List Frame
  of_stream zero over s = []
  of_stream (suc n) true s = finish ∷ of_stream n true s
  of_stream (suc n) false s =
      shown (poll_next s).0 ∷ of_stream n (ends (poll_next s).0) (poll_next s).1

  polled_lem :
      (body : Body) (p : Polled) (s : Stream)
      → body.finished ≡ false
      → polled Stream poll_next body (p, s)
        ≡ (shown p, record body { stream = s; finished = ends p })
  unfolding polled
  polled_lem body (received (data_chunk b)) s h = rw h refl
  polled_lem body (received complete) s h = refl
  polled_lem body (received (error e)) s h = refl
  polled_lem body (lagged n) s h = refl
  polled_lem body closed s h = refl
  polled_lem body waiting s h = rw h refl

  abbrev body_of : Stream → List Bytes → ℕ → Bool → Body
  body_of s chunks i over = record {
    stream = s;
    initial_chunks = chunks;
    initial_index = i;
    finished = over;
  }

  module _ (chunks : List Bytes) (i : ℕ) (served : get_elem? chunks i ≡ none) where
    frames-of_stream :
        (n : ℕ) (over : Bool) (s : Stream)
        → (frames n (body_of s chunks i over)).0 ≡ of_stream n over s
    unfolding poll_frame initial_or
    frames-of_stream zero over s = refl
    frames-of_stream (suc n) true s = ap (◌∷◌ finish) (frames-of_stream n true s)
    frames-of_stream (suc n) false s =
        rw (served, polled_lem (body_of s chunks i false) (poll_next s).0 (poll_next s).1 refl)
          (ap (◌∷◌ (shown (poll_next s).0))
            (frames-of_stream n (ends (poll_next s).0) (poll_next s).1))

  frames-append :
      (before rest : List Bytes) (n : ℕ) (s : Stream)
      → (frames (length rest + n) (body_of s (before ++ rest) (length before) false)).0
        ≡ map frame rest ++ of_stream n false s
  unfolding poll_frame initial_or
  frames-append before [] n s =
      let zero_add : 0 + n ≡ n = omega arith in
      rw (zero_add, append-nil before)
        (frames-of_stream before (length before) (get_elem?-length before) n false s)
  frames-append before (c ∷ rest) n s =
      let suc_add : suc (length rest) + n ≡ suc (length rest + n) = omega arith in
      let later = frames-append (before ++ c ∷ []) rest n s in
      rw (suc_add, get_elem?-append before c rest)
        (ap (◌∷◌ (frame c))
          (rw (length-append before (c ∷ []), append-cons before c rest) at later))

  -- The first polls of a new body return the chunks that it was given, in order; the polls behind
  -- them return what the stream has, and nothing more once the stream is complete, closed, lagged or
  -- faulty.
  pub frames-new :
      (s : Stream) (chunks : List Bytes) (n : ℕ)
      → (frames (length chunks + n) (new Stream poll_next s chunks)).0
        ≡ map frame chunks ++ of_stream n false s
  unfolding new
  frames-new s chunks n = frames-append [] chunks n s
