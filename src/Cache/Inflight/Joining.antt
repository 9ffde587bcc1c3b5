-- ===== src/Cache/Inflight/Joining.antt =====
-- A request that joins a download misses no chunk and gets none twice.
use squiddish.Prelude.{
  append_assoc, append-nil, ◌+◌, ◌≤◌, ◌<◌, ◌≡◌, refl, sym, ap, ◌∙◌, Option, none, some, List, [],
  ◌∷◌, ◌++◌, map, length, arith, Bool-cases, inl, inr, length-append,
}
use squiddish.Text.{Bytes, bytes_eq}
use squiddish.Cache.Inflight.Broadcast.{
  data_chunk, ResponseMeta, MetaResult, meta_ok, meta_err, Channels,
}
use squiddish.Cache.Inflight.{
  DownloadState, InflightDownloads, joined, find, push, join_or_start_download, set_response_meta,
  set_response_error, add_chunk, join, join_or_start, meta_sent, chunk_added,
}

pub map-snoc :
    (xs : List Bytes) (x : Bytes)
    → map data_chunk (xs ++ x ∷ []) ≡ map data_chunk xs ++ data_chunk x ∷ []
map-snoc [] x = refl
map-snoc (y ∷ xs) x = ap (◌∷◌ (data_chunk y)) (map-snoc xs x)

pub length-map : (xs : List Bytes) → length (map data_chunk xs) ≡ length xs
length-map [] = refl
length-map (x ∷ xs) = omega (arith, length-map xs)

module _ (lib : Channels) (key : Bytes) where
  open lib use {World, Receiver, Live, pending, origin}

  pub find-push :
      (chunk : Bytes) (downloads : List (Bytes × DownloadState lib)) (state : DownloadState lib)
      → find lib key downloads ≡ some state
      → find lib key (push lib key chunk downloads)
        ≡ some (record state { accumulated = state.accumulated ++ chunk ∷ [] })
  unfolding find push
  find-push chunk [] state h = cc
  find-push chunk ((k, s) ∷ rest) state h = elim (Bool-cases (bytes_eq k key)) [
    | inl same ↦ let e : some s ≡ some state = rw same at h in rw (same, same) (ap (λ o. grown o) e)
    | inr other ↦ rw (other, other) (find-push chunk rest state (rw other at h))
  ]
    where
      grown : Option (DownloadState lib) → Option (DownloadState lib)
      grown none = none
      grown (some s) = some (record s { accumulated = s.accumulated ++ chunk ∷ [] })

  -- The operations on the key while its download is under way, with the chunks that they add.
  pub data Step : InflightDownloads lib → List Bytes → InflightDownloads lib → Type 0 where
    adds :
        {d : InflightDownloads lib} (chunk : Bytes)
        → Step d (chunk ∷ []) (add_chunk lib key chunk d)
    joins : {d : InflightDownloads lib} → Step d [] (join_or_start_download lib key d).1
    sets_meta :
        {d : InflightDownloads lib} (meta : ResponseMeta)
        → Step d [] (set_response_meta lib key meta d)
    sets_error :
        {d : InflightDownloads lib} (e : Bytes) → Step d [] (set_response_error lib key e d)

  pub data Steps : InflightDownloads lib → List Bytes → InflightDownloads lib → Type 0 where
    stop : {d : InflightDownloads lib} → Steps d [] d
    step :
        {d d₁ d₂ : InflightDownloads lib} {cs cs' : List Bytes}
        → Step d cs d₁
        → Steps d₁ cs' d₂
        → Steps d (cs ++ cs') d₂

  -- The receiver is subscribed to the download of the key; the chunks of the download are those that
  -- it was given at first and then those that are pending, in order.
  pub record Follows (r : Receiver) (initial received : List Bytes) (d : InflightDownloads lib)
      : Type 0 where
    pub state : DownloadState lib
    pub found : find lib key d.downloads ≡ some state
    pub same_sender : origin r ≡ state.sender
    pub live : Live r d.world
    pub chunks : state.accumulated ≡ initial ++ received
    pub waiting : pending r d.world ≡ map data_chunk received

  -- a change of the channels that leaves the receiver alone
  Follows-world :
      {r : Receiver} {initial received : List Bytes} {d : InflightDownloads lib} (w : World)
      → Live r w × (pending r w ≡ pending r d.world)
      → Follows r initial received d
      → Follows r initial received (record d { world = w })
  Follows-world w (l, p) f = record {
    state = f.state;
    found = f.found;
    same_sender = f.same_sender;
    live = l;
    chunks = f.chunks;
    waiting = p ∙ f.waiting;
  }

  module _ (r : Receiver) (initial received : List Bytes) (d : InflightDownloads lib)
      (f : Follows r initial received d) where
    meta-Follows :
        (v : MetaResult) → Follows r initial received (meta_sent lib v d (find lib key d.downloads))
    unfolding meta_sent
    meta-Follows v = rw f.found (
        Follows-world (lib.watch_send (some v) f.state.meta_tx d.world)
          (lib.Live-watch_send (some v) f.state.meta_tx d.world r f.live) f)

    join-Follows : Follows r initial received (join_or_start lib key d (find lib key d.downloads)).1
    unfolding join_or_start
    join-Follows =
        let (l, p) = lib.Live-subscribe f.state.sender d.world r f.live in
        let w₁ = (lib.subscribe f.state.sender d.world).1 in
        let (l', p') = lib.Live-watch_subscribe f.state.meta_tx w₁ r l in
        rw f.found (Follows-world (lib.watch_subscribe f.state.meta_tx w₁).1 (l', p' ∙ p) f)

    add-Follows :
        (chunk : Bytes)
        → length received < 1000
        → Follows r initial
            (received ++ chunk ∷ [])
            (chunk_added lib key chunk d (find lib key d.downloads))
    unfolding chunk_added
    add-Follows chunk room =
        let sent =
          lib.Live-send (data_chunk chunk) d.world r f.live
            (omega (arith, ap length f.waiting, length-map received)) in
        rw f.found (record {
          state = record (f.state) { accumulated = f.state.accumulated ++ chunk ∷ [] };
          found = find-push chunk d.downloads f.state f.found;
          same_sender = f.same_sender;
          live = rw (sym f.same_sender) sent.0;
          chunks =
              ap (λ xs. xs ++ chunk ∷ []) f.chunks ∙ append_assoc initial received (chunk ∷ []);
          waiting = rw (sym f.same_sender) (
              sent.1
              ∙ ap (λ xs. xs ++ data_chunk chunk ∷ []) f.waiting
              ∙ sym (map-snoc received chunk));
        })

  pub Step-Follows :
      (r : Receiver) (initial received : List Bytes) {d d' : InflightDownloads lib}
      {cs : List Bytes}
      → Step d cs d'
      → Follows r initial received d
      → length received + length cs ≤ 1000
      → Follows r initial (received ++ cs) d'
  unfolding add_chunk join_or_start_download set_response_meta set_response_error
  Step-Follows r initial received {d} (adds chunk) f room =
      add-Follows r initial received d f chunk (omega arith)
  Step-Follows r initial received {d} joins f room =
      rw (append-nil received) (join-Follows r initial received d f)
  Step-Follows r initial received {d} (sets_meta meta) f room =
      rw (append-nil received) (meta-Follows r initial received d f (meta_ok meta))
  Step-Follows r initial received {d} (sets_error e) f room =
      rw (append-nil received) (meta-Follows r initial received d f (meta_err e))

  pub Steps-Follows :
      (r : Receiver) (initial received : List Bytes) {d d' : InflightDownloads lib}
      {cs : List Bytes}
      → Steps d cs d'
      → Follows r initial received d
      → length received + length cs ≤ 1000
      → Follows r initial (received ++ cs) d'
  Steps-Follows r initial received stop f room = rw (append-nil received) f
  Steps-Follows r initial received (step {cs = cs} {cs' = cs'} s rest) f room =
      rw (sym (append_assoc received cs cs')) (
        Steps-Follows r initial (received ++ cs) rest
          (Step-Follows r initial received s f (omega (arith, length-append cs cs')))
          (omega (arith, length-append cs cs', length-append received cs)))

  -- What a request that joins a download at the state `d` has at the later state `d'`, behind the
  -- chunks `cs`: a receiver, and the chunks that were accumulated when it joined.
  pub record Joins (d d' : InflightDownloads lib) (state : DownloadState lib) (cs : List Bytes)
      : Type 0 where
    pub receiver : Receiver
    pub meta_rx : lib.WatchReceiver
    pub mine : origin receiver ≡ state.sender
    pub run : (join_or_start_download lib key d).0 ≡ joined receiver state.accumulated meta_rx
    pub follows : Follows receiver state.accumulated cs d'

  -- A request whose key has a download under way joins it. Behind any further joins, headers, errors
  -- and at most 1000 chunks of that download, the chunks of the download are those that the request
  -- was given when it joined, followed by those that its receiver has pending.
  pub join_or_start_download-Joins :
      (d d' : InflightDownloads lib) (state : DownloadState lib) (cs : List Bytes)
      → find lib key d.downloads ≡ some state
      → Steps (join_or_start_download lib key d).1 cs d'
      → length cs ≤ 1000
      → Joins d d' state cs
  unfolding join_or_start_download join_or_start join
  join_or_start_download-Joins d d' state cs found steps room = record {
    receiver = r;
    meta_rx = (lib.watch_subscribe state.meta_tx w₁).0;
    mine = lib.origin-subscribe state.sender d.world;
    run = rw found;
    follows = Steps-Follows r state.accumulated [] steps at_once (omega arith);
  }
    where
      r : Receiver
      r = (lib.subscribe state.sender d.world).0

      w₁ : World
      w₁ = (lib.subscribe state.sender d.world).1

      at_once : Follows r state.accumulated [] (join_or_start_download lib key d).1
      at_once =
          let (l, p) = lib.Live-subscribe_self state.sender d.world in
          let (l', p') = lib.Live-watch_subscribe state.meta_tx w₁ r l in
          rw found (record {
            state = state;
            found = found;
            same_sender = lib.origin-subscribe state.sender d.world;
            live = l';
            chunks = sym (append-nil state.accumulated);
            waiting = p' ∙ p;
          })
