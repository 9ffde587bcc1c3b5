-- ===== src/Samples/Channels.antt =====
-- One broadcast channel as the list of what was sent, where a receiver is the length at its
-- subscription, and one watch channel as its value.
use squiddish.Prelude.{
  ℕ, zero, suc, ◌≤◌, ◌≡◌, refl, Option, none, List, [], ◌∷◌, ◌++◌, length, drop, arith,
}
use squiddish.Cache.Inflight.Broadcast.{DownloadChunk, MetaResult, Channels}

pub drop-length : (w : List DownloadChunk) → drop (length w) w ≡ []
drop-length [] = refl
drop-length (m ∷ w) = drop-length w

pub drop-append_le :
    (r : ℕ) (w : List DownloadChunk) (m : DownloadChunk)
    → r ≤ length w
    → (r ≤ length (w ++ m ∷ [])) × (drop r (w ++ m ∷ []) ≡ drop r w ++ m ∷ [])
drop-append_le zero w m h = (omega arith, refl)
drop-append_le (suc r) [] m h = absurd (omega arith)
drop-append_le (suc r) (x ∷ w) m h =
    let (a, b) = drop-append_le r w m (omega arith) in (omega (arith, a), b)

abbrev pub Log : Type 0
Log = List DownloadChunk × Option MetaResult

abbrev pub channels_lib : Channels
channels_lib = record {
  World = Log;
  Sender = Unit;
  Receiver = ℕ;
  WatchSender = Unit;
  WatchReceiver = Unit;
  channel = λ w. (tt, w);
  subscribe = λ s w. (length w.0, w);
  send = λ m s w. (w.0 ++ m ∷ [], w.1);
  watch_channel = λ w. (tt, tt, (w.0, none));
  watch_subscribe = λ t w. (tt, w);
  watch_send = λ v t w. (w.0, v);
  Live = λ r w. r ≤ length w.0;
  pending = λ r w. drop r w.0;
  origin = λ r. tt;
  origin-subscribe = λ s w. refl;
  Live-subscribe_self = λ s w. (omega arith, drop-length w.0);
  Live-subscribe = λ s w r l. (l, refl);
  Live-send = λ m w r l room. drop-append_le r w.0 m l;
  Live-watch_subscribe = λ t w r l. (l, refl);
  watch_origin = λ r. tt;
  value = λ r w. w.1;
  watch_origin-watch_channel = λ w. refl;
  value-watch_channel = λ w. refl;
  watch_origin-watch_subscribe = λ t w. refl;
  value-subscribe = λ s w r. refl;
  value-send = λ m s w r. refl;
  value-watch_subscribe = λ t w r. refl;
  value-watch_subscribe_self = λ t w r e. refl;
  value-watch_send = λ v w r. refl;
  Live-watch_send = λ v t w r l. (l, refl);
}
