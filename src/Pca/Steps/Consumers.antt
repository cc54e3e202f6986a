-- ===== src/Pca/Steps/Consumers.antt =====
-- A consumer thread of producer_consumer_async.c against its flags, and a pass over the consumers.
use csi_hal.Prelude.{
  ℕ, zero, suc, ◌+◌, ◌<◌, ◌≡◌, ap, true, false, some, List, [], ◌∷◌, arith, get_elem?, set,
}
use mathlib.Core.Path.{subst}
use mathlib.Core.Option.{some-injective}
use csi_hal.Pca.State.{DataInfo, waiting, holding, Consumer}
use csi_hal.Pca.Feed.{Loop, feed_consumer, feed_loop, wake_consumer, wake_loop}
use csi_hal.Pca.Threads.{is_phase, consumer_wake, consumer_lock}
use csi_hal.Pca.RefCount.{held, holders}

-- A thread behind its check has a new datum; `mutex_data` is held exactly while it handles it; and
-- a thread that waits has been woken if there is a new datum.
pub record IsReady (c : Consumer) : Type 0 where
  pub has_datum : is_phase c.thread_info.phase waiting ≡ false → c.thread_info.has_new_data ≡ true
  pub locked : c.thread_info.mutex_data ≡ is_phase c.thread_info.phase holding
  pub unmarked : c.thread_info.need_unlock_data_mutex ≡ false
  pub woken_up :
      is_phase c.thread_info.phase waiting ≡ true
      → c.thread_info.has_new_data ≡ true
      → 0 < c.thread_info.sem_wakeup

abbrev pub AllReady : List Consumer → Type 0
AllReady [] = Unit {0}
AllReady (c ∷ cs) = IsReady c × AllReady cs

feed_wake-IsReady :
    (d : DataInfo) (c : Consumer) (l : Loop)
    → IsReady c
    → IsReady (wake_consumer (feed_consumer d c l).0)
unfolding feed_consumer wake_consumer
feed_wake-IsReady d c l v = ground arith

pub feed_wake-AllReady :
    (d : DataInfo) (cs : List Consumer) (l : Loop)
    → AllReady cs
    → AllReady (wake_loop (feed_loop d cs l).0)
unfolding feed_loop wake_loop
feed_wake-AllReady d [] l v = tt
feed_wake-AllReady d (c ∷ cs) l v =
    (feed_wake-IsReady d c l v.0, feed_wake-AllReady d cs (feed_consumer d c l).1 v.1)

pub set-AllReady :
    (cs : List Consumer) (i : ℕ) (c : Consumer) → AllReady cs → IsReady c → AllReady (set cs i c)
set-AllReady [] i c v r = tt
set-AllReady (b ∷ cs) zero c v r = (r, v.1)
set-AllReady (b ∷ cs) (suc i) c v r = (v.0, set-AllReady cs i c v.1 r)

pub get_elem?-IsReady :
    (cs : List Consumer) (i : ℕ) (c : Consumer) → AllReady cs → get_elem? cs i ≡ some c → IsReady c
get_elem?-IsReady [] i c v e = cc
get_elem?-IsReady (b ∷ cs) zero c v e = subst IsReady (some-injective _ _ e) v.0
get_elem?-IsReady (b ∷ cs) (suc i) c v e = get_elem?-IsReady cs i c v.1 e

pub wake-IsReady : (c c' : Consumer) → IsReady c → consumer_wake c ≡ some c' → IsReady c'
unfolding consumer_wake
wake-IsReady c c' v e = ground arith

pub lock-IsReady : (c c' : Consumer) → IsReady c → consumer_lock c ≡ some c' → IsReady c'
unfolding consumer_lock
lock-IsReady c c' v e = ground arith

-- The holdings of a list of which one place changes.
pub holders-set :
    (q : ℕ) (cs : List Consumer) (i : ℕ) (c c' : Consumer)
    → get_elem? cs i ≡ some c
    → holders q (set cs i c') + held q c ≡ holders q cs + held q c'
unfolding holders
holders-set q [] i c c' e = cc
holders-set q (b ∷ cs) zero c c' e =
    let same : held q b ≡ held q c = ap (held q) (some-injective _ _ e) in omega (arith, same)
holders-set q (b ∷ cs) (suc i) c c' e = omega (arith, holders-set q cs i c c' e)
