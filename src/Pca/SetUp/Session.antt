-- ===== src/Pca/SetUp/Session.antt =====
-- A dispatcher from its creation on, while its threads run and consumers are added.
use csi_hal.Prelude.{
  ◌+◌, ◌<◌, ℤ, pos, Bool, true, false, ◌&&◌, Option, none, some, ◌≡◌, length, u32, if◌then◌else◌,
}
use mathlib.Core.Path.{subst}
use csi_hal.Pca.State.{Dispatcher}
use csi_hal.Pca.Threads.{
  Act, step, dispatcher_start, pca_dispatcher_create, pca_add_consumer_processor,
}
use csi_hal.Pca.SetUp.{Processor, create_guarded, add_guarded, remove_guarded}
use csi_hal.Pca.Steps.Invariant.{IsSound, create-IsSound}
use csi_hal.Pca.Steps.Sound.{step-IsSound}
use csi_hal.Pca.Steps.Setup.{add_consumer-IsSound, start-IsSound}

-- What happens to the dispatcher: a thread takes a step, the dispatcher's thread starts, or a client
-- adds a consumer or asks to remove one.
pub data Session (p : Dispatcher) : Dispatcher → Type 0 where
  created : Session p p
  stepped : {q r : Dispatcher} → Session p q → (a : Act) → step a q ≡ some r → Session p r
  started : {q : Dispatcher} → Session p q → Session p (dispatcher_start q)
  added :
      {q r : Dispatcher}
      → Session p q
      → (memory : Bool) (thread ret : ℤ) (processor : Option Processor)
      → length q.consumer_list + 2 < u32
      → add_guarded memory thread processor (some q) ≡ (ret, some r)
      → Session p r
  asked :
      {q r : Dispatcher}
      → Session p q
      → (ret : ℤ) → remove_guarded (some q) ≡ some (ret, r)
      → Session p r

abbrev SoundIn : ℤ × Option Dispatcher → Type 0
SoundIn (ret, none) = Unit
SoundIn (ret, some p) = IsSound p

add_guarded-SoundIn :
    (memory : Bool) (thread : ℤ) (processor : Option Processor) (q : Dispatcher)
    → length q.consumer_list + 2 < u32
    → IsSound q
    → SoundIn (add_guarded memory thread processor (some q))
unfolding add_guarded
add_guarded-SoundIn memory thread none q few v = v
add_guarded-SoundIn memory thread (some c) q few v =
    let (ret, q') = pca_add_consumer_processor thread c.data_type q in
    elim (c.has_process && memory)
      as (λ b. SoundIn (if b then (ret, some q') else (pos 1, some q))) [
        | true ↦ (add_consumer-IsSound thread c.data_type q v few).1
        | false ↦ v
      ]

Session-IsSound : {p q : Dispatcher} → IsSound p → Session p q → IsSound q
unfolding remove_guarded
Session-IsSound v created = v
Session-IsSound v (stepped {q} {r} s a e) = step-IsSound a q r (Session-IsSound v s) e
Session-IsSound v (started {q} s) = start-IsSound q (Session-IsSound v s)
Session-IsSound v (added {q} s memory thread ret processor few e) =
    subst SoundIn e (add_guarded-SoundIn memory thread processor q few (Session-IsSound v s))
Session-IsSound v (asked {q} {r} s ret e) = subst IsSound (cc) (Session-IsSound v s)

create_guarded-SoundIn :
    (dispatcher name memory : Bool) → SoundIn (create_guarded dispatcher name memory)
unfolding create_guarded
create_guarded-SoundIn dispatcher name memory =
    elim (dispatcher && name && memory)
      as (λ b. SoundIn (if b then (pos 0, some pca_dispatcher_create) else (pos 1, none))) [
        | true ↦ create-IsSound
        | false ↦ tt
      ]

-- A dispatcher that `pca_dispatcher_create` gave is sound through all of its life: whatever steps its
-- threads take, in whatever order, and whatever consumers are added meanwhile, with memory and threads
-- or without, as long as they are not too many to count.
pub create-Session :
    (dispatcher name memory : Bool) {ret : ℤ} {p q : Dispatcher}
    → create_guarded dispatcher name memory ≡ (ret, some p)
    → Session p q
    → IsSound q
create-Session dispatcher name memory e s =
    Session-IsSound (subst SoundIn e (create_guarded-SoundIn dispatcher name memory)) s
