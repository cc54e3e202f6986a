-- ===== src/Pca/Steps/Invariant.antt =====
-- The invariant of producer_consumer_async.c: what a sound system is, and steps that keep its parts.
use csi_hal.Prelude.{◌≡◌, refl, ap, sym, ◌∙◌, true, false, ◌&&◌, arith, if◌then◌else◌, length}
use mathlib.Core.Path.{subst}
use csi_hal.Pca.State.{waiting, holding, ThreadInfo, Dispatcher}
use csi_hal.Pca.Threads.{pca_dispatcher_create, is_phase}
use csi_hal.Pca.RefCount.{refs, holders, Good, IsCounted}
use csi_hal.Pca.Steps.Consumers.{AllReady}

-- The dispatcher's semaphore is up exactly while it waits and there is a datum that it has not seen;
-- behind the wait it has one, and it holds `mutex_data` exactly while it feeds the consumers.
abbrev pub DispatcherReady : ThreadInfo → Type 0
DispatcherReady t =
    (t.sem_wakeup ≡ (if is_phase t.phase waiting && t.has_new_data then 1 else 0))
    × (is_phase t.phase waiting ≡ false → t.has_new_data ≡ true)
    × (t.mutex_data ≡ is_phase t.phase holding)

pub record IsSound (p : Dispatcher) : Type 0 where
  pub counted : IsCounted p
  pub ready : AllReady p.consumer_list
  pub dispatcher : DispatcherReady p.thread_info

pub create-IsSound : IsSound pca_dispatcher_create
unfolding refs Good holders
create-IsSound = record {
  counted = record { good = tt; few = omega arith; counts = λ q. refl };
  ready = tt;
  dispatcher = (refl, λ h. cc, refl);
}

pub keep-IsCounted :
    (p p' : Dispatcher)
    → IsCounted p
    → p'.data_free_list ≡ p.data_free_list
    → p'.consumer_list ≡ p.consumer_list
    → IsCounted p'
keep-IsCounted p p' v f c = record {
  good = subst Good (sym f) v.good;
  few = omega (arith, ap length c, v.few);
  counts = λ q. ap (refs q) f ∙ v.counts q ∙ ap (holders q) (sym c);
}

-- A step that changes neither the consumers nor the free list keeps their part of the invariant.
pub keep-IsSound :
    (p p' : Dispatcher)
    → IsSound p
    → p'.data_free_list ≡ p.data_free_list
    → p'.consumer_list ≡ p.consumer_list
    → DispatcherReady p'.thread_info
    → IsSound p'
keep-IsSound p p' v f c d = record {
  counted = keep-IsCounted p p' v.counted f c;
  ready = subst AllReady (sym c) v.ready;
  dispatcher = d;
}
