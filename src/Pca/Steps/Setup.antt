-- ===== src/Pca/Steps/Setup.antt =====
-- The calls of producer_consumer_async.c that set a system up keep its counts and flags.
use csi_hal.Prelude.{
  ℕ, ◌+◌, ◌<◌, ℤ, ◌≡◌, refl, ap, sym, ◌∙◌, List, [], ◌∷◌, ◌++◌, arith, length, u32,
}
use csi_hal.Pca.State.{Consumer, Dispatcher}
use csi_hal.Pca.Threads.{pca_init_thread_info, pca_add_consumer_processor, dispatcher_start}
use csi_hal.Pca.RefCount.{held, holders}
use csi_hal.Pca.Steps.Consumers.{AllReady}
use csi_hal.Pca.Steps.Invariant.{IsSound}

new_consumer : ℤ → Consumer
new_consumer t = record { thread_info = pca_init_thread_info; data_type = t }

holders-append :
    (q : ℕ) (cs : List Consumer) (t : ℤ) → holders q (cs ++ (new_consumer t ∷ [])) ≡ holders q cs
unfolding holders new_consumer
holders-append q [] t = refl
holders-append q (c ∷ cs) t = ap (λ n. held q c + n) (holders-append q cs t)

length-append : (cs : List Consumer) (t : ℤ) → length (cs ++ (new_consumer t ∷ [])) ≡ length cs + 1
length-append [] t = refl
length-append (c ∷ cs) t = omega (arith, length-append cs t)

append-AllReady :
    (cs : List Consumer) (t : ℤ) → AllReady cs → AllReady (cs ++ (new_consumer t ∷ []))
unfolding new_consumer
append-AllReady [] t v = ground arith
append-AllReady (c ∷ cs) t v = (v.0, append-AllReady cs t v.1)

-- A consumer that is added to a sound system starts idle, whether its thread starts or not: the
-- system stays sound while its consumers are not too many to count, and the result is that of
-- `pthread_create`.
pub add_consumer-IsSound :
    (created data_type : ℤ) (p : Dispatcher)
    → IsSound p
    → length p.consumer_list + 2 < u32
    → let (ret, p') = pca_add_consumer_processor created data_type p in (ret ≡ created) × IsSound p'
unfolding pca_add_consumer_processor new_consumer
add_consumer-IsSound created t p v few = (
  refl,
  record {
    counted = record {
      good = v.counted.good;
      few = omega (arith, length-append p.consumer_list t, few);
      counts = λ q. v.counted.counts q ∙ sym (holders-append q p.consumer_list t);
    };
    ready = append-AllReady p.consumer_list t v.ready;
    dispatcher = v.dispatcher;
  },
)

pub start-IsSound : (p : Dispatcher) → IsSound p → IsSound (dispatcher_start p)
unfolding dispatcher_start
start-IsSound p v = record {
  counted = record { good = v.counted.good; few = v.counted.few; counts = v.counted.counts };
  ready = v.ready;
  dispatcher = v.dispatcher;
}
