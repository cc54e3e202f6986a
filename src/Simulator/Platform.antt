-- ===== src/Simulator/Platform.antt =====
-- The simulated platform as an implementation of the HAL (src/platform/simulator/csi_camera.c). The
-- buffers of the channels and all other blocks stand in heaps of their own.
pub mod Session
mod Tests
use csi_hal.Prelude.{
  ℕ, suc, ◌+◌, ℤ, pos, minus_one, to_u32, Option, none, some, List, ◌>>=◌, if◌then◌else◌, ◌==◌,
}
use csi_hal.Hal.{Hal, Infos, Modes, ModeCfg, ChannelCfg, Subscription}
use csi_hal.Llist.{Memory}
use csi_hal.Pca.Stop.{created_nodes}
use csi_hal.PlatformSpec.{camera_spec_get_enum_array}
use csi_hal.Simulator.Types.{Description, Property}
use csi_hal.Simulator.Properties.{csi_camera_query_property, set_properties}
use csi_hal.Simulator.Subscriptions.{csi_camera_subscribe_event, csi_camera_unsubscribe_event}
use csi_hal.Simulator.Channels.{Camera, Calls}
use csi_hal.Simulator.Channels.Operations.{
  csi_camera_channel_open, csi_camera_channel_close, csi_camera_channel_query,
  csi_camera_channel_start, csi_camera_channel_stop,
}
use csi_hal.Simulator.Device.{
  Device, Given, Handle, csi_camera_query_list, csi_camera_get_modes, csi_camera_open,
  csi_camera_close, csi_camera_set_mode,
}

-- What is outside the platform: OpenCV's glue, the threads, and `malloc`, which may
-- give other blocks at each call.
pub record Outside : Type 0 where
  pub camera_open_opencv : ℤ → ℤ
  pub camera_set_mode_opencv : ModeCfg → ℤ
  pub camera_property_set_opencv : Property → ℤ
  pub calls : ℕ → Calls
  pub given : ℕ → Given
  pub node : ℕ → ℕ
  pub buf : ℕ → ℕ → ℕ

-- All globals of the platform. `tick` counts the calls; `handle` is the handle that is open, with
-- its index; `fuel` is enough for the lists.
pub record Platform : Type 0 where
  pub device : Device
  pub camera : Camera
  pub descriptions : List Description
  pub handle : Option Handle
  pub fuel : ℕ
  pub tick : ℕ

-- After an undefined access there is no state any more, and nothing is known of the answers.
abbrev pub World : Type 0
World = Option Platform

abbrev pub run : (Platform → Option (ℤ × Platform)) → World → ℤ × World
run f none = (minus_one, none)
run f (some p) = elim (f p) [
  | none ↦ (minus_one, none)
  | some (ret, p') ↦ (ret, some (record p' { tick = suc p'.tick }))
]

-- A call that returns something beside its code, `old` where it is undefined
abbrev pub answer : {B : Type 0} → B → Platform → Option (ℤ × Option B) → ℤ × B × World
answer old p none = (minus_one, old, none)
answer old p (some (ret, none)) = (ret, old, some p)
answer old p (some (ret, some b)) = (ret, b, some p)

abbrev pub ask : {B : Type 0} → B → (Platform → Option (ℤ × Option B)) → World → ℤ × B × World
ask old f none = (minus_one, old, none)
ask old f (some p) = answer old p (f p)

-- `cam_info->idx`
abbrev pub index_of_handle : Platform → ℤ
index_of_handle p = elim p.handle [ none ↦ pos 0 | some (a, idx) ↦ idx ]

abbrev pub on_camera : Platform → Option (ℤ × Camera) → Option (ℤ × Platform)
on_camera p r = r >>= λ (ret, c). some (ret, record p { camera = c })

abbrev on_device : Platform → Option (ℤ × Device) → Option (ℤ × Platform)
on_device p r = r >>= λ (ret, d). some (ret, record p { device = d })

abbrev subscribed : Platform → Option (ℤ × Memory Subscription) → Option (ℤ × Platform)
subscribed p r = r >>= λ (ret, m).
    let l = p.device.subscribe_event in
    some (ret, record p { device = record p.device { subscribe_event = record l { memory = m } } })

-- The contents of the dispatcher that `csi_camera_open` creates, and that `csi_camera_close` frees.
abbrev pub create_nodes : ℕ → Camera → Camera
unfolding created_nodes
create_nodes address c =
    if address == 0 then c else record c { dispatcher = some (some (created_nodes address)) }

abbrev free_nodes : ℕ → Camera → Camera
free_nodes address c = if address == 0 then c else record c { dispatcher = none }

abbrev device_closed : Platform → Option (ℤ × Device) → Option (ℤ × Platform)
device_closed p r =
    r >>= λ (ret, d). some (ret, record p { device = d; camera = free_nodes d.dispatcher p.camera })

module _ (o : Outside) where
  abbrev device_opened : Platform → Option (ℤ × Option Handle × Device) → ℤ × ℕ × World
  device_opened p none = (minus_one, 0, none)
  device_opened p (some (ret, none, d)) =
      (ret, 0, some (record p { device = d; tick = suc p.tick }))
  device_opened p (some (ret, some (a, idx), d)) = (
    ret,
    a,
    some (record p {
      device = d;
      camera = create_nodes (o.given p.tick).dispatcher p.camera;
      handle = some (a, idx);
      tick = suc p.tick;
    }),
  )

  abbrev set_on : List Property → Platform → Option (ℤ × Platform)
  set_on properties p =
      let (ret, table, w) =
        set_properties (λ q (w : Unit {0}). (o.camera_property_set_opencv q, w))
          (to_u32 (index_of_handle p)) properties p.descriptions tt in
      some (ret, record p { descriptions = table })

  -- The calls as the manager reaches them.
  abbrev pub simulator : Hal
  simulator = record {
    World = World;
    Property = Property;
    Description = Description;
    csi_camera_query_list = λ infos w. ask infos (λ p. some (csi_camera_query_list (some infos))) w;
    csi_camera_open = λ name w. elim w [
      | none ↦ (minus_one, 0, none)
      | some p ↦
          device_opened p (csi_camera_open o.camera_open_opencv (o.given p.tick) name p.device)
    ];
    csi_camera_close =
        λ a w. run (λ p. device_closed p (csi_camera_close p.fuel p.handle p.device)) w;
    csi_camera_get_modes = λ a modes w. ask modes (λ p. some (csi_camera_get_modes (some modes))) w;
    csi_camera_set_mode = λ a cfg w.
        run
          (λ p. on_device p (
            some (
              csi_camera_set_mode o.camera_set_mode_opencv (o.node p.tick) (index_of_handle p)
                (some cfg) p.device)))
          w;
    csi_camera_query_property =
        λ a d w. ask d (λ p. some (csi_camera_query_property p.descriptions (some d))) w;
    csi_camera_set_property = λ a properties w. run (set_on properties) w;
    csi_camera_channel_query =
        λ a cfg w. ask cfg (λ p. csi_camera_channel_query (some cfg) p.camera) w;
    csi_camera_channel_open = λ a cfg w.
        run (λ p. on_camera p (csi_camera_channel_open (o.calls p.tick) (some cfg) p.camera)) w;
    csi_camera_channel_close =
        λ a chn w. run (λ p. on_camera p (csi_camera_channel_close chn p.camera)) w;
    csi_camera_channel_start = λ a chn w.
        run
          (λ p. on_camera p (
            csi_camera_channel_start (o.calls p.tick) (o.buf p.tick) (index_of_handle p) chn
              p.camera))
          w;
    csi_camera_channel_stop =
        λ a chn w. run (λ p. on_camera p (csi_camera_channel_stop (o.calls p.tick) chn p.camera)) w;
    csi_camera_create_event = λ a w. (pos 0, 0, w);
    csi_camera_destory_event = λ e w. (pos 0, w);
    csi_camera_subscribe_event = λ e sub w.
        run
          (λ p. subscribed p (
            csi_camera_subscribe_event p.device.subscribe_event.head (o.node p.tick) p.fuel
              (some sub) p.device.subscribe_event.memory))
          w;
    csi_camera_unsubscribe_event = λ e sub w.
        run
          (λ p. subscribed p (
            csi_camera_unsubscribe_event p.device.subscribe_event.head p.fuel (some sub)
              p.device.subscribe_event.memory))
          w;
    camera_spec_get_enum_array = camera_spec_get_enum_array;
  }
