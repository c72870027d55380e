-- ===== src/Entities/Domain.antt =====
-- entities.go: `domain` and `handle` together. The domain under which a key is found is described by
-- the messages alone: a listing adds its own domain, and the first in the fixed order is answered.
use go_aioesphomeapi.Base.{
  ℕ, ◌≡◌, refl, true, Option, none, some, arith, ◌==◌, leb, if◌then◌else◌, Table,
}
use go_aioesphomeapi.Messages.{Message}
use go_aioesphomeapi.Entities.{
  EntityRegistry, BinarySensorEntity, SensorEntity, TextSensorEntity, SwitchEntity, NumberEntity,
  ButtonEntity, FanEntity, LightEntity, EntityDomain, binary_sensor, sensor, text_sensor, switch,
  number, button, fan, light, has_key, handle, domain,
}
use go_aioesphomeapi.Entities.Adjust.{has_key-adjust, has_key-insert}

-- The order in which `domain` asks the maps.
abbrev pub rank : EntityDomain → ℕ
rank binary_sensor = 0
rank sensor = 1
rank text_sensor = 2
rank switch = 3
rank number = 4
rank button = 5
rank fan = 6
rank light = 7

-- What a message lists: a domain and a key.
abbrev pub listed : Message → Option (EntityDomain × ℕ)
listed (Message.list_entities_binary_sensor d) = some (binary_sensor, d.key)
listed (Message.list_entities_sensor d) = some (sensor, d.key)
listed (Message.list_entities_text_sensor d) = some (text_sensor, d.key)
listed (Message.list_entities_switch d) = some (switch, d.key)
listed (Message.list_entities_number d) = some (number, d.key)
listed (Message.list_entities_button d) = some (button, d.key)
listed (Message.list_entities_fan d) = some (fan, d.key)
listed (Message.list_entities_light d) = some (light, d.key)
listed _ = none

abbrev pub first : EntityDomain → Option EntityDomain → EntityDomain
first d none = d
first d (some e) = if leb (rank d) (rank e) then d else e

abbrev pub after_listing : Option (EntityDomain × ℕ) → ℕ → Option EntityDomain → Option EntityDomain
after_listing none k found = found
after_listing (some (d, j)) k found = if j == k then some (first d found) else found

-- One map changed: by a listing under `j`, or in the states only.
module _ (r : EntityRegistry) (k : ℕ) where
  list_binary_sensors :
      (t : Table BinarySensorEntity) (j : ℕ)
      → has_key k t ≡ (if j == k then true else has_key k r.binary_sensors)
      → domain (record r { binary_sensors = t }) k
        ≡ after_listing (some (binary_sensor, j)) k (domain r k)
  unfolding domain
  list_binary_sensors t j h = ground arith

  keep_binary_sensors :
      (t : Table BinarySensorEntity)
      → has_key k t ≡ has_key k r.binary_sensors
      → domain (record r { binary_sensors = t }) k ≡ domain r k
  unfolding domain
  keep_binary_sensors t h = rw h

  list_sensors :
      (t : Table SensorEntity) (j : ℕ)
      → has_key k t ≡ (if j == k then true else has_key k r.sensors)
      → domain (record r { sensors = t }) k ≡ after_listing (some (sensor, j)) k (domain r k)
  unfolding domain
  list_sensors t j h = ground arith

  keep_sensors :
      (t : Table SensorEntity)
      → has_key k t ≡ has_key k r.sensors
      → domain (record r { sensors = t }) k ≡ domain r k
  unfolding domain
  keep_sensors t h = rw h

  list_text_sensors :
      (t : Table TextSensorEntity) (j : ℕ)
      → has_key k t ≡ (if j == k then true else has_key k r.text_sensors)
      → domain (record r { text_sensors = t }) k
        ≡ after_listing (some (text_sensor, j)) k (domain r k)
  unfolding domain
  list_text_sensors t j h = ground arith

  keep_text_sensors :
      (t : Table TextSensorEntity)
      → has_key k t ≡ has_key k r.text_sensors
      → domain (record r { text_sensors = t }) k ≡ domain r k
  unfolding domain
  keep_text_sensors t h = rw h

  list_switches :
      (t : Table SwitchEntity) (j : ℕ)
      → has_key k t ≡ (if j == k then true else has_key k r.switches)
      → domain (record r { switches = t }) k ≡ after_listing (some (switch, j)) k (domain r k)
  unfolding domain
  list_switches t j h = ground arith

  keep_switches :
      (t : Table SwitchEntity)
      → has_key k t ≡ has_key k r.switches
      → domain (record r { switches = t }) k ≡ domain r k
  unfolding domain
  keep_switches t h = rw h

  list_numbers :
      (t : Table NumberEntity) (j : ℕ)
      → has_key k t ≡ (if j == k then true else has_key k r.numbers)
      → domain (record r { numbers = t }) k ≡ after_listing (some (number, j)) k (domain r k)
  unfolding domain
  list_numbers t j h = ground arith

  keep_numbers :
      (t : Table NumberEntity)
      → has_key k t ≡ has_key k r.numbers
      → domain (record r { numbers = t }) k ≡ domain r k
  unfolding domain
  keep_numbers t h = rw h

  list_buttons :
      (t : Table ButtonEntity) (j : ℕ)
      → has_key k t ≡ (if j == k then true else has_key k r.buttons)
      → domain (record r { buttons = t }) k ≡ after_listing (some (button, j)) k (domain r k)
  unfolding domain
  list_buttons t j h = ground arith

  list_fans :
      (t : Table FanEntity) (j : ℕ)
      → has_key k t ≡ (if j == k then true else has_key k r.fans)
      → domain (record r { fans = t }) k ≡ after_listing (some (fan, j)) k (domain r k)
  unfolding domain
  list_fans t j h = ground arith

  keep_fans :
      (t : Table FanEntity)
      → has_key k t ≡ has_key k r.fans
      → domain (record r { fans = t }) k ≡ domain r k
  unfolding domain
  keep_fans t h = rw h

  list_lights :
      (t : Table LightEntity) (j : ℕ)
      → has_key k t ≡ (if j == k then true else has_key k r.lights)
      → domain (record r { lights = t }) k ≡ after_listing (some (light, j)) k (domain r k)
  unfolding domain
  list_lights t j h = ground arith

  keep_lights :
      (t : Table LightEntity)
      → has_key k t ≡ has_key k r.lights
      → domain (record r { lights = t }) k ≡ domain r k
  unfolding domain
  keep_lights t h = rw h

-- After a message the domain of a key is the one found before, unless the message lists that key:
-- then it is the earlier of the two in the fixed order of the domains.
pub domain-handle :
    (r : EntityRegistry) (m : Message) (k : ℕ)
    → domain (handle r m) k ≡ after_listing (listed m) k (domain r k)
unfolding handle
domain-handle r (Message.list_entities_binary_sensor m) k =
    list_binary_sensors r k _ m.key (has_key-insert m.key k _ r.binary_sensors)
domain-handle r (Message.list_entities_sensor m) k =
    list_sensors r k _ m.key (has_key-insert m.key k _ r.sensors)
domain-handle r (Message.list_entities_text_sensor m) k =
    list_text_sensors r k _ m.key (has_key-insert m.key k _ r.text_sensors)
domain-handle r (Message.list_entities_switch m) k =
    list_switches r k _ m.key (has_key-insert m.key k _ r.switches)
domain-handle r (Message.list_entities_number m) k =
    list_numbers r k _ m.key (has_key-insert m.key k _ r.numbers)
domain-handle r (Message.list_entities_button m) k =
    list_buttons r k _ m.key (has_key-insert m.key k _ r.buttons)
domain-handle r (Message.list_entities_fan m) k =
    list_fans r k _ m.key (has_key-insert m.key k _ r.fans)
domain-handle r (Message.list_entities_light m) k =
    list_lights r k _ m.key (has_key-insert m.key k _ r.lights)
domain-handle r (Message.binary_sensor_state j s u) k =
    keep_binary_sensors r k _ (has_key-adjust j k _ r.binary_sensors)
domain-handle r (Message.sensor_state j s u) k = keep_sensors r k _ (has_key-adjust j k _ r.sensors)
domain-handle r (Message.text_sensor_state j s u) k =
    keep_text_sensors r k _ (has_key-adjust j k _ r.text_sensors)
domain-handle r (Message.switch_state j s) k = keep_switches r k _ (has_key-adjust j k _ r.switches)
domain-handle r (Message.number_state j s u) k = keep_numbers r k _ (has_key-adjust j k _ r.numbers)
domain-handle r (Message.fan_state m) k = keep_fans r k _ (has_key-adjust m.key k _ r.fans)
domain-handle r (Message.light_state m) k = keep_lights r k _ (has_key-adjust m.key k _ r.lights)
domain-handle r _ k = refl
