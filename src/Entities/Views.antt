-- ===== src/Entities/Views.antt =====
-- entities.go: what the registry holds under one key, as a small state of its own. Messages about other
-- keys do not touch it.
use mathlib.Core.Option
use go_aioesphomeapi.Base.{
  ℕ, ◌≡◌, refl, ap, false, List, [], ◌∷◌, Option, some, ◌==◌, if◌then◌else◌, lookup, lookup-insert,
}
use go_aioesphomeapi.Messages.{Message}
use go_aioesphomeapi.Entities.{
  EntityRegistry, BinarySensorEntity, SensorEntity, TextSensorEntity, SwitchEntity, NumberEntity,
  ButtonEntity, FanEntity, LightEntity, handle, base_of, listed_fan, listed_light, with_fan_state,
  with_light_state,
}
use go_aioesphomeapi.Entities.Adjust.{lookup-adjust}

pub record View : Type 0 where
  pub binary_sensors : Option BinarySensorEntity
  pub sensors : Option SensorEntity
  pub text_sensors : Option TextSensorEntity
  pub switches : Option SwitchEntity
  pub numbers : Option NumberEntity
  pub buttons : Option ButtonEntity
  pub fans : Option FanEntity
  pub lights : Option LightEntity

abbrev pub view : EntityRegistry → ℕ → View
view r k = record {
  binary_sensors = lookup k r.binary_sensors;
  sensors = lookup k r.sensors;
  text_sensors = lookup k r.text_sensors;
  switches = lookup k r.switches;
  numbers = lookup k r.numbers;
  buttons = lookup k r.buttons;
  fans = lookup k r.fans;
  lights = lookup k r.lights;
}

-- What a message about key `j` does to the entry of key `k`.
abbrev list_at {ℓ} : {V : Type ℓ} → ℕ → ℕ → V → Option V → Option V
list_at j k v found = if j == k then some v else found

abbrev change_at {ℓ} : {V : Type ℓ} → ℕ → ℕ → (V → V) → Option V → Option V
change_at j k f found = if j == k then Option.map f found else found

pub view_step : ℕ → View → Message → View
view_step k v (Message.list_entities_binary_sensor m) = record v {
  binary_sensors =
      list_at m.key k (record { base = base_of m; state = false; missing_state = false })
        v.binary_sensors;
}
view_step k v (Message.list_entities_sensor m) = record v {
  sensors =
      list_at m.key k (record { base = base_of m; state = 0; missing_state = false }) v.sensors;
}
view_step k v (Message.list_entities_text_sensor m) = record v {
  text_sensors =
      list_at m.key k (record { base = base_of m; state = []; missing_state = false })
        v.text_sensors;
}
view_step k v (Message.list_entities_switch m) = record v {
  switches = list_at m.key k (record { base = base_of m; state = false }) v.switches;
}
view_step k v (Message.list_entities_number m) = record v {
  numbers =
      list_at m.key k (record { base = base_of m; state = 0; missing_state = false }) v.numbers;
}
view_step k v (Message.list_entities_button m) = record v {
  buttons = list_at m.key k (record { base = base_of m }) v.buttons;
}
view_step k v (Message.list_entities_fan m) = record v {
  fans = list_at m.key k (listed_fan m) v.fans;
}
view_step k v (Message.list_entities_light m) = record v {
  lights = list_at m.key k (listed_light m) v.lights;
}
view_step k v (Message.binary_sensor_state j s u) = record v {
  binary_sensors = change_at j k (λ e. record e { state = s; missing_state = u }) v.binary_sensors;
}
view_step k v (Message.sensor_state j s u) = record v {
  sensors = change_at j k (λ e. record e { state = s; missing_state = u }) v.sensors;
}
view_step k v (Message.text_sensor_state j s u) = record v {
  text_sensors = change_at j k (λ e. record e { state = s; missing_state = u }) v.text_sensors;
}
view_step k v (Message.switch_state j s) = record v {
  switches = change_at j k (λ e. record e { state = s }) v.switches;
}
view_step k v (Message.number_state j s u) = record v {
  numbers = change_at j k (λ e. record e { state = s; missing_state = u }) v.numbers;
}
view_step k v (Message.fan_state m) = record v {
  fans = change_at m.key k (with_fan_state m) v.fans;
}
view_step k v (Message.light_state m) = record v {
  lights = change_at m.key k (with_light_state m) v.lights;
}
view_step k v _ = v

pub view-handle :
    (r : EntityRegistry) (m : Message) (k : ℕ) → view (handle r m) k ≡ view_step k (view r k) m
unfolding handle view_step
view-handle r (Message.list_entities_binary_sensor m) k =
    ap (λ (o : Option BinarySensorEntity). record (view r k) { binary_sensors = o })
      (lookup-insert m.key k _ r.binary_sensors)
view-handle r (Message.list_entities_sensor m) k =
    ap (λ (o : Option SensorEntity). record (view r k) { sensors = o })
      (lookup-insert m.key k _ r.sensors)
view-handle r (Message.list_entities_text_sensor m) k =
    ap (λ (o : Option TextSensorEntity). record (view r k) { text_sensors = o })
      (lookup-insert m.key k _ r.text_sensors)
view-handle r (Message.list_entities_switch m) k =
    ap (λ (o : Option SwitchEntity). record (view r k) { switches = o })
      (lookup-insert m.key k _ r.switches)
view-handle r (Message.list_entities_number m) k =
    ap (λ (o : Option NumberEntity). record (view r k) { numbers = o })
      (lookup-insert m.key k _ r.numbers)
view-handle r (Message.list_entities_button m) k =
    ap (λ (o : Option ButtonEntity). record (view r k) { buttons = o })
      (lookup-insert m.key k _ r.buttons)
view-handle r (Message.list_entities_fan m) k =
    ap (λ (o : Option FanEntity). record (view r k) { fans = o }) (lookup-insert m.key k _ r.fans)
view-handle r (Message.list_entities_light m) k =
    ap (λ (o : Option LightEntity). record (view r k) { lights = o })
      (lookup-insert m.key k _ r.lights)
view-handle r (Message.binary_sensor_state j s u) k =
    ap (λ (o : Option BinarySensorEntity). record (view r k) { binary_sensors = o })
      (lookup-adjust j k _ r.binary_sensors)
view-handle r (Message.sensor_state j s u) k =
    ap (λ (o : Option SensorEntity). record (view r k) { sensors = o })
      (lookup-adjust j k _ r.sensors)
view-handle r (Message.text_sensor_state j s u) k =
    ap (λ (o : Option TextSensorEntity). record (view r k) { text_sensors = o })
      (lookup-adjust j k _ r.text_sensors)
view-handle r (Message.switch_state j s) k =
    ap (λ (o : Option SwitchEntity). record (view r k) { switches = o })
      (lookup-adjust j k _ r.switches)
view-handle r (Message.number_state j s u) k =
    ap (λ (o : Option NumberEntity). record (view r k) { numbers = o })
      (lookup-adjust j k _ r.numbers)
view-handle r (Message.fan_state m) k =
    ap (λ (o : Option FanEntity). record (view r k) { fans = o }) (lookup-adjust m.key k _ r.fans)
view-handle r (Message.light_state m) k =
    ap (λ (o : Option LightEntity). record (view r k) { lights = o })
      (lookup-adjust m.key k _ r.lights)
view-handle r _ k = refl

-- The registry after a run of messages, from the empty one.
pub handle_all : EntityRegistry → List Message → EntityRegistry
handle_all r [] = r
handle_all r (m ∷ ms) = handle_all (handle r m) ms

pub view_run : ℕ → View → List Message → View
view_run k v [] = v
view_run k v (m ∷ ms) = view_run k (view_step k v m) ms

-- After any run of messages what the registry holds under a key is what the per-key automaton
-- computes: a listing of that key replaces its entry, a state of that key changes a listed entry
-- only, and messages about other keys do nothing.
pub view-handle_all :
    (r : EntityRegistry) (ms : List Message) (k : ℕ)
    → view (handle_all r ms) k ≡ view_run k (view r k) ms
unfolding handle_all view_run
view-handle_all r [] k = refl
view-handle_all r (m ∷ ms) k =
    rw (view-handle_all (handle r m) ms k) (ap (λ (v : View). view_run k v ms) (view-handle r m k))
