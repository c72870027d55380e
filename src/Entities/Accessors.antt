-- ===== src/Entities/Accessors.antt =====
-- entities.go: the lists of a registry's entities. The code copies each entity with its slices, so that
-- a caller has values of its own; the order of a Go map is not fixed.
use go_aioesphomeapi.Base.{List, values}
use go_aioesphomeapi.Entities.{
  EntityRegistry, BinarySensorEntity, SensorEntity, TextSensorEntity, SwitchEntity, NumberEntity,
  ButtonEntity, FanEntity, LightEntity,
}

unfoldable pub all_binary_sensors : EntityRegistry → List BinarySensorEntity
all_binary_sensors r = values r.binary_sensors

unfoldable pub all_sensors : EntityRegistry → List SensorEntity
all_sensors r = values r.sensors

unfoldable pub all_text_sensors : EntityRegistry → List TextSensorEntity
all_text_sensors r = values r.text_sensors

unfoldable pub all_switches : EntityRegistry → List SwitchEntity
all_switches r = values r.switches

unfoldable pub all_numbers : EntityRegistry → List NumberEntity
all_numbers r = values r.numbers

unfoldable pub all_buttons : EntityRegistry → List ButtonEntity
all_buttons r = values r.buttons

unfoldable pub all_fans : EntityRegistry → List FanEntity
all_fans r = values r.fans

unfoldable pub all_lights : EntityRegistry → List LightEntity
all_lights r = values r.lights
