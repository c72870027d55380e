-- ===== src/Entities/Tests.antt =====
-- Runs of the registry, and its theorems at concrete messages.
use go_aioesphomeapi.Base.{◌≡◌, refl, true, [], ◌∷◌, some, lookup, insert}
use go_aioesphomeapi.Messages.{Descriptor, list_entities_switch, list_entities_sensor, switch_state}
use go_aioesphomeapi.Entities.{EntityRegistry, sensor, handle, domain, new_entity_registry}
use go_aioesphomeapi.Entities.Adjust.{IsWellFormed, handle-IsWellFormed, new-IsWellFormed}
use go_aioesphomeapi.Entities.Domain.{after_listing, domain-handle}
use go_aioesphomeapi.Entities.Views.{view, view_run, handle_all, view-handle_all}

abbrev relay : Descriptor
relay = record { key = 5; object_id = 114 ∷ []; name = []; more = [] }

abbrev probe : Descriptor
probe = record { key = 5; object_id = 112 ∷ []; name = []; more = [] }

-- The same key in two maps: the sensor, which `domain` asks for first, hides the switch.
abbrev both_listed : EntityRegistry
both_listed =
    handle (handle new_entity_registry (list_entities_switch relay)) (list_entities_sensor probe)

sensor_hides_switch : domain both_listed 5 ≡ some sensor
unfolding domain handle new_entity_registry lookup insert
sensor_hides_switch = refl

handle-IsWellFormed_example : IsWellFormed (handle new_entity_registry (list_entities_switch relay))
handle-IsWellFormed_example =
    handle-IsWellFormed new_entity_registry (list_entities_switch relay) new-IsWellFormed

domain-handle_example :
    domain both_listed 5
    ≡ after_listing
        (some (sensor, 5))
        5
        (domain (handle new_entity_registry (list_entities_switch relay)) 5)
domain-handle_example =
    domain-handle (handle new_entity_registry (list_entities_switch relay))
      (list_entities_sensor probe) 5

view-handle_all_example :
    view (handle_all new_entity_registry (list_entities_switch relay ∷ switch_state 5 true ∷ [])) 5
    ≡ view_run 5
        (view new_entity_registry 5)
        (list_entities_switch relay ∷ switch_state 5 true ∷ [])
view-handle_all_example =
    view-handle_all new_entity_registry (list_entities_switch relay ∷ switch_state 5 true ∷ []) 5
