-- ===== src/Entities/Adjust.antt =====
-- entities.go: what an insertion and a state change do to a map, and the form of the registry that
-- every message keeps.
use mathlib.Core.Option
use go_aioesphomeapi.Base.{
  ℕ, ◌≡◌, refl, true, [], ◌∷◌, some, inl, inr, Option-cases, arith, ◌==◌, if◌then◌else◌, Table,
  lookup, insert, lookup-insert, HasUniqueKeys, insert-HasUniqueKeys,
}
use go_aioesphomeapi.Messages.{Message}
use go_aioesphomeapi.Entities.{
  EntityRegistry, adjust, has_key, handle, new_entity_registry, BinarySensorEntity, SensorEntity,
  TextSensorEntity, SwitchEntity, NumberEntity, ButtonEntity, FanEntity, LightEntity, listed_fan,
  listed_light, with_fan_state, with_light_state,
}

module _ {ℓ} {V : Type ℓ} where
  pub lookup-adjust :
      (k j : ℕ) (f : V → V) (m : Table V)
      → lookup j (adjust k f m) ≡ (if k == j then Option.map f (lookup j m) else lookup j m)
  unfolding adjust
  lookup-adjust k j f m = elim (Option-cases (lookup k m)) [
    | inl e ↦ rw (e, adjust) (ground (arith, e))
    | inr (v, e) ↦ rw (e, adjust) (ground (arith, e, lookup-insert k j (f v) m))
  ]

  pub has_key-insert :
      (k j : ℕ) (v : V) (m : Table V)
      → has_key j (insert k v m) ≡ (if k == j then true else has_key j m)
  has_key-insert k j v m = ground (arith, lookup-insert k j v m)

  pub has_key-adjust : (k j : ℕ) (f : V → V) (m : Table V) → has_key j (adjust k f m) ≡ has_key j m
  unfolding adjust
  has_key-adjust k j f m = elim (Option-cases (lookup k m)) [
    | inl e ↦ rw (e, adjust)
    | inr (v, e) ↦ rw (e, adjust) (ground (arith, e, lookup-insert k j (f v) m))
  ]

  pub adjust-HasUniqueKeys :
      (k : ℕ) (f : V → V) (m : Table V) → HasUniqueKeys m → HasUniqueKeys (adjust k f m)
  unfolding adjust
  adjust-HasUniqueKeys k f m u = elim (Option-cases (lookup k m)) [
    | inl e ↦ rw (e, adjust) u
    | inr (v, e) ↦ rw (e, adjust) (insert-HasUniqueKeys k (f v) m u)
  ]

-- Every entry stands under its own key.
module _ {ℓ} {V : Type ℓ} (key_of : V → ℕ) where
  abbrev pub IsKeyed : Table V → Type 0
  IsKeyed [] = Unit
  IsKeyed ((k, v) ∷ m) = (key_of v ≡ k) × IsKeyed m

  pub insert-IsKeyed :
      (k : ℕ) (v : V) (m : Table V) → key_of v ≡ k → IsKeyed m → IsKeyed (insert k v m)
  unfolding insert
  insert-IsKeyed k v [] h u = (h, tt)
  insert-IsKeyed k v ((j, w) ∷ m) h u = ground (arith, insert-IsKeyed k v m h u.1)

  lookup-IsKeyed : (k : ℕ) (v : V) (m : Table V) → IsKeyed m → lookup k m ≡ some v → key_of v ≡ k
  unfolding lookup
  lookup-IsKeyed k v [] u e = cc
  lookup-IsKeyed k v ((j, w) ∷ m) u e = ground (arith, lookup-IsKeyed k v m u.1)

  pub adjust-IsKeyed :
      (k : ℕ) (f : V → V) (m : Table V)
      → ((v : V) → key_of (f v) ≡ key_of v)
      → IsKeyed m
      → IsKeyed (adjust k f m)
  unfolding adjust
  adjust-IsKeyed k f m same u = elim (Option-cases (lookup k m)) [
    | inl e ↦ rw (e, adjust) u
    | inr (v, e) ↦
        rw (e, adjust)
          (insert-IsKeyed k (f v) m (ground (arith, same v, lookup-IsKeyed k v m u e)) u)
  ]

  -- A map of the registry: each key once, each entry under its key.
  abbrev pub IsFiled : Table V → Type 0
  IsFiled m = HasUniqueKeys m × IsKeyed m

  pub insert-IsFiled :
      (k : ℕ) (v : V) (m : Table V) → key_of v ≡ k → IsFiled m → IsFiled (insert k v m)
  insert-IsFiled k v m h u = (insert-HasUniqueKeys k v m u.0, insert-IsKeyed k v m h u.1)

  pub adjust-IsFiled :
      (k : ℕ) (f : V → V) (m : Table V)
      → ((v : V) → key_of (f v) ≡ key_of v)
      → IsFiled m
      → IsFiled (adjust k f m)
  adjust-IsFiled k f m same u = (adjust-HasUniqueKeys k f m u.0, adjust-IsKeyed k f m same u.1)

pub record IsWellFormed (r : EntityRegistry) : Type 0 where
  pub binary_sensors : IsFiled (λ e. e.base.key) r.binary_sensors
  pub sensors : IsFiled (λ e. e.base.key) r.sensors
  pub text_sensors : IsFiled (λ e. e.base.key) r.text_sensors
  pub switches : IsFiled (λ e. e.base.key) r.switches
  pub numbers : IsFiled (λ e. e.base.key) r.numbers
  pub buttons : IsFiled (λ e. e.base.key) r.buttons
  pub fans : IsFiled (λ e. e.base.key) r.fans
  pub lights : IsFiled (λ e. e.base.key) r.lights

pub new-IsWellFormed : IsWellFormed new_entity_registry
unfolding new_entity_registry
new-IsWellFormed = record {
  binary_sensors = (tt, tt);
  sensors = (tt, tt);
  text_sensors = (tt, tt);
  switches = (tt, tt);
  numbers = (tt, tt);
  buttons = (tt, tt);
  fans = (tt, tt);
  lights = (tt, tt);
}

-- One map replaced by a filed one.
module _ {r : EntityRegistry} (w : IsWellFormed r) where
  with_binary_sensors :
      (t : Table BinarySensorEntity)
      → IsFiled (λ e. e.base.key) t
      → IsWellFormed (record r { binary_sensors = t })
  with_binary_sensors t h = assumption

  with_sensors :
      (t : Table SensorEntity)
      → IsFiled (λ e. e.base.key) t
      → IsWellFormed (record r { sensors = t })
  with_sensors t h = assumption

  with_text_sensors :
      (t : Table TextSensorEntity)
      → IsFiled (λ e. e.base.key) t
      → IsWellFormed (record r { text_sensors = t })
  with_text_sensors t h = assumption

  with_switches :
      (t : Table SwitchEntity)
      → IsFiled (λ e. e.base.key) t
      → IsWellFormed (record r { switches = t })
  with_switches t h = assumption

  with_numbers :
      (t : Table NumberEntity)
      → IsFiled (λ e. e.base.key) t
      → IsWellFormed (record r { numbers = t })
  with_numbers t h = assumption

  with_buttons :
      (t : Table ButtonEntity)
      → IsFiled (λ e. e.base.key) t
      → IsWellFormed (record r { buttons = t })
  with_buttons t h = assumption

  with_fans :
      (t : Table FanEntity) → IsFiled (λ e. e.base.key) t → IsWellFormed (record r { fans = t })
  with_fans t h = assumption

  with_lights :
      (t : Table LightEntity) → IsFiled (λ e. e.base.key) t → IsWellFormed (record r { lights = t })
  with_lights t h = assumption

-- Every message keeps the registry well formed: each map has a key once, and every entry stands
-- under its own key.
pub handle-IsWellFormed :
    (r : EntityRegistry) (m : Message) → IsWellFormed r → IsWellFormed (handle r m)
unfolding handle listed_fan listed_light with_fan_state with_light_state
handle-IsWellFormed r (Message.list_entities_binary_sensor m) w =
    with_binary_sensors w _ (insert-IsFiled _ m.key _ r.binary_sensors refl w.binary_sensors)
handle-IsWellFormed r (Message.list_entities_sensor m) w =
    with_sensors w _ (insert-IsFiled _ m.key _ r.sensors refl w.sensors)
handle-IsWellFormed r (Message.list_entities_text_sensor m) w =
    with_text_sensors w _ (insert-IsFiled _ m.key _ r.text_sensors refl w.text_sensors)
handle-IsWellFormed r (Message.list_entities_switch m) w =
    with_switches w _ (insert-IsFiled _ m.key _ r.switches refl w.switches)
handle-IsWellFormed r (Message.list_entities_number m) w =
    with_numbers w _ (insert-IsFiled _ m.key _ r.numbers refl w.numbers)
handle-IsWellFormed r (Message.list_entities_button m) w =
    with_buttons w _ (insert-IsFiled _ m.key _ r.buttons refl w.buttons)
handle-IsWellFormed r (Message.list_entities_fan m) w =
    with_fans w _ (insert-IsFiled _ m.key _ r.fans refl w.fans)
handle-IsWellFormed r (Message.list_entities_light m) w =
    with_lights w _ (insert-IsFiled _ m.key _ r.lights refl w.lights)
handle-IsWellFormed r (Message.binary_sensor_state key state missing) w =
    with_binary_sensors w _ (adjust-IsFiled _ key _ r.binary_sensors (λ v. refl) w.binary_sensors)
handle-IsWellFormed r (Message.sensor_state key state missing) w =
    with_sensors w _ (adjust-IsFiled _ key _ r.sensors (λ v. refl) w.sensors)
handle-IsWellFormed r (Message.text_sensor_state key state missing) w =
    with_text_sensors w _ (adjust-IsFiled _ key _ r.text_sensors (λ v. refl) w.text_sensors)
handle-IsWellFormed r (Message.switch_state key state) w =
    with_switches w _ (adjust-IsFiled _ key _ r.switches (λ v. refl) w.switches)
handle-IsWellFormed r (Message.number_state key state missing) w =
    with_numbers w _ (adjust-IsFiled _ key _ r.numbers (λ v. refl) w.numbers)
handle-IsWellFormed r (Message.fan_state m) w =
    with_fans w _ (adjust-IsFiled _ m.key _ r.fans (λ v. refl) w.fans)
handle-IsWellFormed r (Message.light_state m) w =
    with_lights w _ (adjust-IsFiled _ m.key _ r.lights (λ v. refl) w.lights)
handle-IsWellFormed r _ w = w
