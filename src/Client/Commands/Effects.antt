-- ===== src/Client/Commands/Effects.antt =====
-- commands.go: what a setter does on every branch.
use go_aioesphomeapi.Base.{
  ℕ, ◌≡◌, Bool, ◌∷◌, Option, none, some, arith, inl, inr, ◌⊎◌, ◌≢◌, ◌==◌, Bool-cases, Option-cases,
}
use go_aioesphomeapi.Messages.{
  Message, Float32, switch_command, number_command, button_command, fan_command, light_command,
}
use go_aioesphomeapi.Entities.{EntityDomain, switch, number, button, fan, light, domain}
use go_aioesphomeapi.Entities.Domain.{rank}
use go_aioesphomeapi.Client.State.{Client, ClientError, entity_not_found, entity_type_mismatch}
use go_aioesphomeapi.Client.Send.{Codec, Writes, send}
use go_aioesphomeapi.Client.Commands.{
  FanCommandOpts, LightCommandOpts, validate_entity, command, fan_request, light_request,
  set_switch, set_number, press_button, set_fan, set_light,
}

-- The message went out, and the key is known under the domain; or the registry refuses the key and
-- the client is as it was; or the client could not send, and is as it was.
abbrev pub Effect : Client → EntityDomain → ℕ → Message → Client × Option ClientError → Type 0
Effect c want key m r =
    ((domain c.entities key ≡ some want)
      × (r.1 ≡ none)
      × (r.0.sent ≡ m ∷ c.sent)
      × (r.0.entities ≡ c.entities))
    ⊎ ((domain c.entities key ≡ none) × (r ≡ (c, some (entity_not_found key))))
    ⊎ ((d : EntityDomain) × (domain c.entities key ≡ some d)
        × (d ≢ want)
        × (r ≡ (c, some (entity_type_mismatch key d want))))
    ⊎ ((e : ClientError) × (domain c.entities key ≡ some want) × (r ≡ (c, some e)))

-- The order of `domain` numbers each domain once.
rank-injective : (a b : EntityDomain) → rank a ≡ rank b → a ≡ b
rank-injective EntityDomain.binary_sensor b h = ground arith
rank-injective a b h = ground arith

-- A message is logged as sent, or the client is as it was.
send_cases :
    (codec : Codec) (writes : Writes) (c : Client) (m : Message)
    → (((send codec writes c m).1 ≡ none)
        × ((send codec writes c m).0.sent ≡ m ∷ c.sent)
        × ((send codec writes c m).0.entities ≡ c.entities))
      ⊎ ((e : ClientError) × (send codec writes c m ≡ (c, some e)))
unfolding send
send_cases codec writes c m = elim (Option-cases (send codec writes c m).1) [
  | inl e ↦ inl (e, ground arith, ground arith)
  | inr (x, e) ↦ inr (x, ground arith)
]

module _ (codec : Codec) (writes : Writes) (c : Client) (key : ℕ) where
  pub command-Effect :
      (want : EntityDomain) (m : Message) → Effect c want key m (command codec writes want key m c)
  unfolding command validate_entity
  command-Effect want m = elim (Option-cases (domain c.entities key)) [
    | inl e ↦ inr (inl (e, ground arith))
    | inr (d, e) ↦ elim (Bool-cases (rank d == rank want)) [
      | inr differ ↦ inr (inr (inl (d, e, λ same. ground arith, ground arith)))
      | inl same ↦
          let known : domain c.entities key ≡ some want = ground (arith, rank-injective d want) in
          elim (send_cases codec writes c m) [
            | inl (fine, sent, entities) ↦ inl (known, ground arith, ground arith, ground arith)
            | inr (x, failed) ↦ inr (inr (inr (x, known, ground arith)))
          ]
    ]
  ]

  -- Each typed command sends exactly its message and only when the key's domain in the registry is
  -- the command's; for an unknown key or another domain it reports which, and on every error the
  -- client is unchanged.
  pub setters-Effect :
      (on : Bool) (value : Float32) (fan_options : FanCommandOpts)
      (light_options : LightCommandOpts)
      → Effect c switch key (switch_command key on) (set_switch codec writes key on c)
        × Effect c number key (number_command key value) (set_number codec writes key value c)
        × Effect c button key (button_command key) (press_button codec writes key c)
        × Effect c fan key
            (fan_command (fan_request key fan_options))
            (set_fan codec writes key fan_options c)
        × Effect c light key
            (light_command (light_request key light_options))
            (set_light codec writes key light_options c)
  unfolding set_switch set_number press_button set_fan set_light
  setters-Effect on value fan_options light_options = (
    command-Effect switch (switch_command key on),
    command-Effect number (number_command key value),
    command-Effect button (button_command key),
    command-Effect fan (fan_command (fan_request key fan_options)),
    command-Effect light (light_command (light_request key light_options)),
  )
