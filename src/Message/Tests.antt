-- ===== src/Message/Tests.antt =====
-- The theorem on messages at a services.
use saito_rust_workspace.Prelude.{◌≡◌, refl, true, [], ◌∷◌}
use saito_rust_workspace.Outcome.{ok}
use saito_rust_workspace.Message.Services.{PeerService}
use saito_rust_workspace.Message.Services.RoundTrip.{IsClean}
use saito_rust_workspace.Message.Envelope.{services, serialize, deserialize}
use saito_rust_workspace.Message.Envelope.RoundTrip.{arrived, deserialize-serialize_message}

abbrev relay : PeerService
relay = record { service = 97 ∷ []; domain = []; name = 98 ∷ 99 ∷ [] }

relay-IsClean : IsClean relay
relay-IsClean = record { no_bar = (refl, refl, refl); no_semicolon = (refl, refl, refl) }

message_example :
    deserialize (λ text. true) (serialize (services (relay ∷ relay ∷ [])))
    ≡ ok (arrived (services (relay ∷ relay ∷ [])))
message_example =
    deserialize-serialize_message (λ text. true) (services (relay ∷ relay ∷ []))
      (refl, (relay-IsClean, (relay-IsClean, tt)))
