-- ===== src/Shared/Tests.antt =====
-- The life cycle of shared/src/ticket.rs at concrete statuses.
use infovulcan.Common.{◌≡◌, refl, ◌↔◌, ◌⊎◌, true, false, none, some, [], ◌∷◌}
use infovulcan.Serde.{Serde}
use infovulcan.Serde.Codec.{serde_of, pair_codec, bytes_codec}
use infovulcan.Shared.KeyStore.{Keys, System, load_or_generate_keypair, load_twice}
use infovulcan.Shared.Ticket.{Ticket}
use infovulcan.Shared.Status.{handed_off, voicemail_received, is_terminal}
use infovulcan.Shared.Status.Lifecycle.{Reaches, Reaches-iff}

Reaches-iff_example :
    Reaches handed_off voicemail_received
    ↔ ((handed_off ≡ voicemail_received) ⊎ (is_terminal handed_off ≡ false))
Reaches-iff_example = Reaches-iff handed_off voicemail_received

keys_serde : Serde Keys
keys_serde = serde_of (pair_codec bytes_codec bytes_codec)

abbrev system : System
system = record {
  can_read = true;
  generated = some (1 ∷ [], 2 ∷ []);
  write = λ bytes. (true, some bytes);
}

load_twice_example :
    load_or_generate_keypair keys_serde system (load_or_generate_keypair keys_serde system none).1
    ≡ (some (1 ∷ [], 2 ∷ []), (load_or_generate_keypair keys_serde system none).1)
unfolding load_or_generate_keypair
load_twice_example =
    load_twice keys_serde system system none (1 ∷ [], 2 ∷ []) (λ bytes e. refl) refl refl
