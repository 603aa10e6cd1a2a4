-- ===== src/Protocol/Channel/Examples.antt =====
-- The validation of protocol/src/protocol.c on a concrete channel, and the theorems there.
use kobox.Prelude.{◌≡◌, refl, [], ◌∷◌}
use kobox.Protocol.{ok, malformed}
use kobox.Protocol.Channel.{ChannelModel, QueueModel, channel_validate, channel_encoded_size}
use kobox.Protocol.Channel.Accepted.{ChannelSound, channel_validate_sound}
use kobox.Virtqueue.{Region}

abbrev pub identity : ChannelModel
identity = record {
  feature_bits = 805306368;
  channel_id = 1;
  generation = 7;
  protocol_id = 3;
  flags = 2;
}

abbrev pub requests : QueueModel
requests = record {
  queue_id = 1;
  role = 2;
  queue_size = 4;
  flags = 0;
  descriptor_address = 0x1000;
  available_address = 0x2000;
  used_address = 0x3000;
  available_notification_id = 1;
  used_notification_id = 2;
  max_chain_length = 4;
  max_indirect_length = 4;
  max_outstanding = 4;
}

-- The events have their rings behind those of the requests.
abbrev pub events : QueueModel
events = record requests {
  queue_id = 2;
  role = 1;
  descriptor_address = 0x4000;
  available_address = 0x5000;
  used_address = 0x6000;
  available_notification_id = 3;
  used_notification_id = 4;
}

abbrev pub rings : Region
rings = record { region_id = 1; rights = 3; transport_base = 0x1000; region_length = 0x10000 }

accepted_channel : channel_validate identity (requests ∷ events ∷ []) (rings ∷ []) ≡ ok
unfolding channel_validate
accepted_channel = refl

-- The available ring of the events in the middle of the used ring of the requests.
crossing_rings :
    channel_validate identity
      (requests ∷ record events { available_address = 0x3010 } ∷ [])
      (rings ∷ [])
    ≡ malformed
unfolding channel_validate
crossing_rings = refl

encoded_size : channel_encoded_size 2 1 ≡ (ok, 256)
unfolding channel_encoded_size
encoded_size = refl

channel_validate_sound_example : ChannelSound (requests ∷ events ∷ []) (rings ∷ [])
channel_validate_sound_example =
    channel_validate_sound identity (requests ∷ events ∷ []) (rings ∷ []) accepted_channel
