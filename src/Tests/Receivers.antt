-- ===== src/Tests/Receivers.antt =====
-- The receiving side, the timers and the manager of resource transfers at concrete inputs.
use styrene_rs.Base.{
  [], ℕ, ◌+◌, ◌*◌, ◌≤◌, ◌<◌, ◌≡◌, refl, true, false, Option, none, some, List, ◌∷◌, ◌++◌, arith,
  length, replicate, All, ◌⊎◌, err,
}
use styrene_rs.Base.Bytes.{bytes_eq}
use styrene_rs.Error.{invalid_argument}
use styrene_rs.Packet.Codec.{Packet, default_packet}
use styrene_rs.Transport.Link.Cipher.{LinkCipher}
use styrene_rs.Transport.Resource.{advertised, complete, window}
use styrene_rs.Transport.Resource.Sender.{ResourceSender}
use styrene_rs.Transport.Resource.Sender.Polling.{poll, poll_failed}
use styrene_rs.Transport.Resource.Sender.Patience.{polled, poll_gives_up}
use styrene_rs.Transport.Resource.Receiver.{
  ResourceReceiver, PartOutcome, completed, handle_part, assemble, build_request,
}
use styrene_rs.Transport.Resource.Receiver.Assembly.{ResourcePayload}
use styrene_rs.Transport.Resource.Receiver.Requests.{
  Missing, build_request_bounded, build_request_asks,
}
use styrene_rs.Transport.Resource.Receiver.Counting.{IsCounted, handle_part-IsCounted}
use styrene_rs.Transport.Resource.Receiver.Safety.{Genuine, handle_part-Genuine}
use styrene_rs.Transport.Resource.Receiver.Collisions.{
  IsShadowed, is_completed, handle_part-IsShadowed,
}
use styrene_rs.Transport.Resource.Manager.{ResourceManager}
use styrene_rs.Transport.Resource.Manager.Polling.{retry_requests}
use styrene_rs.Transport.Resource.Manager.Parts.{handle_resource_part_into}
use styrene_rs.Transport.Resource.Manager.Retries.{progressing_dropped}
use styrene_rs.Tests.Transfers.{digest_of, toy_bunzip}

-- No part of these runs is encrypted.
abbrev closed_link : LinkCipher
closed_link = record {
  id = replicate 16 3;
  encrypt = λ iv text room. err invalid_argument;
  decrypt = λ token room. err invalid_argument;
}

abbrev random : List ℕ
random = 9 ∷ 9 ∷ 9 ∷ 9 ∷ []

-- A receiver of these hashes and slots, of the data 65, 66 behind four random bytes.
abbrev receiver_of : List (Option (List ℕ)) → List (Option (List ℕ)) → ℕ → ResourceReceiver
receiver_of hashmap parts received = record {
  origin = record {
    resource_hash = digest_of ((65 ∷ 66 ∷ []) ++ random);
    random_hash = random;
    encrypted = false;
    compressed = false;
    has_metadata = false;
  };
  link_id = replicate 16 3;
  parts = parts;
  hashmap = hashmap;
  received = received;
  received_bytes = 0;
  total_bytes = 6;
  split = false;
  last_progress = 0;
  last_request = 0;
  retry_count = 4;
  status = advertised;
}

abbrev one_part : ResourceReceiver
one_part = receiver_of (some (8 ∷ 8 ∷ 8 ∷ 8 ∷ []) ∷ []) (none ∷ []) 0

abbrev two_parts : ResourceReceiver
two_parts =
    receiver_of (some (8 ∷ 8 ∷ 8 ∷ 8 ∷ []) ∷ some (65 ∷ 66 ∷ 9 ∷ 9 ∷ []) ∷ []) (none ∷ none ∷ []) 0

abbrev whole_part : List ℕ
whole_part = 8 ∷ 8 ∷ 8 ∷ 8 ∷ 65 ∷ 66 ∷ []

abbrev ended : ResourceReceiver × PartOutcome
ended = handle_part digest_of toy_bunzip closed_link 1 whole_part one_part

abbrev proof_packet : Packet
proof_packet = elim ended.1 [ completed packet content ↦ packet | _ ↦ default_packet ]

abbrev content_sent : ResourcePayload
content_sent = record { bytes = 65 ∷ 66 ∷ []; metadata = none }

handle_part-Genuine_example :
    Genuine digest_of one_part.origin content_sent × (ended.0.status ≡ complete)
unfolding handle_part assemble bytes_eq
handle_part-Genuine_example =
    handle_part-Genuine digest_of toy_bunzip closed_link 1 whole_part one_part ended.0 proof_packet
      content_sent refl

handle_part-IsCounted_example :
    IsCounted (handle_part digest_of toy_bunzip closed_link 1 whole_part two_parts).0
handle_part-IsCounted_example =
    handle_part-IsCounted digest_of toy_bunzip closed_link 1 whole_part two_parts
      (record { aligned = refl; counted = refl })

build_request_bounded_example :
    (length (build_request two_parts).requested_hashes ≤ window)
    × All (Missing two_parts.hashmap two_parts.parts) (build_request two_parts).requested_hashes
build_request_bounded_example = build_request_bounded two_parts

build_request_asks_example :
    ((build_request two_parts).hashmap_exhausted ≡ true)
    ⊎ (0 < length (build_request two_parts).requested_hashes)
build_request_asks_example = build_request_asks two_parts (8 ∷ 8 ∷ 8 ∷ 8 ∷ []) Missing.here

abbrev twins : ResourceReceiver
twins =
    receiver_of (some (8 ∷ 8 ∷ 8 ∷ 8 ∷ []) ∷ some (8 ∷ 8 ∷ 8 ∷ 8 ∷ []) ∷ []) (none ∷ none ∷ []) 0

twins-IsShadowed : IsShadowed twins 1
twins-IsShadowed = record {
  hash = 8 ∷ 8 ∷ 8 ∷ 8 ∷ [];
  front = 0;
  before = omega arith;
  there = refl;
  here = refl;
  empty = refl;
}

handle_part-IsShadowed_example :
    IsShadowed (handle_part digest_of toy_bunzip closed_link 1 whole_part twins).0 1
    × (is_completed (handle_part digest_of toy_bunzip closed_link 1 whole_part twins).1 ≡ false)
handle_part-IsShadowed_example =
    handle_part-IsShadowed digest_of toy_bunzip closed_link 1 1 whole_part twins twins-IsShadowed

abbrev part_packet : Packet
part_packet = record default_packet { body = record { buffer = whole_part; len = 6 } }

abbrev busy : ResourceManager
busy = record {
  pending_outgoing = [];
  outgoing = [];
  incoming = (replicate 32 1, two_parts) ∷ [];
  events = [];
  retry_interval = 2;
  retry_limit = 5;
}

abbrev after_part : ResourceReceiver
after_part = (handle_part digest_of toy_bunzip closed_link 1 whole_part two_parts).0

-- The part came at 1; at 1 the transfer is dropped.
progressing_dropped_example :
    let m = (handle_resource_part_into digest_of toy_bunzip closed_link [] 1 part_packet busy).0 in
    (retry_requests 1 m).0.incoming ≡ []
unfolding handle_part bytes_eq
progressing_dropped_example =
    progressing_dropped digest_of toy_bunzip closed_link [] 1 1 part_packet (replicate 32 1)
      two_parts after_part busy refl refl (omega arith) (omega arith)

abbrev idle_sender : ResourceSender
idle_sender = record {
  link_id = replicate 16 3;
  resource_hash = replicate 32 1;
  parts = (1 ∷ []) ∷ [];
  sent_parts = false ∷ [];
  map_hashes = (1 ∷ 2 ∷ 3 ∷ 4 ∷ []) ∷ [];
  expected_proof = replicate 32 2;
  advertisement_packet = default_packet;
  last_activity = 0;
  adv_sent = 0;
  last_part_sent = 0;
  max_retries = 2;
  retries_left = 2;
  status = advertised;
}

poll_gives_up_example : (poll (10 + 2 * 10) 10 (polled 2 10 10 idle_sender)).1 ≡ poll_failed
poll_gives_up_example = poll_gives_up 2 10 10 idle_sender refl (omega arith) refl
