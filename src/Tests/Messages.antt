-- ===== src/Tests/Messages.antt =====
-- The envelopes of styrene-mesh and the channels of styrene-rns at concrete inputs.
use styrene_rs.Base.{
  [], ℕ, suc, ◌≡◌, refl, Bool, true, false, Option, some, List, ◌∷◌, ◌++◌, arith, take, replicate,
  ok,
}
use styrene_rs.Base.Bytes.{bytes_eq}
use styrene_rs.Base.Keys.{lookup, insert}
use styrene_rs.Mesh.MessageType.{from_byte, page_request}
use styrene_rs.Mesh.Wire
use styrene_rs.Mesh.Wire.{StyreneMessage}
use styrene_rs.Mesh.Wire.RoundTrip.{IsValid as MessageIsValid, encode-decode_message}
use styrene_rs.Channel.Envelope.{Envelope, pack, unpack}
use styrene_rs.Channel.Envelope.RoundTrip.{unpack-pack}
use styrene_rs.Channel.StreamData.{StreamDataMessage}
use styrene_rs.Channel.Delivery
use styrene_rs.Channel.Delivery.{Outlet, delivered, state}
use styrene_rs.Channel.Delivery.Tracking.{
  ChannelOp, sends, resends, acknowledges, step, run, IsTracked, run-IsTracked, state-step,
}

abbrev page : StyreneMessage
page = Wire.with_request_id page_request (replicate 16 9) (1 ∷ 2 ∷ [])

page-IsValid : MessageIsValid false page
page-IsValid = record { this_version = refl; known_type = refl; id_size = refl }

abbrev page_bytes : List ℕ
page_bytes =
    115 ∷ 116 ∷ 121 ∷ 114 ∷ 101 ∷ 110 ∷ 101 ∷ 46 ∷ 105 ∷ 111 ∷ 58 ∷ 2 ∷ 0x49 ∷ 9 ∷ 9 ∷ 9 ∷ 9 ∷ 9 ∷ 9
    ∷ 9 ∷ 9 ∷ 9 ∷ 9 ∷ 9 ∷ 9 ∷ 9 ∷ 9 ∷ 9 ∷ 9 ∷ 1 ∷ 2 ∷ []

page_bytes_read : Wire.decode false page_bytes ≡ ok page
unfolding Wire.decode from_byte bytes_eq
page_bytes_read = refl

encode-decode_message_example : (Wire.encode page ≡ page_bytes) × MessageIsValid false page
encode-decode_message_example =
    encode-decode_message false page_bytes page (ground arith) page_bytes_read

abbrev hello : Envelope
hello = record { msg_type = 0x0102; sequence = 7; payload = 5 ∷ 6 ∷ [] }

unpack-pack_example : unpack (pack hello ++ (9 ∷ [])) ≡ ok hello
unpack-pack_example =
    unpack-pack hello (9 ∷ [])
      (record { type_size = omega arith; sequence_size = omega arith; payload_size = omega arith })

abbrev hello_bytes : List ℕ
hello_bytes = 1 ∷ 2 ∷ 0 ∷ 7 ∷ 0 ∷ 2 ∷ 5 ∷ 6 ∷ 9 ∷ []

hello_read : unpack hello_bytes ≡ ok hello
unfolding unpack
hello_read = refl

-- A stand-in for the decompressor, which repeats what it is given.
abbrev twice : ℕ → List ℕ → Option (List ℕ)
twice limit l = some (take limit (l ++ l))

abbrev last_part : StreamDataMessage
last_part = record { stream_id = 5; content = 1 ∷ 2 ∷ []; eof = true; compressed = true }

-- An outlet that keeps what it is sent, and a handler that takes everything.
abbrev outlet : Outlet (List (List ℕ))
outlet = record {
  send_raw = λ raw o. (raw ∷ o, ok tt);
  resend_raw = λ raw o. (raw ∷ o, ok tt);
  mdu = λ o. 100;
}

abbrev take_all : Envelope → ℕ → ℕ × Bool
take_all e count = (suc count, true)

abbrev operations : List (ChannelOp ℕ)
operations = sends 1 (5 ∷ []) ∷ sends 2 (6 ∷ []) ∷ resends 0 ∷ acknowledges 0 ∷ []

run-IsTracked_example : IsTracked (run outlet take_all operations (Delivery.new []))
run-IsTracked_example = run-IsTracked outlet take_all [] operations

state-step_example :
    let c = run outlet take_all operations (Delivery.new []) in
    state 0 (step outlet take_all (resends 0) c) ≡ state 0 c
state-step_example =
    let c = run outlet take_all operations (Delivery.new []) in
    state-step outlet take_all 0 (resends 0) c (run-IsTracked outlet take_all [] operations) tt

acknowledged_run : state 0 (run outlet take_all operations (Delivery.new [])) ≡ delivered
unfolding run step state Delivery.send Delivery.resend Delivery.mark_delivered insert lookup pack
acknowledged_run = refl
