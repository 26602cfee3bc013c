-- ===== src/Transport/Resource/Utils/Packets.antt =====
-- A packet that is not encrypted holds what it was built of.
use styrene_rs.Base.{
  [], ℕ, ◌+◌, ◌≤◌, ◌≡◌, refl, ap, ◌∙◌, false, List, arith, ltb, length, le→ltb, Result, ok, err,
  err,
}
use styrene_rs.Error.{RnsError}
use styrene_rs.Buffer.StaticBuffer
use styrene_rs.Buffer.StaticBuffer.{StaticBuffer, as_slice, reset, write}
use styrene_rs.Buffer.StaticBuffer.Refinement.{IsValid, new-IsValid, write-append_within}
use styrene_rs.Buffer.Contents.{append_within}
use styrene_rs.Packet.Header.{PacketType}
use styrene_rs.Packet.Context.{PacketContext}
use styrene_rs.Packet.Codec.{Packet, packet_mdu}
use styrene_rs.Transport.Link.Cipher.{LinkCipher}
use styrene_rs.Transport.Resource.Utils.{
  should_encrypt, fill_link_packet_data, build_link_packet, link_packet,
}

abbrev blank : StaticBuffer
blank = StaticBuffer.new packet_mdu

written :
    (bytes : List ℕ)
    → length bytes ≤ packet_mdu
    → (as_slice (write packet_mdu (reset blank) bytes).0 ≡ bytes)
      × ((write packet_mdu (reset blank) bytes).1 ≡ ok (length bytes))
unfolding reset
written bytes fits =
    let valid = new-IsValid packet_mdu in
    let v : IsValid packet_mdu (reset blank) = record {
      full_size = valid.full_size;
      within = omega arith;
    } in
    let room : ltb packet_mdu (0 + length bytes) ≡ false = le→ltb _ _ (omega arith) in
    let promised : append_within packet_mdu [] bytes ≡ (bytes, ok (length bytes)) = rw room refl in
    let e = write-append_within packet_mdu (reset blank) bytes v ∙ promised in
    (ap (λ p. p.0) e, ap (λ p. p.1) e)

filled_plain :
    (link : LinkCipher) (iv : List ℕ) (packet_type : PacketType) (context : PacketContext)
    (bytes : List ℕ)
    → should_encrypt packet_type context ≡ false
    → (write packet_mdu (reset blank) bytes).1 ≡ ok (length bytes)
    → fill_link_packet_data link iv packet_type context bytes blank
      ≡ ((write packet_mdu (reset blank) bytes).0, ok tt)
unfolding fill_link_packet_data
filled_plain link iv packet_type context bytes plain done = rw (plain, done) refl

pub build_plain :
    (link : LinkCipher) (iv : List ℕ) (packet_type : PacketType) (context : PacketContext)
    (bytes : List ℕ)
    → should_encrypt packet_type context ≡ false
    → length bytes ≤ packet_mdu
    → (packet : Packet) × (build_link_packet link iv packet_type context bytes ≡ ok packet)
      × (as_slice packet.body ≡ bytes)
unfolding build_link_packet
build_plain link iv packet_type context bytes plain fits =
    let (kept, done) = written bytes fits in
    (
      link_packet link packet_type context (write packet_mdu (reset blank) bytes).0,
      ap
          (λ (p : StaticBuffer × Result RnsError (Unit {0})). elim p.1 [
            | ok _ ↦ ok (link_packet link packet_type context p.0)
            | err problem ↦ err problem
          ])
          (filled_plain link iv packet_type context bytes plain done),
      kept,
    )
