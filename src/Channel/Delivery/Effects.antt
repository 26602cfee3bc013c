-- ===== src/Channel/Delivery/Effects.antt =====
-- What the operations of a channel of crates/libs/styrene-rns/src/transport/channel.rs change.
use styrene_rs.Base.{
  ℕ, ◌+◌, ◌%◌, ◌^◌, ◌≡◌, refl, ◌⊎◌, inl, inr, Bool, some, List, arith, ltb, Bool-cases,
  Option-cases, length, ok, err, Result-cases,
}
use styrene_rs.Base.Keys.{nat_key, lookup, insert}
use styrene_rs.Channel.Envelope.{ChannelError, Envelope, pack, unpack}
use styrene_rs.Channel.Delivery.{sent, Outlet, Channel, send, resend, receive}

module _ {ℓ κ} {O : Type ℓ} {H : Type κ} (call : Envelope → H → H × Bool) where
  pub receive_keeps :
      (raw : List ℕ) (c : Channel O H)
      → let c' = (receive call raw c).0 in
        (c'.next_sequence ≡ c.next_sequence) × (c'.pending ≡ c.pending) × (c'.states ≡ c.states)
  unfolding receive
  receive_keeps raw c = elim (Result-cases (unpack raw)) [
    | inr (e, bad) ↦ ground (arith, bad)
    | inl (envelope, good) ↦ elim (Option-cases (lookup envelope.msg_type c.handlers)) [
      | inl absent ↦ ground (arith, good, absent)
      | inr (rs, present) ↦ ground (arith, good, present)
    ]
  ]

module _ {ℓ κ} {O : Type ℓ} {H : Type κ} (out : Outlet O) where
  -- A send either leaves everything, or only takes the number, or takes it and tracks the message.
  pub send_cases :
      (t : ℕ) (payload : List ℕ) (c : Channel O H)
      → let (c', answer) = send out t payload c in
        let next : ℕ = (c.next_sequence + 1) % 2 ^ 16 in
        let e : Envelope = record { msg_type = t; sequence = c.next_sequence; payload = payload } in
        ((c' ≡ c) × (answer ≡ err ChannelError.payload_too_large))
        ⊎ ((c'.next_sequence ≡ next)
            × (((c'.pending ≡ c.pending)
                  × (c'.states ≡ c.states)
                  × (x : ChannelError) × (answer ≡ err x))
                ⊎ ((c'.pending ≡ insert c.next_sequence e c.pending)
                    × (c'.states ≡ insert c.next_sequence sent c.states)
                    × (answer ≡ ok c.next_sequence))))
  unfolding send
  send_cases t payload c =
      let e : Envelope = record { msg_type = t; sequence = c.next_sequence; payload = payload } in
      elim (Bool-cases (ltb (out.mdu c.outlet) (length payload + 6))) [
        | inl big ↦ rw big (inl (refl, refl))
        | inr fits ↦ elim (Result-cases (out.send_raw (pack e) c.outlet).1) [
          | inl (u, good) ↦ rw (fits, good) (inr (refl, inr (refl, refl, refl)))
          | inr (x, bad) ↦ rw (fits, bad) (inr (refl, inl (refl, refl, x, refl)))
        ]
      ]

  -- A resend changes no number and no waiting message; it marks only a waiting message as sent.
  pub resend_cases :
      (k : ℕ) (c : Channel O H)
      → let c' = (resend out k c).0 in
        (c'.next_sequence ≡ c.next_sequence)
        × (c'.pending ≡ c.pending)
        × ((c'.states ≡ c.states)
            ⊎ (((e : Envelope) × (lookup k c.pending ≡ some e))
                × (c'.states ≡ insert k sent c.states)))
  unfolding resend
  resend_cases k c = elim (Option-cases (lookup k c.pending)) [
    | inl absent ↦ rw (resend, absent) (refl, refl, inl refl)
    | inr (e, present) ↦ elim (Result-cases (out.resend_raw (pack e) c.outlet).1) [
      | inr (x, bad) ↦ rw (resend, present, bad) (refl, refl, inl refl)
      | inl (u, good) ↦
          let same : resend out k c ≡ (
            record c {
              outlet = (out.resend_raw (pack e) c.outlet).0;
              states = insert k sent c.states;
            },
            ok tt,
          ) =
            rw (resend, present, good) refl in
          rw same (refl, refl, inr ((e, present), refl))
    ]
  ]
