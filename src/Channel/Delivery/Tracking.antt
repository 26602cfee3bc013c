-- ===== src/Channel/Delivery/Tracking.antt =====
-- The messages that a channel of crates/libs/styrene-rns/src/transport/channel.rs tracks, over every
-- sequence of its operations.
use styrene_rs.Base.{
  [], ℕ, ◌+◌, ◌%◌, ◌^◌, ◌<◌, ◌≡◌, refl, ◌≢◌, inl, inr, Bool, some, List, ◌∷◌, arith, ==_iff,
}
use styrene_rs.Base.Keys.{nat_key, lookup, insert, remove, lookup-insert, lookup-remove}
use styrene_rs.Channel.Envelope.{Envelope}
use styrene_rs.Channel.Delivery.{
  MessageState, sent, delivered, failed, Outlet, Channel, new, register_handler, remove_handler,
  mark_delivered, mark_failed, state, send, resend, receive,
}
use styrene_rs.Channel.Delivery.Effects.{receive_keeps, send_cases, resend_cases}

pub data ChannelOp {ℓ} (H : Type ℓ) : Type ℓ where
  registers : ℕ → H → ChannelOp H
  unregisters : ℕ → ChannelOp H
  sends : ℕ → List ℕ → ChannelOp H
  resends : ℕ → ChannelOp H
  receives : List ℕ → ChannelOp H
  acknowledges : ℕ → ChannelOp H
  gives_up : ℕ → ChannelOp H

-- Every message that waits for its acknowledgement is kept under its own number, and counts as sent.
pub record IsTracked {ℓ κ} {O : Type ℓ} {H : Type κ} (c : Channel O H) : Type 0 where
  pub in_range : c.next_sequence < 2 ^ 16
  pub waiting :
      (k : ℕ) (e : Envelope)
      → lookup k c.pending ≡ some e
      → (e.sequence ≡ k) × (lookup k c.states ≡ some sent)

module _ {ℓ κ} {O : Type ℓ} {H : Type κ} (out : Outlet O) (call : Envelope → H → H × Bool) where
  unfoldable pub step : ChannelOp H → Channel O H → Channel O H
  step (registers t h) c = (register_handler t h c).0
  step (unregisters id) c = (remove_handler id c).0
  step (sends t payload) c = (send out t payload c).0
  step (resends k) c = (resend out k c).0
  step (receives raw) c = (receive call raw c).0
  step (acknowledges k) c = mark_delivered k c
  step (gives_up k) c = mark_failed k c

  unfoldable pub run : List (ChannelOp H) → Channel O H → Channel O H
  run [] c = c
  run (op ∷ ops) c = run ops (step op c)

  send-IsTracked :
      (t : ℕ) (payload : List ℕ) (c : Channel O H)
      → IsTracked c
      → IsTracked (send out t payload c).0
  send-IsTracked t payload c v =
      let next : ℕ = (c.next_sequence + 1) % 2 ^ 16 in
      let small : next < 2 ^ 16 = omega arith in
      let e : Envelope = record { msg_type = t; sequence = c.next_sequence; payload = payload } in
      elim (send_cases out t payload c) [
        | inl (same, _) ↦ rw same v
        | inr (n, inl (p, s, _, _)) ↦ record {
          in_range = rw n small;
          waiting = λ k x. rw (p, s) (v.waiting k x);
        }
        | inr (n, inr (p, s, _)) ↦ record {
          in_range = rw n small;
          waiting = λ k x.
              rw (p, s)
                (ground (
                  arith,
                  v.waiting k x,
                  lookup-insert c.next_sequence k e c.pending,
                  lookup-insert c.next_sequence k sent c.states,
                  ==_iff c.next_sequence k,
                ));
        }
      ]

  resend-IsTracked : (k : ℕ) (c : Channel O H) → IsTracked c → IsTracked (resend out k c).0
  resend-IsTracked k c v =
      let (n, p, changed) = resend_cases out k c in
      elim changed [
        | inl same ↦ record {
          in_range = rw n v.in_range;
          waiting = λ j x. rw (p, same) (v.waiting j x);
        }
        | inr (_, s) ↦ record {
          in_range = rw n v.in_range;
          waiting = λ j x.
              rw (p, s)
                (ground (arith, v.waiting j x, lookup-insert k j sent c.states, ==_iff k j));
        }
      ]

  mark-IsTracked :
      (k : ℕ) (s : MessageState) (c : Channel O H)
      → IsTracked c
      → IsTracked (record c { states = insert k s c.states; pending = remove k c.pending })
  mark-IsTracked k s c v = record {
    in_range = v.in_range;
    waiting = λ j x h.
        ground (arith, v.waiting j x, lookup-insert k j s c.states, lookup-remove k j c.pending);
  }

  -- Every operation keeps the waiting messages in order.
  pub step-IsTracked : (op : ChannelOp H) (c : Channel O H) → IsTracked c → IsTracked (step op c)
  unfolding step
  step-IsTracked (registers t h) c v =
      unfold register_handler in record { in_range = v.in_range; waiting = v.waiting }
  step-IsTracked (unregisters id) c v =
      unfold remove_handler in record { in_range = v.in_range; waiting = v.waiting }
  step-IsTracked (sends t payload) c v = send-IsTracked t payload c v
  step-IsTracked (resends k) c v = resend-IsTracked k c v
  step-IsTracked (receives raw) c v =
      let (n, p, s) = receive_keeps call raw c in
      record { in_range = rw n v.in_range; waiting = λ k e. rw (p, s) (v.waiting k e) }
  step-IsTracked (acknowledges k) c v = unfold mark_delivered in mark-IsTracked k delivered c v
  step-IsTracked (gives_up k) c v = unfold mark_failed in mark-IsTracked k failed c v

  run_keeps : (ops : List (ChannelOp H)) (c : Channel O H) → IsTracked c → IsTracked (run ops c)
  unfolding run
  run_keeps [] c v = v
  run_keeps (op ∷ ops) c v = run_keeps ops (step op c) (step-IsTracked op c v)

  no_entry : (k : ℕ) (e : Envelope) → lookup k [] ≢ some e
  unfolding lookup
  no_entry k e h = cc

  -- After any operations on a new channel, whatever the outlet answers, every message that waits
  -- for its acknowledgement is kept under its own sequence number and counts as sent, and the
  -- next number is a 16-bit one.
  pub run-IsTracked : (outlet : O) (ops : List (ChannelOp H)) → IsTracked (run ops (new outlet))
  run-IsTracked outlet ops =
      run_keeps ops (new outlet)
        (record { in_range = omega arith; waiting = λ k e h. absurd (no_entry k e h) })

  -- The operation does not decide the fate of the number: it neither takes it for a message nor marks it.
  abbrev pub LeavesAlone : ℕ → ChannelOp H → Channel O H → Type 0
  LeavesAlone k (sends t payload) c = c.next_sequence ≢ k
  LeavesAlone k (acknowledges j) c = j ≢ k
  LeavesAlone k (gives_up j) c = j ≢ k
  LeavesAlone k (registers t h) c = Unit
  LeavesAlone k (unregisters id) c = Unit
  LeavesAlone k (resends j) c = Unit
  LeavesAlone k (receives raw) c = Unit

  same_states : (k : ℕ) (c c' : Channel O H) → c'.states ≡ c.states → state k c' ≡ state k c
  unfolding state
  same_states k c c' h = rw (state, h) refl

  other_state :
      (k j : ℕ) (s : MessageState) (c c' : Channel O H)
      → c'.states ≡ insert j s c.states
      → j ≢ k
      → state k c' ≡ state k c
  unfolding state
  other_state k j s c c' h ne =
      rw (state, h) (ground (arith, lookup-insert j k s c.states, ==_iff j k))

  insert_again :
      (k j : ℕ) (c c' : Channel O H)
      → c'.states ≡ insert j sent c.states
      → lookup j c.states ≡ some sent
      → state k c' ≡ state k c
  unfolding state
  insert_again k j c c' h already =
      rw (state, h) (ground (arith, lookup-insert j k sent c.states, ==_iff j k))

  send_leaves :
      (k t : ℕ) (payload : List ℕ) (c : Channel O H)
      → c.next_sequence ≢ k
      → state k (send out t payload c).0 ≡ state k c
  send_leaves k t payload c other = elim (send_cases out t payload c) [
    | inl (same, _) ↦ rw same refl
    | inr (n, inl (p, s, _, _)) ↦ same_states k c (send out t payload c).0 s
    | inr (n, inr (p, s, _)) ↦ other_state k c.next_sequence sent c (send out t payload c).0 s other
  ]

  -- A resend is of a message that already counts as sent.
  resend_leaves : (k j : ℕ) (c : Channel O H) → IsTracked c → state k (resend out j c).0 ≡ state k c
  resend_leaves k j c v =
      let (n, p, changed) = resend_cases out j c in
      elim changed [
        | inl same ↦ same_states k c (resend out j c).0 same
        | inr ((e, present), s) ↦ insert_again k j c (resend out j c).0 s (v.waiting j e present).1
      ]

  -- In a channel whose waiting messages are in order, the state of a sequence number changes
  -- only where a send takes the number for a new message or where the number is marked as
  -- delivered or failed: no resend and no receive revives it.
  pub state-step :
      (k : ℕ) (op : ChannelOp H) (c : Channel O H)
      → IsTracked c
      → LeavesAlone k op c
      → state k (step op c) ≡ state k c
  unfolding step
  state-step k (registers t h) c v alone = unfold register_handler state in refl
  state-step k (unregisters id) c v alone = unfold remove_handler state in refl
  state-step k (sends t payload) c v alone = send_leaves k t payload c alone
  state-step k (resends j) c v alone = resend_leaves k j c v
  state-step k (receives raw) c v alone =
      let (n, p, s) = receive_keeps call raw c in same_states k c (receive call raw c).0 s
  state-step k (acknowledges j) c v alone =
      other_state k j delivered c (mark_delivered j c) (unfold mark_delivered in refl) alone
  state-step k (gives_up j) c v alone =
      other_state k j failed c (mark_failed j c) (unfold mark_failed in refl) alone
