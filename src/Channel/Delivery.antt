-- ===== src/Channel/Delivery.antt =====
-- crates/libs/styrene-rns/src/transport/channel.rs: the channel, its handlers and the messages it
-- tracks. `O` is the outlet it sends by, with its operations; `H` is the state of a handler, and
-- `call` runs one: it may change, and it answers whether it took the envelope.
pub mod Effects
pub mod Tracking
use styrene_rs.Base.{
  [], ℕ, ◌+◌, ◌%◌, ◌^◌, Bool, true, false, not, ◌||◌, Option, none, some, List, ◌∷◌, ◌++◌, ltb,
  ◌==◌ as nat_eq, if◌then◌else◌, length, Result, ok, err,
}
use styrene_rs.Base.Keys.{nat_key, Map, lookup, insert, remove}
use styrene_rs.Base.Retain.{remove_all}
use styrene_rs.Channel.Envelope.{
  ChannelError, no_handler, payload_too_large, invalid_frame, Envelope, pack, unpack,
}

pub data MessageState : Type 0 where
  fresh sent delivered failed : MessageState

-- The trait `ChannelOutlet`, as far as a channel uses it.
pub record Outlet {ℓ} (O : Type ℓ) : Type ℓ where
  pub send_raw : List ℕ → O → O × Result ChannelError (Unit {0})
  pub resend_raw : List ℕ → O → O × Result ChannelError (Unit {0})
  pub mdu : O → ℕ

pub record RegisteredHandler {ℓ} (H : Type ℓ) : Type ℓ where
  pub id : ℕ
  pub handler : H

pub record Channel {ℓ κ} (O : Type ℓ) (H : Type κ) : Type (ℓ ⊔ κ) where
  pub outlet : O
  pub next_sequence : ℕ
  pub next_handler_id : ℕ
  pub handlers : Map ℕ (List (RegisteredHandler H))
  pub pending : Map ℕ Envelope
  pub states : Map ℕ MessageState

abbrev pub new {ℓ κ} : {O : Type ℓ} {H : Type κ} → O → Channel O H
new outlet = record {
  outlet = outlet;
  next_sequence = 0;
  next_handler_id = 0;
  handlers = [];
  pending = [];
  states = [];
}

module _ {κ} {H : Type κ} where
  abbrev pub or_default : Option (List (RegisteredHandler H)) → List (RegisteredHandler H)
  or_default none = []
  or_default (some l) = l

  -- `Vec::retain` of the handlers with another identifier.
  unfoldable pub retain_others : ℕ → List (RegisteredHandler H) → List (RegisteredHandler H)
  retain_others id [] = []
  retain_others id (r ∷ rs) =
      if nat_eq r.id id then retain_others id rs else r ∷ retain_others id rs

  -- The loop over the handlers of every type: what each type keeps, the types that keep none, and
  -- whether some type lost one.
  unfoldable pub remove_loop :
      ℕ → Map ℕ (List (RegisteredHandler H)) → Map ℕ (List (RegisteredHandler H)) × List ℕ × Bool
  remove_loop id [] = ([], [], false)
  remove_loop id ((msg_type, rs) ∷ m) =
      let (kept, empty, removed) = remove_loop id m in
      let rs' = retain_others id rs in
      (
        (msg_type, rs') ∷ kept,
        if nat_eq (length rs') 0 then msg_type ∷ empty else empty,
        not (nat_eq (length rs') (length rs)) || removed,
      )

  module _ (call : Envelope → H → H × Bool) where
    -- The handlers of a type, asked in order until one takes the envelope.
    unfoldable pub dispatch :
        Envelope → List (RegisteredHandler H) → List (RegisteredHandler H) × Bool
    dispatch envelope [] = ([], false)
    dispatch envelope (r ∷ rs) =
        let (handler, took) = call envelope r.handler in
        let r' = record r { handler = handler } in
        let (rest, found) = dispatch envelope rs in
        if took then (r' ∷ rs, true) else (r' ∷ rest, found)

module _ {ℓ κ} {O : Type ℓ} {H : Type κ} where
  unfoldable pub register_handler : ℕ → H → Channel O H → Channel O H × ℕ
  register_handler msg_type handler c =
      let registered = or_default (lookup msg_type c.handlers) in
      (
        record c {
          next_handler_id = (c.next_handler_id + 1) % 2 ^ 64;
          handlers =
              insert msg_type
                (registered ++ (record { id = c.next_handler_id; handler = handler } ∷ []))
                c.handlers;
        },
        c.next_handler_id,
      )

  unfoldable pub remove_handler : ℕ → Channel O H → Channel O H × Bool
  remove_handler id c =
      let (kept, empty, removed) = remove_loop id c.handlers in
      (record c { handlers = remove_all empty kept }, removed)

  unfoldable pub mark_delivered : ℕ → Channel O H → Channel O H
  mark_delivered sequence c = record c {
    states = insert sequence delivered c.states;
    pending = remove sequence c.pending;
  }

  unfoldable pub mark_failed : ℕ → Channel O H → Channel O H
  mark_failed sequence c = record c {
    states = insert sequence failed c.states;
    pending = remove sequence c.pending;
  }

  unfoldable pub state : ℕ → Channel O H → MessageState
  state sequence c = elim (lookup sequence c.states) [ none ↦ fresh | some s ↦ s ]

  module _ (out : Outlet O) where
    -- The number is taken before the outlet is asked, and is not given back where that fails.
    unfoldable pub send : ℕ → List ℕ → Channel O H → Channel O H × Result ChannelError ℕ
    send msg_type payload c =
        if ltb (out.mdu c.outlet) (length payload + 6)
        then (c, err payload_too_large)
        else (let sequence = c.next_sequence in
            let envelope : Envelope = record {
              msg_type = msg_type;
              sequence = sequence;
              payload = payload;
            } in
            let (outlet, answer) = out.send_raw (pack envelope) c.outlet in
            let c' = record c { outlet = outlet; next_sequence = (sequence + 1) % 2 ^ 16 } in
            elim answer [
              | err e ↦ (c', err e)
              | ok _ ↦ (
                record c' {
                  pending = insert sequence envelope c.pending;
                  states = insert sequence sent c.states;
                },
                ok sequence,
              )
            ])

    unfoldable pub resend : ℕ → Channel O H → Channel O H × Result ChannelError (Unit {0})
    resend sequence c = elim (lookup sequence c.pending) [
      | none ↦ (c, err invalid_frame)
      | some envelope ↦
          let (outlet, answer) = out.resend_raw (pack envelope) c.outlet in
          elim answer [
            | err e ↦ (record c { outlet = outlet }, err e)
            | ok _ ↦ (record c { outlet = outlet; states = insert sequence sent c.states }, ok tt)
          ]
    ]

  module _ (call : Envelope → H → H × Bool) where
    unfoldable pub receive : List ℕ → Channel O H → Channel O H × Result ChannelError Bool
    receive raw c = elim (unpack raw) [
      | err e ↦ (c, err e)
      | ok envelope ↦ elim (lookup envelope.msg_type c.handlers) [
        | none ↦ (c, err no_handler)
        | some rs ↦
            let (rs', took) = dispatch call envelope rs in
            (record c { handlers = insert envelope.msg_type rs' c.handlers }, ok took)
      ]
    ]
