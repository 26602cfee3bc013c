-- ===== src/Transport/Resource/Manager.antt =====
-- All transfers of a node (transport/resource/manager.rs). The map of the incoming transfers is gone
-- through in the order of its list; the source's `HashMap` has some order.
pub mod Polling
pub mod Parts
pub mod Handlers
pub mod Retries
use styrene_rs.Base.{[], ℕ, ◌*◌, ◌^◌, Bool, none, some, List, if◌then◌else◌}
use styrene_rs.Base.Keys.{bytes_key, Map, lookup, insert, remove}
use styrene_rs.Hash.{Hash, AddressHash}
use styrene_rs.Transport.Resource.Sender
use styrene_rs.Transport.Resource.Sender.{ResourceSender}
use styrene_rs.Transport.Resource.Sender.Polling.{mark_advertised}
use styrene_rs.Transport.Resource.Sender.Answering
use styrene_rs.Transport.Resource.Receiver
use styrene_rs.Transport.Resource.Receiver.{ResourceReceiver, ResourceProgress}
use styrene_rs.Transport.Resource.Receiver.Assembly.{ResourcePayload}

-- `ResourceComplete` has the fields of a payload.
pub data ResourceEventKind : Type 0 where
  progressed : ResourceProgress → ResourceEventKind
  inbound_complete : ResourcePayload → ResourceEventKind
  outbound_complete : ResourceEventKind

pub record ResourceEvent : Type 0 where
  pub hash : Hash
  pub link_id : AddressHash
  pub kind : ResourceEventKind

pub record ResourceManager : Type 0 where
  pub pending_outgoing : Map Hash ResourceSender
  pub outgoing : Map Hash ResourceSender
  pub incoming : Map Hash ResourceReceiver
  pub events : List ResourceEvent
  pub retry_interval : ℕ
  pub retry_limit : ℕ

unfoldable pub new_with_config : ℕ → ℕ → ResourceManager
new_with_config retry_interval retry_limit = record {
  pending_outgoing = [];
  outgoing = [];
  incoming = [];
  events = [];
  retry_interval = retry_interval;
  retry_limit = retry_limit;
}

-- `new` and `Default::default`: two seconds, five retries.
unfoldable pub new : ResourceManager
unfolding new_with_config
new = new_with_config (2 * 10 ^ 9) 5

unfoldable pub confirm_outbound_dispatch : ℕ → Hash → Bool → ResourceManager → ResourceManager
unfolding lookup insert remove mark_advertised
confirm_outbound_dispatch now hash sent m = elim (lookup hash m.pending_outgoing) [
  | none ↦ m
  | some sender ↦
      let removed = record m { pending_outgoing = remove hash m.pending_outgoing } in
      if sent
      then record removed {
        outgoing = insert hash (mark_advertised now m.retry_limit sender) m.outgoing;
      }
      else removed
]

unfoldable pub drain_events : ResourceManager → ResourceManager × List ResourceEvent
drain_events m = (record m { events = [] }, m.events)
