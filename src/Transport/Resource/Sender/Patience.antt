-- ===== src/Transport/Resource/Sender/Patience.antt =====
-- A sender that nobody answers gives up.
use native.Mathlib.Nat.{suc-mul}
use styrene_rs.Base.{ℕ, zero, suc, ◌+◌, ◌*◌, ◌≤◌, ◌≡◌, ap, ◌∙◌, sym, true, arith}
use styrene_rs.Transport.Resource.{advertised, transferring, awaiting_proof}
use styrene_rs.Transport.Resource.Sender.{ResourceSender}
use styrene_rs.Transport.Resource.Sender.Answering.{in_progress}
use styrene_rs.Transport.Resource.Sender.Polling.{poll, poll_failed}

-- The instant from which a sender waits.
abbrev pub waits_since : ResourceSender → ℕ
waits_since s = elim s.status [
  | advertised ↦ s.adv_sent
  | transferring ↦ s.last_activity
  | awaiting_proof ↦ s.last_part_sent
  | _ ↦ 0
]

-- So many polls, an interval apart.
unfoldable pub polled : ℕ → ℕ → ℕ → ResourceSender → ResourceSender
unfolding poll
polled zero now interval s = s
polled (suc n) now interval s = polled n (now + interval) interval (poll now interval s).0

poll_again :
    (now interval k : ℕ) (s : ResourceSender)
    → in_progress s.status ≡ true
    → waits_since s + interval ≤ now
    → s.retries_left ≡ suc k
    → let s' = (poll now interval s).0 in
      (in_progress s'.status ≡ true) × (waits_since s' ≡ now) × (s'.retries_left ≡ k)
unfolding poll
poll_again now interval k s going due left = ground arith

poll_last :
    (now interval : ℕ) (s : ResourceSender)
    → in_progress s.status ≡ true
    → waits_since s + interval ≤ now
    → s.retries_left ≡ 0
    → (poll now interval s).1 ≡ poll_failed
unfolding poll
poll_last now interval s going due left = ground arith

-- A sender in progress that nobody answers, polled first when it is due and then an interval
-- apart, has failed after as many polls as it has retries left and one more.
pub poll_gives_up :
    (n now interval : ℕ) (s : ResourceSender)
    → in_progress s.status ≡ true
    → waits_since s + interval ≤ now
    → s.retries_left ≡ n
    → (poll (now + n * interval) interval (polled n now interval s)).1 ≡ poll_failed
unfolding polled
poll_gives_up zero now interval s going due left =
    poll_last (now + 0 * interval) interval s going (omega arith) left
poll_gives_up (suc n) now interval s going due left =
    let s' : ResourceSender = (poll now interval s).0 in
    let (going', since, left') = poll_again now interval n s going due left in
    let later : now + interval + n * interval ≡ now + suc n * interval =
      omega (arith, suc-mul n interval) in
    ap (λ t. (poll t interval (polled n (now + interval) interval s')).1) (sym later)
    ∙ poll_gives_up n (now + interval) interval s' going' (omega arith) left'
