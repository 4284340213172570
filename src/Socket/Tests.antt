-- ===== src/Socket/Tests.antt =====
-- Runs of the socket model on concrete input.
use super_ops.Base.{true, false, ℕ, ◌≡◌, ◌≤◌, ◌+◌, ◌*◌, refl, false, List, [], ◌∷◌, arith}
use super_ops.Socket.Bucket.{
  token, new_token_bucket, Budget, read_pump, charge_inbound, allow, refill, read_pump-rate,
}
use super_ops.Socket.Outbound.{
  connected, sends, writes, send_frame, try_send, write_pump, new_client, IsOrdered, Sent-IsOrdered,
}
use super_ops.Socket.Registry.{
  Client, new_hub, register, put, is_live, channel_targets, revoke_local, revoke_each, without,
  channel_targets-revoke_local,
}

-- The inbound budget of a chat connection at time 0.
abbrev chat : Budget
chat = record { bucket = new_token_bucket 5 20 0; strikes = 0 }

abbrev tight : Budget
tight = record { bucket = new_token_bucket 1 1 0; strikes = 0 }

-- With one token and one more each second, the second of three frames is dropped.
abbrev arrivals : List ℕ
arrivals = 0 ∷ 10 ∷ 1000000000 ∷ []

three_frames : (read_pump arrivals tight).processed ≡ 2
unfolding read_pump charge_inbound allow refill
three_frames = refl

read_pump-rate_example :
    let s = read_pump arrivals chat in
    s.processed * token + 0 * 5 ≤ 20 * token + s.budget.bucket.last * 5
read_pump-rate_example = read_pump-rate arrivals chat

one_written : (write_pump true (send_frame (send_frame new_client))).written ≡ 1 ∷ []
unfolding write_pump send_frame try_send
one_written = refl

-- The first frame goes out, the second fails, the third stays in the queue.
Sent-IsOrdered_example :
    IsOrdered (write_pump false (write_pump true (send_frame (send_frame (send_frame new_client)))))
Sent-IsOrdered_example =
    Sent-IsOrdered (writes (writes (sends (sends (sends connected))) true) false)

abbrev phone : Client
phone = record {
  address = 1;
  user_id = 7;
  conn_id = 1;
  workspaces = 3 ∷ [];
  subscriptions = 5 ∷ 6 ∷ [];
}

abbrev laptop : Client
laptop = record phone { address = 2; conn_id = 2 }

abbrev guest : Client
guest = record phone { address = 3; user_id = 8; conn_id = 3 }

laptop_is_new : is_live laptop ((register phone new_hub).clients) ≡ false
unfolding register put
laptop_is_new = refl

revoked : channel_targets 5 0 (revoke_local 7 5 (phone ∷ guest ∷ [])) ≡ guest ∷ []
unfolding channel_targets revoke_local revoke_each
revoked = refl

channel_targets-revoke_local_example :
    channel_targets 5 0 (revoke_local 7 5 (phone ∷ guest ∷ []))
    ≡ without 7 (channel_targets 5 0 (phone ∷ guest ∷ []))
channel_targets-revoke_local_example =
    channel_targets-revoke_local 7 5 0 (phone ∷ guest ∷ []) (λ e. absurd (omega arith))
      (λ e. absurd (omega arith))
