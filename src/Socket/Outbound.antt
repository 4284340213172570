-- ===== src/Socket/Outbound.antt =====
-- `sendFrame` and `trySend` of client.go: the frames of one connection, numbered, queued and
-- written.
use super_ops.Base.{
  ℕ, ◌+◌, ◌≡◌, ◌≤◌, ◌<◌, refl, sym, ap, subst, Bool, true, false, List, [], ◌∷◌, ◌++◌, ltb, leb,
  if◌then◌else◌, arith, length, length-append, Bool-cases, inl, inr,
}

abbrev pub send_buffer : ℕ
send_buffer = 256

abbrev pub max_consecutive_drops : ℕ
max_consecutive_drops = 32

-- A frame is its number. `written` is what has gone out, oldest first, as is `send`, the buffered
-- channel; `lost` are the numbers that were dropped. `unwritten` are those that were taken off the channel
-- and failed to be written, which ends the pump.
pub record Client : Type 0 where
  pub seq : ℕ
  pub send : List ℕ
  pub drops : ℕ
  pub is_killed : Bool
  pub written : List ℕ
  pub lost : ℕ
  pub unwritten : ℕ
  pub has_ended : Bool

abbrev pub new_client : Client
new_client = record {
  seq = 0;
  send = [];
  drops = 0;
  is_killed = false;
  written = [];
  lost = 0;
  unwritten = 0;
  has_ended = false;
}

unfoldable pub try_send : ℕ → Client → Client
try_send frame c =
    if ltb (length c.send) send_buffer
    then record c { send = c.send ++ frame ∷ []; drops = 0 }
    else record c {
      drops = c.drops + 1;
      lost = c.lost + 1;
      is_killed = if leb max_consecutive_drops (c.drops + 1) then true else c.is_killed;
    }

-- The number is taken and the frame is queued under one lock.
unfoldable pub send_frame : Client → Client
unfolding try_send
send_frame c = try_send (c.seq + 1) (record c { seq = c.seq + 1 })

-- One write of the write pump, and whether it succeeds.
abbrev pub written_out : Bool → ℕ → Client → Client
written_out true frame c = record c { written = c.written ++ frame ∷ [] }
written_out false frame c = record c { unwritten = c.unwritten + 1; has_ended = true }

-- One round of the write pump.
abbrev pub taken : Bool → List ℕ → Client → Client
taken success [] c = c
taken success (frame ∷ rest) c = written_out success frame (record c { send = rest })

unfoldable pub write_pump : Bool → Client → Client
write_pump success c = if c.has_ended then c else taken success c.send c

-- The client after any sends and writes.
pub data Sent : Client → Type 0 where
  connected : Sent new_client
  sends : {c : Client} → Sent c → Sent (send_frame c)
  writes : {c : Client} → Sent c → (success : Bool) → Sent (write_pump success c)

-- The numbers rise, the highest being at most `top`.
abbrev pub RisesTo : ℕ → ℕ → List ℕ → Type 0
RisesTo top low [] = low ≤ top
RisesTo top low (x ∷ xs) = (low < x) × RisesTo top x xs

-- What has gone out and what is queued after it is in rising order, the queue is within the buffer, the
-- frames that are out, queued, lost and unwritten add up to the last number, none is unwritten but where
-- the pump has ended, and then one, and 32 losses in a row have killed the connection.
pub record IsOrdered (c : Client) : Type 0 where
  pub rises : RisesTo c.seq 0 (c.written ++ c.send)
  pub fits : length c.send ≤ send_buffer
  pub counts : length c.written + length c.send + c.lost + c.unwritten ≡ c.seq
  pub fails : c.unwritten ≡ (if c.has_ended then 1 else 0)
  pub kills : max_consecutive_drops ≤ c.drops → c.is_killed ≡ true

RisesTo-append :
    (top low : ℕ) (xs : List ℕ) → RisesTo top low xs → RisesTo (top + 1) low (xs ++ (top + 1) ∷ [])
RisesTo-append top low [] h = (omega arith, omega arith)
RisesTo-append top low (x ∷ xs) (p, h) = (p, RisesTo-append top x xs h)

RisesTo-more : (top low : ℕ) (xs : List ℕ) → RisesTo top low xs → RisesTo (top + 1) low xs
RisesTo-more top low [] h = omega arith
RisesTo-more top low (x ∷ xs) (p, h) = (p, RisesTo-more top x xs h)

append_assoc : (xs ys zs : List ℕ) → (xs ++ ys) ++ zs ≡ xs ++ (ys ++ zs)
append_assoc [] ys zs = refl
append_assoc (x ∷ xs) ys zs = ap (λ l. x ∷ l) (append_assoc xs ys zs)

send_frame-IsOrdered : (c : Client) → IsOrdered c → IsOrdered (send_frame c)
unfolding send_frame
send_frame-IsOrdered c h = elim (Bool-cases (ltb (length c.send) send_buffer)) [
  | inl e ↦ rw e (record {
    rises =
        subst (RisesTo (c.seq + 1) 0) (append_assoc c.written c.send ((c.seq + 1) ∷ []))
          (RisesTo-append c.seq 0 (c.written ++ c.send) h.rises);
    fits = ground (arith, length-append c.send ((c.seq + 1) ∷ []));
    counts = omega (arith, length-append c.send ((c.seq + 1) ∷ []), h.counts);
    fails = h.fails;
    kills = λ k. absurd (omega arith);
  })
  | inr e ↦ rw e (record {
    rises = RisesTo-more c.seq 0 (c.written ++ c.send) h.rises;
    fits = h.fits;
    counts = omega (arith, h.counts);
    fails = h.fails;
    kills = λ k. ground arith;
  })
]

RisesTo-without :
    (top low x : ℕ) (xs ys : List ℕ) → RisesTo top low (xs ++ x ∷ ys) → RisesTo top low (xs ++ ys)
RisesTo-without top low x [] [] (p, h) = omega (arith, p, h)
RisesTo-without top low x [] (y ∷ ys) (p, (q, h)) = (omega (arith, p, q), h)
RisesTo-without top low x (z ∷ xs) ys (p, h) = (p, RisesTo-without top z x xs ys h)

taken-IsOrdered :
    (success : Bool) (s : List ℕ) (c : Client)
    → c.has_ended ≡ false
    → c.send ≡ s
    → IsOrdered c
    → IsOrdered (taken success s c)
taken-IsOrdered success [] c going e h = h
taken-IsOrdered true (frame ∷ rest) c going e h = record {
  rises =
      subst (RisesTo c.seq 0) (sym (append_assoc c.written (frame ∷ []) rest)) (rw e at h.rises);
  fits = let k = rw e at h.fits in omega (arith, k);
  counts = let k = rw e at h.counts in omega (arith, k, length-append c.written (frame ∷ []));
  fails = h.fails;
  kills = h.kills;
}
taken-IsOrdered false (frame ∷ rest) c going e h = record {
  rises = RisesTo-without c.seq 0 frame c.written rest (rw e at h.rises);
  fits = let k = rw e at h.fits in omega (arith, k);
  counts = let k = rw e at h.counts in omega (arith, k);
  fails = let k = rw going at h.fails in omega (arith, k);
  kills = h.kills;
}

write_pump-IsOrdered :
    (success : Bool) (c : Client) → IsOrdered c → IsOrdered (write_pump success c)
unfolding write_pump
write_pump-IsOrdered success c h =
    let after = λ (ended : Bool). if ended then c else taken success c.send c in
    elim (Bool-cases c.has_ended) [
      | inl ended ↦ subst (λ t. IsOrdered (after t)) (sym ended) h
      | inr going ↦
          subst (λ t. IsOrdered (after t)) (sym going)
            (taken-IsOrdered success c.send c going refl h)
    ]

-- Through any sends and any writes of a connection, failed ones included: what has gone out, and what is
-- queued after it, is numbered in strictly rising order, the queue is within its 256 frames, the frames
-- that are out, queued, lost, and taken off the queue without getting out add up to the last number, the
-- latter being the one whose write has ended the pump, if it has, and 32 losses in a row have killed the
-- connection.
pub Sent-IsOrdered : {c : Client} → Sent c → IsOrdered c
Sent-IsOrdered connected = record {
  rises = omega arith;
  fits = omega arith;
  counts = omega arith;
  fails = refl;
  kills = λ k. absurd (omega arith);
}
Sent-IsOrdered (sends {c} h) = send_frame-IsOrdered c (Sent-IsOrdered h)
Sent-IsOrdered (writes {c} h success) = write_pump-IsOrdered success c (Sent-IsOrdered h)
