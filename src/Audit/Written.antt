-- ===== src/Audit/Written.antt =====
-- backend/internal/audit, service.go and verify.go: what the writer leaves verifies: after any sequence of batches and anchors `Verify` is clean.
use super_ops.Base.{
  ℕ, zero, suc, ◌+◌, ◌*◌, ◌/◌, ◌≤◌, ◌≡◌, refl, inl, inr, Bool, true, false, List, [], ◌∷◌, ◌++◌,
  arith, ltb, sym, subst, ◌∙◌, ap, Bool-cases, All,
}
use super_ops.Audit.{Bytes, Metadata, Entry, StoredEntry, Row, Outside}
use super_ops.Audit.Encoding.{canonical, canonical_json, chain_hash}
use super_ops.Audit.Chain.{
  Log, Fresh, new_log, encode_metadata, prepare, or_else, chain_entries, write_chained,
}
use super_ops.Audit.Verify.{rows_above, scan, take, verify_batch, walk, verify, anchors, advance}
use super_ops.Audit.Intact.{Linked, Chain, walk_rows-iff-Chain}

-- What the columns of audit_logs do to what is stored in them, and what Go's own normal forms are: a
-- uuid reads back in lower case, an address in its normal form, a time in whole microseconds, texts
-- as they were, and JSON as a document of the same value.
pub record ReadsBack (o : Outside) (read_back : StoredEntry → StoredEntry) : Type 0 where
  pub lowers_id : (e : StoredEntry) → (read_back e).id ≡ o.to_lower e.id
  pub lowers_actor : (e : StoredEntry) → (read_back e).actor_id ≡ o.to_lower e.actor_id
  pub keeps_action : (e : StoredEntry) → (read_back e).action ≡ e.action
  pub keeps_type : (e : StoredEntry) → (read_back e).resource_type ≡ e.resource_type
  pub keeps_resource : (e : StoredEntry) → (read_back e).resource_id ≡ e.resource_id
  pub keeps_value :
      (m : Metadata) (e : StoredEntry)
      → e.metadata ≡ encode_metadata o m
      → canonical_json o (read_back e).metadata ≡ canonical_json o e.metadata
  pub normalizes_ip : (e : StoredEntry) → (read_back e).ip_address ≡ o.normalize_ip e.ip_address
  pub truncates : (e : StoredEntry) → (read_back e).created_at ≡ e.created_at / 1000 * 1000
  pub lower_twice : (x : Bytes) → o.to_lower (o.to_lower x) ≡ o.to_lower x
  pub normalize_twice : (x : Bytes) → o.normalize_ip (o.normalize_ip x) ≡ o.normalize_ip x

-- An entry that the columns leave as it is, but for the spelling of its metadata.
pub record IsNormal (o : Outside) (e : StoredEntry) : Type 0 where
  pub id : o.to_lower e.id ≡ e.id
  pub actor : o.to_lower e.actor_id ≡ e.actor_id
  pub ip : o.normalize_ip e.ip_address ≡ e.ip_address
  pub time : e.created_at / 1000 * 1000 ≡ e.created_at
  pub document : (m : Metadata) × (e.metadata ≡ encode_metadata o m)

whole : (n : ℕ) → n / 1000 * 1000 / 1000 * 1000 ≡ n / 1000 * 1000
whole n = omega arith

-- `prepare` makes such entries, of ids in lower case.
prepare-IsNormal :
    (o : Outside) (read_back : StoredEntry → StoredEntry)
    → ReadsBack o read_back
    → (f : Fresh) (e : Entry) (seq : ℕ) → o.to_lower f.id ≡ f.id
    → IsNormal o (prepare o f e seq)
unfolding prepare
prepare-IsNormal o read_back back f e seq lower = record {
  id = lower;
  actor = back.lower_twice e.actor_id;
  ip = back.normalize_twice e.ip_address;
  time = whole (or_else e.at f.now);
  document = (e.metadata, refl);
}

IsNormal-canonical :
    (o : Outside) (read_back : StoredEntry → StoredEntry)
    → ReadsBack o read_back
    → (ws : Bytes) (r : Row) → r.entry.workspace_id ≡ ws
    → IsNormal o r.entry
    → canonical o (scan o read_back ws r) ≡ canonical o r.entry
unfolding canonical
IsNormal-canonical o read_back back ws r d n =
    let (m, encoded) = n.document in
    rw (
      back.lowers_id r.entry,
      n.id,
      back.lowers_actor r.entry,
      n.actor,
      back.keeps_action r.entry,
      back.keeps_type r.entry,
      back.keeps_resource r.entry,
      back.keeps_value m r.entry encoded,
      back.normalizes_ip r.entry,
      n.ip,
      back.truncates r.entry,
      n.time,
      d,
    )

module _ (o : Outside) (read_back : StoredEntry → StoredEntry) (ws : Bytes) where
  -- The rows take the head from number `s` and hash `p` to number `t` and hash `q`.
  abbrev pub Written : ℕ → Bytes → List Row → ℕ → Bytes → Type 0
  Written s p [] t q = (s ≡ t) × (p ≡ q)
  Written s p (r ∷ rs) t q =
      (r.entry.chain_seq ≡ s + 1)
      × (r.prev_hash ≡ p)
      × (r.hash ≡ chain_hash o p r.entry)
      × (r.entry.workspace_id ≡ ws)
      × IsNormal o r.entry
      × Written (s + 1) r.hash rs t q

  Written-append :
      (s : ℕ) (p : Bytes) (rs : List Row) (t : ℕ) (q : Bytes) (rs' : List Row) (u : ℕ) (w : Bytes)
      → Written s p rs t q
      → Written t q rs' u w
      → Written s p (rs ++ rs') u w
  Written-append s p [] t q rs' u w (a, b) k = rw (a, b) k
  Written-append s p (r ∷ rs) t q rs' u w (a, b, c, d, n, e) k =
      (a, b, c, d, n, Written-append (s + 1) r.hash rs t q rs' u w e k)

  -- An entry that `writeBatch` files under this workspace, with an id in lower case, as new UUIDs are.
  abbrev pub Belongs : Fresh × Entry → Type 0
  Belongs fe = (o.to_lower fe.1.workspace_id ≡ ws) × (o.to_lower fe.0.id ≡ fe.0.id)

  chain_entries-Written :
      ReadsBack o read_back
      → (s : ℕ) (p : Bytes) (es : List (Fresh × Entry)) → All Belongs es
      → let r = chain_entries o s p es in Written s p r.0 r.1 r.2
  unfolding chain_entries
  chain_entries-Written back s p [] b = (refl, refl)
  chain_entries-Written back s p ((f, e) ∷ es) ((here, lower), b) = (
    refl,
    refl,
    refl,
    here,
    prepare-IsNormal o read_back back f e (s + 1) lower,
    chain_entries-Written back (s + 1) _ es b,
  )

  reread-HashesRight :
      ReadsBack o read_back
      → (p : Bytes) (r : Row) → r.prev_hash ≡ p
      → r.hash ≡ chain_hash o p r.entry
      → r.entry.workspace_id ≡ ws
      → IsNormal o r.entry
      → chain_hash o r.prev_hash (scan o read_back ws r) ≡ r.hash
  unfolding chain_hash
  reread-HashesRight back p r b c d n =
      ap (λ bytes. o.sha256 (r.prev_hash ++ bytes)) (IsNormal-canonical o read_back back ws r d n)
      ∙ ap (λ prev. o.sha256 (prev ++ canonical o r.entry)) b
      ∙ sym c

  Written-Linked :
      ReadsBack o read_back
      → (n s : ℕ) (p : Bytes) (rs : List Row) (t : ℕ) (q : Bytes) → Written s p rs t q
      → Linked o read_back ws (s + 1) p (take n rs)
  Written-Linked back zero s p rs t q w = tt
  Written-Linked back (suc n) s p [] t q w = tt
  Written-Linked back (suc n) s p (r ∷ rs) t q (a, b, c, d, n', w) = (
    omega arith,
    b,
    reread-HashesRight back p r b c d n',
    rw a (Written-Linked back n (s + 1) r.hash rs t q w),
  )

  Linked-Chain :
      (s : ℕ) (p : Bytes) (rs : List Row) → Linked o read_back ws s p rs → Chain o read_back ws s rs
  Linked-Chain s p [] l = tt
  Linked-Chain s p (r ∷ rs) (a, b, c, l) = (a, refl, c, l)

  all_above :
      (a s : ℕ) (p : Bytes) (rs : List Row) (t : ℕ) (q : Bytes)
      → a ≤ s
      → Written s p rs t q
      → rows_above a rs ≡ rs
  unfolding rows_above
  all_above a s p [] t q le w = refl
  all_above a s p (r ∷ rs) t q le (b, c, d, e, m, w) =
      ground (arith, all_above a (s + 1) r.hash rs t q (omega arith) w)

  -- The rows above any number that the head has passed are a chain.
  pub above-Chain :
      ReadsBack o read_back
      → (n a s : ℕ) (p : Bytes) (rs : List Row) (t : ℕ) (q : Bytes) → s ≤ a
      → Written s p rs t q
      → Chain o read_back ws (a + 1) (take n (rows_above a rs))
  unfolding rows_above
  above-Chain back zero a s p rs t q le w = tt
  above-Chain back (suc n) a s p [] t q le w = tt
  above-Chain back (suc n) a s p (r ∷ rs) t q le (b, c, d, e, m, w) =
      elim (Bool-cases (ltb a r.entry.chain_seq)) [
        | inl above ↦
            let same : a ≡ s = ground arith in
            rw (above, all_above a (s + 1) r.hash rs t q (omega arith) w)
              (subst (λ b. Chain o read_back ws (b + 1) (take (suc n) (r ∷ rs))) (sym same)
                (Linked-Chain (s + 1) p (take (suc n) (r ∷ rs))
                  (Written-Linked back (suc n) s p (r ∷ rs) t q (b, c, d, e, m, w))))
        | inr below ↦ rw below (above-Chain back (suc n) a (s + 1) r.hash rs t q (ground arith) w)
      ]

module _ (o : Outside) (read_back : StoredEntry → StoredEntry) where
  -- The rows of the log lead to its head, and the anchor is not past it.
  pub record IsWellFormed (log : Log) : Type 0 where
    pub written : Written o read_back log.workspace_id 0 [] log.rows log.head_seq log.head_hash
    pub anchored : log.anchored_seq ≤ log.head_seq

  new_log-IsWellFormed : (ws : Bytes) → IsWellFormed (new_log ws)
  new_log-IsWellFormed ws = record { written = (refl, refl); anchored = omega arith }

  head-grows :
      (ws : Bytes) (s : ℕ) (p : Bytes) (rs : List Row) (t : ℕ) (q : Bytes)
      → Written o read_back ws s p rs t q
      → s ≤ t
  head-grows ws s p [] t q w = omega (arith, w.0)
  head-grows ws s p (r ∷ rs) t q (b, c, d, e, m, w) =
      omega (arith, head-grows ws (s + 1) r.hash rs t q w)

  write_chained-IsWellFormed :
      ReadsBack o read_back
      → (commit : Bool) (log : Log) (es : List (Fresh × Entry))
      → All (Belongs o read_back log.workspace_id) es
      → IsWellFormed log
      → IsWellFormed (write_chained o commit log es)
  unfolding write_chained
  write_chained-IsWellFormed back false log es b v = v
  write_chained-IsWellFormed back true log es b v =
      let ws = log.workspace_id in
      let w = chain_entries-Written o read_back ws back log.head_seq log.head_hash es b in
      record {
        written = Written-append o read_back ws 0 [] log.rows _ _ _ _ _ v.written w;
        anchored = omega (arith, v.anchored, head-grows ws _ _ _ _ _ w);
      }

  advance-IsWellFormed :
      (shipped : Bool) (log : Log)
      → IsWellFormed log
      → IsWellFormed (advance o read_back shipped log)
  advance-IsWellFormed false log v = v
  advance-IsWellFormed true log v = elim (Bool-cases (anchors o read_back log)) [
    | inl yes' ↦ rw yes' (record { written = v.written; anchored = omega arith })
    | inr no' ↦ rw no' v
  ]

  -- What happens to the log of one workspace: a batch is written, or its transaction fails, and the
  -- heads are shipped, or the sink is absent or fails.
  pub data Step : Log → Log → Type 0 where
    writes :
        (commit : Bool) (log : Log) (es : List (Fresh × Entry))
        → All (Belongs o read_back log.workspace_id) es
        → Step log (write_chained o commit log es)
    anchoring : (shipped : Bool) (log : Log) → Step log (advance o read_back shipped log)

  pub data History (start : Log) : Log → Type 0 where
    here : History start start
    next : {l m : Log} → History start l → Step l m → History start m

  Step-IsWellFormed :
      ReadsBack o read_back → {l m : Log} → Step l m → IsWellFormed l → IsWellFormed m
  Step-IsWellFormed back (writes commit log es b) v =
      write_chained-IsWellFormed back commit log es b v
  Step-IsWellFormed back (anchoring shipped log) v = advance-IsWellFormed shipped log v

  -- Every log that comes about by writing and anchoring, from an empty one, is well formed: its
  -- numbers have no gap, each row names the hash of the one before it, and the head is the last row.
  pub History-IsWellFormed :
      ReadsBack o read_back → (ws : Bytes) (log : Log) → History (new_log ws) log → IsWellFormed log
  History-IsWellFormed back ws log here = new_log-IsWellFormed ws
  History-IsWellFormed back ws log (next {l} h st) =
      Step-IsWellFormed back st (History-IsWellFormed back ws l h)

  pub is_ok_iff :
      (log : Log)
      → Chain o read_back log.workspace_id
          (log.anchored_seq + 1)
          (take verify_batch (rows_above log.anchored_seq log.rows))
      → (verify o read_back log).is_ok ≡ true
  unfolding verify walk
  is_ok_iff log c = rw ((walk_rows-iff-Chain o read_back log.workspace_id _ _).1 c)

  -- `Verify` finds nothing wrong with a log that the program wrote, at whatever point of its history it is
  -- asked, if the columns do no more to what is stored than lower uuids, normalise addresses, cut times
  -- to microseconds and spell JSON in another way, and new ids are in lower case.
  pub History-is_ok :
      (ws : Bytes) (log : Log)
      → ReadsBack o read_back
      → History (new_log ws) log
      → (verify o read_back log).is_ok ≡ true
  History-is_ok ws log back h =
      let v = History-IsWellFormed back ws log h in
      is_ok_iff log (
        above-Chain o read_back log.workspace_id back verify_batch _ 0 [] log.rows _ _ (omega arith)
          v.written)
