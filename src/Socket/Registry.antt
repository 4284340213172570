-- ===== src/Socket/Registry.antt =====
-- hub.go: the registry of live connections by user and connection, the recipients of a broadcast,
-- and the revocation of subscriptions.
use super_ops.Base.{
  ℕ, ◌+◌, ◌-◌, ◌≡◌, ◌≢◌, refl, ap, Bool, true, false, ◌&&◌, ◌||◌, not, List, [], ◌∷◌, ◌==◌, ==_refl,
  if◌then◌else◌, arith, length, Bool-cases, inl, inr, eq_or_ne,
}

-- A connection: which object it is, whose it is, and the channels and workspaces it holds. Ids are
-- numbers, the empty user id of the source being 0.
pub record Client : Type 0 where
  pub address : ℕ
  pub user_id : ℕ
  pub conn_id : ℕ
  pub workspaces : List ℕ
  pub subscriptions : List ℕ

pub record Hub : Type 0 where
  pub clients : List Client
  pub total : ℕ

abbrev pub new_hub : Hub
new_hub = record { clients = []; total = 0 }

abbrev pub has_key : Client → Client → Bool
has_key c d = d.user_id == c.user_id && d.conn_id == c.conn_id

-- `conns[client.connID] = client`.
unfoldable pub put : Client → List Client → List Client
put c [] = c ∷ []
put c (d ∷ ds) = let rest = put c ds in if has_key c d then c ∷ ds else d ∷ rest

abbrev pub is_live : Client → List Client → Bool
is_live c [] = false
is_live c (d ∷ ds) = has_key c d || is_live c ds

-- Whether this very connection is the one that stands under its key.
unfoldable pub is_registered : Client → List Client → Bool
is_registered c [] = false
is_registered c (d ∷ ds) =
    let rest = is_registered c ds in if has_key c d then d.address == c.address else rest

unfoldable pub remove : Client → List Client → List Client
remove c [] = []
remove c (d ∷ ds) = let rest = remove c ds in if has_key c d then ds else d ∷ rest

-- The two cases of `Run`.
unfoldable pub register : Client → Hub → Hub
unfolding put
register c h = record { clients = put c h.clients; total = h.total + 1 }

unfoldable pub unregister : Client → Hub → Hub
unfolding is_registered remove
unregister c h =
    if is_registered c h.clients
    then record { clients = remove c h.clients; total = h.total - 1 }
    else h

-- `Shutdown`, on the registry.
abbrev pub shutdown : Hub → Hub
shutdown h = new_hub

abbrev pub is_in : ℕ → List ℕ → Bool
is_in i [] = false
is_in i (j ∷ js) = i == j || is_in i js

abbrev pub delete : ℕ → List ℕ → List ℕ
delete i [] = []
delete i (j ∷ js) = let rest = delete i js in if i == j then rest else j ∷ rest

-- `channelTargets` and `workspaceTargets`: the connections of everyone but the excluded user.
unfoldable pub channel_targets : ℕ → ℕ → List Client → List Client
channel_targets channel excluded [] = []
channel_targets channel excluded (c ∷ cs) =
    let rest = channel_targets channel excluded cs in
    if not (c.user_id == excluded) && is_in channel c.subscriptions then c ∷ rest else rest

unfoldable pub workspace_targets : ℕ → ℕ → List Client → List Client
workspace_targets workspace excluded [] = []
workspace_targets workspace excluded (c ∷ cs) =
    let rest = workspace_targets workspace excluded cs in
    if not (c.user_id == excluded) && is_in workspace c.workspaces then c ∷ rest else rest

unfoldable pub user_targets : ℕ → List Client → List Client
user_targets user [] = []
user_targets user (c ∷ cs) =
    let rest = user_targets user cs in if c.user_id == user then c ∷ rest else rest

-- `ConnectionCount` and `IsOnline`.
abbrev pub connection_count : Hub → ℕ
connection_count h = h.total

unfoldable pub is_online : ℕ → Hub → Bool
unfolding user_targets
is_online user h = not (length (user_targets user h.clients) == 0)

-- The loops of `revokeLocal`: the user 0 is everyone.
unfoldable pub revoke_each : ℕ → ℕ → List Client → List Client
revoke_each user channel [] = []
revoke_each user channel (c ∷ cs) =
    let rest = revoke_each user channel cs in
    if user == 0 || c.user_id == user
    then record c { subscriptions = delete channel c.subscriptions } ∷ rest
    else c ∷ rest

-- `revokeLocal`: there is no channel 0.
unfoldable pub revoke_local : ℕ → ℕ → List Client → List Client
unfolding revoke_each
revoke_local user channel cs = if channel == 0 then cs else revoke_each user channel cs

abbrev pub delete_all : List ℕ → List ℕ → List ℕ
delete_all [] subscriptions = subscriptions
delete_all (channel ∷ channels) subscriptions = delete_all channels (delete channel subscriptions)

-- `revokeWorkspaceLocal`, but for the rooms.
unfoldable pub revoke_workspace_local : ℕ → ℕ → List ℕ → List Client → List Client
revoke_workspace_local user workspace channels [] = []
revoke_workspace_local user workspace channels (c ∷ cs) =
    let rest = revoke_workspace_local user workspace channels cs in
    if not (user == 0) && (not (workspace == 0) && c.user_id == user)
    then record c {
      workspaces = delete workspace c.workspaces;
      subscriptions = delete_all channels c.subscriptions;
    }
      ∷ rest
    else c ∷ rest

-- The registry after any connects, disconnects and a shutdown; a connection's id is new when it
-- connects, and a disconnect may come late or twice.
pub data Served : Hub → Type 0 where
  starts : Served new_hub
  connects :
      {h : Hub} → Served h → (c : Client) → is_live c h.clients ≡ false → Served (register c h)
  disconnects : {h : Hub} → Served h → (c : Client) → Served (unregister c h)
  shuts_down : {h : Hub} → Served h → Served (shutdown h)

length-put :
    (c : Client) (cs : List Client) → is_live c cs ≡ false → length (put c cs) ≡ length cs + 1
unfolding put
length-put c [] h = omega arith
length-put c (d ∷ cs) h = ground (arith, length-put c cs)

length-remove :
    (c : Client) (cs : List Client)
    → is_registered c cs ≡ true
    → length (remove c cs) + 1 ≡ length cs
unfolding remove is_registered
length-remove c [] h = absurd (cc h)
length-remove c (d ∷ cs) h = ground (arith, length-remove c cs)

-- The connection count is the number of live connections, through any connects under new ids, any
-- disconnects, early, late or repeated, and a shutdown.
pub Served-count : {h : Hub} → Served h → connection_count h ≡ length h.clients
unfolding register unregister
Served-count starts = refl
Served-count (connects {h} s c fresh) = omega (arith, length-put c h.clients fresh, Served-count s)
Served-count (disconnects {h} s c) = elim (Bool-cases (is_registered c h.clients)) [
  | inl e ↦ rw e (omega (arith, length-remove c h.clients e, Served-count s))
  | inr e ↦ rw e (Served-count s)
]
Served-count (shuts_down {h} s) = refl

is_in-delete : (i : ℕ) (js : List ℕ) → is_in i (delete i js) ≡ false
is_in-delete i [] = refl
is_in-delete i (j ∷ js) = ground (arith, is_in-delete i js)

-- The connections that are not the user's.
abbrev pub without : ℕ → List Client → List Client
without user [] = []
without user (c ∷ cs) = let rest = without user cs in if c.user_id == user then rest else c ∷ rest

targets-revoked :
    (user channel excluded : ℕ) (c : Client) (rest rest' : List Client)
    → rest' ≡ without user rest
    → c.user_id ≡ user
    → (if not (c.user_id == excluded) && is_in channel (delete channel c.subscriptions)
        then record c { subscriptions = delete channel c.subscriptions } ∷ rest'
        else rest')
      ≡ without user
          (if not (c.user_id == excluded) && is_in channel c.subscriptions then c ∷ rest else rest)
targets-revoked user channel excluded c rest rest' r e =
    rw (is_in-delete channel c.subscriptions)
      (go (c.user_id == excluded) (is_in channel c.subscriptions))
  where
    go :
        (a b : Bool)
        → (if not a && false
            then record c { subscriptions = delete channel c.subscriptions } ∷ rest'
            else rest')
          ≡ without user (if not a && b then c ∷ rest else rest)
    go true b = r
    go false false = r
    go false true = rw (e, ==_refl user) r

targets-kept :
    (user : ℕ) (c : Client) (b : Bool) (rest rest' : List Client)
    → rest' ≡ without user rest
    → (c.user_id == user) ≡ false
    → (if b then c ∷ rest' else rest') ≡ without user (if b then c ∷ rest else rest)
targets-kept user c true rest rest' r e = rw e (ap (λ cs. c ∷ cs) r)
targets-kept user c false rest rest' r e = r

channel_targets-revoke_each :
    (user channel excluded : ℕ) (cs : List Client)
    → user ≢ 0
    → channel_targets channel excluded (revoke_each user channel cs)
      ≡ without user (channel_targets channel excluded cs)
unfolding channel_targets revoke_each
channel_targets-revoke_each user channel excluded [] n = refl
channel_targets-revoke_each user channel excluded (c ∷ cs) n =
    let rest = channel_targets-revoke_each user channel excluded cs n in
    elim (eq_or_ne c.user_id user) [
      | inl e ↦
          let hit : (user == 0 || c.user_id == user) ≡ true = ground arith in
          rw hit
            (targets-revoked user channel excluded c (channel_targets channel excluded cs) _ rest e)
      | inr m ↦
          let miss : (user == 0 || c.user_id == user) ≡ false = ground arith in
          let other : (c.user_id == user) ≡ false = ground arith in
          rw miss (
            targets-kept user c (not (c.user_id == excluded) && is_in channel c.subscriptions)
              (channel_targets channel excluded cs) _ rest other)
    ]

channel_targets-revoke_each_all :
    (channel excluded : ℕ) (cs : List Client)
    → channel_targets channel excluded (revoke_each 0 channel cs) ≡ []
unfolding channel_targets revoke_each
channel_targets-revoke_each_all channel excluded [] = refl
channel_targets-revoke_each_all channel excluded (c ∷ cs) = ground (
  arith,
  is_in-delete channel c.subscriptions,
  channel_targets-revoke_each_all channel excluded cs,
)

-- After the revocation of a channel for one user, neither id being the empty one, a broadcast to
-- the channel goes to the same connections as before, but for that user's, of which it reaches none.
pub channel_targets-revoke_local :
    (user channel excluded : ℕ) (cs : List Client)
    → user ≢ 0
    → channel ≢ 0
    → channel_targets channel excluded (revoke_local user channel cs)
      ≡ without user (channel_targets channel excluded cs)
unfolding revoke_local
channel_targets-revoke_local user channel excluded cs n m =
    let there : (channel == 0) ≡ false = ground arith in
    rw there (channel_targets-revoke_each user channel excluded cs n)

-- After the revocation of a channel, its id not being the empty one, for everyone, a broadcast to
-- it reaches nobody.
pub channel_targets-revoke_all :
    (channel excluded : ℕ) (cs : List Client)
    → channel ≢ 0
    → channel_targets channel excluded (revoke_local 0 channel cs) ≡ []
unfolding revoke_local
channel_targets-revoke_all channel excluded cs m =
    let there : (channel == 0) ≡ false = ground arith in
    rw there (channel_targets-revoke_each_all channel excluded cs)
