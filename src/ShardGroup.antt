-- ===== src/ShardGroup.antt =====
-- gateway/shard_group.go: groups of shards, and the place where the manager keeps them. Groups are
-- shared by pointer: a group is an address in `groups`, and a new one goes to its end.
pub mod Spawning
pub mod Rotation
pub mod Succession
pub mod Overlap
pub mod Stopping
pub mod Reordering
pub mod Steps
pub mod Atomicity
pub mod Exclusion
use sandwich_producer.Base.{
  ℕ, ℤ, pos, ◌+ℤ◌, wrap64, eqb_ℤ, Bool, false, if◌then◌else◌, List, [], ◌∷◌, ◌++◌, map, Option,
  none, some, String, Outcome, ret, panic, nil_dereference, ◌>>=◌, GoError, length, get_elem?, set,
  get, put, delete, int_key,
}
use sandwich_producer.Events.Packets.{ReceivedPayload}
use sandwich_producer.Identify.{go_rem}
use sandwich_producer.Shard.{Shard, close, wait_for_ready}

pub record ShardGroup : Type 0 where
  pub scaling : Bool
  pub shard_count : ℤ
  pub shard_ids : List ℤ
  pub shards : List (ℤ × Shard)
  pub err : Option GoError

-- The part of the manager that keeps the groups. `shard_groups` is its map from a small number to a
-- group.
pub record Registry : Type 0 where
  pub groups : List ShardGroup
  pub shard_groups : List (ℤ × ℕ)
  pub shard_groups_counter : ℤ
  pub max_shard_groups : ℤ

-- NewShardGroup
unfoldable pub new_shard_group : List ℤ → ℤ → ShardGroup
new_shard_group shard_ids shard_count = record {
  scaling = false;
  shard_count = shard_count;
  shard_ids = shard_ids;
  shards = [];
  err = none;
}

-- A goroutine of `Start`: the shard that it spawns, and the two readings of the clock on the way.
pub record Birth : Type 0 where
  pub shard_id : ℤ
  pub ack : ℤ
  pub sent : ℤ

-- The two readings of the clock of each goroutine, given the id of its shard.
abbrev pub Clocks : Type 0
Clocks = ℤ → ℤ × ℤ

-- `for _, shardID := range sg.ShardIDs`: a goroutine for each id.
unfoldable pub born : Clocks → List ℤ → List Birth
born clocks [] = []
born clocks (id ∷ ids) =
    record { shard_id = id; ack = (clocks id).0; sent = (clocks id).1 } ∷ born clocks ids

-- `events.ReceivedPayload{}`
abbrev pub empty_payload : ReceivedPayload
empty_payload = record { op = pos 0; raw = []; sequence = 0; event_type = "" }

unfoldable pub new_shard : String → ShardGroup → Birth → Shard
new_shard token g b = record {
  token = token;
  shard_id = b.shard_id;
  shard_count = g.shard_count;
  last_heartbeat_ack = b.ack;
  last_heartbeat_sent = b.sent;
  ws_conn = none;
  msg = empty_payload;
  buf = [];
  seq = pos 0;
  session_id = "";
}

-- Spawn, and what its goroutine in `Start` does with its error. `s.Open()` runs in a goroutine of
-- its own.
unfoldable pub spawn : String → Birth → ShardGroup → ShardGroup
unfolding new_shard wait_for_ready
spawn token b g =
    let s = new_shard token g b in
    let g' : ShardGroup = record g { shards = put b.shard_id s g.shards } in
    elim (wait_for_ready s) [ none ↦ g' | some e ↦ record g' { err = some e } ]

-- The goroutines of `Start`, in the order in which they get the lock.
unfoldable pub spawn_all : String → List Birth → ShardGroup → ShardGroup
spawn_all token [] g = g
spawn_all token (b ∷ births) g = spawn_all token births (spawn token b g)

-- Stop: what each close of a connection returns depends on the shard.
unfoldable pub close_shard : (ℤ → Option GoError) → ℤ × Shard → ℤ × Shard
close_shard replies (id, s) =
    (id, (close (pos 4000) (replies id) (record { shard = s; log = [] })).1.shard)

unfoldable pub stop : (ℤ → Option GoError) → ShardGroup → ShardGroup
stop replies g = record g { shards = map (close_shard replies) g.shards }

-- `m.ShardGroups[counter].Stop()`: on a missing key the pointer is nil.
unfoldable pub stop_key : (ℤ → Option GoError) → ℤ → Registry → Outcome Registry
stop_key replies key r = elim (get key r.shard_groups) [
  | none ↦ panic nil_dereference
  | some a ↦ elim (get_elem? r.groups a) [
    | none ↦ panic nil_dereference
    | some g ↦ ret (record r { groups = set r.groups a (stop replies g) })
  ]
]

-- `if counter != 0 { m.ShardGroups[counter].Stop(); delete(m.ShardGroups, counter) }`
unfoldable pub retire : (ℤ → Option GoError) → ℤ → Registry → Outcome Registry
retire replies counter r =
    if eqb_ℤ counter (pos 0)
    then ret r
    else stop_key replies counter r >>= λ r'.
        ret (record r' { shard_groups = delete counter r'.shard_groups })

-- `counter++`, and the group at an address put in its place.
unfoldable pub register : ℕ → Registry → Outcome Registry
register a r =
    let n = wrap64 (r.shard_groups_counter +ℤ pos 1) in
    go_rem n r.max_shard_groups >>= λ key.
    ret (record r { shard_groups_counter = n; shard_groups = put key a r.shard_groups })

-- The locked part of Start, for the group at an address.
unfoldable pub rotate : (ℤ → Option GoError) → ℕ → Registry → Outcome Registry
rotate replies a r = go_rem r.shard_groups_counter r.max_shard_groups >>= λ counter.
    retire replies counter r >>= λ r'. register a r'

-- The end of Start, for a group with its shards and with its error.
unfoldable pub conclude :
    (ℤ → Option GoError)
    → ℕ
    → ShardGroup
    → Registry
    → Option GoError
    → Outcome (Option GoError × Registry)
conclude replies a g r (some e) =
    ret (some e, record r { groups = set r.groups a (stop replies g) })
conclude replies a g r none = rotate replies a r >>= λ r'. ret (none, r')

-- Start, for the group at an address: its error and the registry after it. The goroutines run in the order
-- of the ids; Atomicity has the other orders.
unfoldable pub start :
    String → Clocks → (ℤ → Option GoError) → ℕ → Registry → Outcome (Option GoError × Registry)
start token clocks replies a r = elim (get_elem? r.groups a) [
  | none ↦ panic nil_dereference
  | some g ↦
      let g' = spawn_all token (born clocks g.shard_ids) (record g { err = none }) in
      conclude replies a g' (record r { groups = set r.groups a g' }) g'.err
]

-- Scale: a new group, started.
unfoldable pub scale :
    String
    → Clocks
    → (ℤ → Option GoError)
    → List ℤ
    → ℤ
    → Registry
    → Outcome (Option GoError × Registry)
scale token clocks replies shard_ids shard_count r =
    start token clocks replies (length r.groups)
      (record r { groups = r.groups ++ new_shard_group shard_ids shard_count ∷ [] })
