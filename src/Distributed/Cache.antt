-- ===== src/Distributed/Cache.antt =====
-- How GUIDs of another node are reserved: `node_data_container` and `reserve_guid` of
-- include/distributed/object_cache.h, the handler of `CMD_allocate_guid` in
-- src/distributed/command_processing.cpp, and the nodes together as steps, between which the nodes
-- and the messages interleave. `reserve_guid` is cut where it waits for the reply.
use ocr_vx.Prelude.{
  ℕ, ◌+◌, ◌%◌, ◌^◌, Bool, true, false, not, Option, none, some, List, [], ◌∷◌, ◌++◌, ◌==◌, ltb,
  if◌then◌else◌,
}
pub mod Ledger
pub mod Words
pub mod Invariant
pub mod Steps
pub mod Unique
pub mod Served
pub mod Returns
pub mod Cases
pub mod Objects
pub mod Prefetch
mod Tests
use ocr_vx.Distributed.Guid.{get_object_id, make_guid}
use ocr_vx.Prelude.Options.{◌>>=◌, ◌>>◌, require}
use ocr_vx.Distributed.Repository.{
  Repository, new_repository, add_object, preallocate_object, preallocate_objects,
}

abbrev pub preallocate_count : ℕ
preallocate_count = 128

-- `<` of GUIDs is that of their signed words.
unfoldable pub guid_lt : ℕ → ℕ → Bool
guid_lt l r = ltb ((l + 2 ^ 63) % 2 ^ 64) ((r + 2 ^ 63) % 2 ^ 64)

-- What a node knows about the free GUIDs of another (the fields that `reserve_guid` uses). The mutex is
-- held from a request to its reply.
pub record NodeDataContainer : Type 0 where
  pub preallocation_next : ℕ
  pub preallocation_max : ℕ
  pub preallocations_mutex : Bool

abbrev pub new_container : NodeDataContainer
new_container = record {
  preallocation_next = 0;
  preallocation_max = 0;
  preallocations_mutex = false;
}

-- What travels between a node and the owner of the GUIDs.
pub data Message : Type 0 where
  no_message : Message
  allocate_guid : Message
  allocated_guid : ℕ → Message

-- `data_ a` and `messages a` are those of the node `a`, one for each node.
pub record Cluster (A : Type 0) : Type 0 where
  pub repositories : ℕ → Repository A
  pub data_ : ℕ → ℕ → NodeDataContainer
  pub messages : ℕ → ℕ → Message

abbrev pub update {ℓ} : {A : Type ℓ} → ℕ → A → (ℕ → A) → ℕ → A
update i a f j = if i == j then a else f j

abbrev pub update₂ {ℓ} : {A : Type ℓ} → ℕ → ℕ → A → (ℕ → ℕ → A) → ℕ → ℕ → A
update₂ i j a f = update i (update j a (f i)) f

-- The end of `reserve_guid`: the next GUID, and the mutex is given back.
unfoldable pub take_next : ℕ → NodeDataContainer → Option (ℕ × NodeDataContainer)
take_next node ndc = do
  oid ← get_object_id 32 ndc.preallocation_next
  next ← make_guid 32 node (oid + 1)
  some (
    ndc.preallocation_next,
    record {
      preallocation_next = next;
      preallocation_max = ndc.preallocation_max;
      preallocations_mutex = false;
    },
  )

-- The reply: a block of GUIDs.
unfoldable pub refill : ℕ → ℕ → NodeDataContainer → Option NodeDataContainer
refill node next ndc = do
  oid ← get_object_id 32 next
  limit ← make_guid 32 node (oid + preallocate_count)
  some (record ndc { preallocation_next = next; preallocation_max = limit })

-- The GUIDs that a step hands out, none or one, and the nodes after it.
abbrev pub ClusterOutcome : Type 0 → Type 0
ClusterOutcome A = Option (List ℕ × Cluster A)

pub data ClusterEvent (A : Type 0) : Type 0 where
  add : ℕ → Option A → ClusterEvent A
  reserve serve receive : ℕ → ℕ → ClusterEvent A

module _ {A : Type 0} where
  abbrev pub new_cluster : Cluster A
  new_cluster = record {
    repositories = λ n. new_repository;
    data_ = λ a n. new_container;
    messages = λ a n. no_message;
  }

  unfoldable pub at_node : ℕ → Cluster A → ℕ × Repository A → List ℕ × Cluster A
  at_node n s p = (p.0 ∷ [], record s { repositories = update n p.1 s.repositories })

  unfoldable pub with_container : ℕ → ℕ → Cluster A → ℕ × NodeDataContainer → List ℕ × Cluster A
  with_container a n s p = (p.0 ∷ [], record s { data_ = update₂ a n p.1 s.data_ })

  unfoldable pub local_add : ℕ → Option A → Cluster A → ClusterOutcome A
  local_add n ptr s = do p ← add_object n ptr (s.repositories n); some (at_node n s p)

  unfoldable pub local_reserve : ℕ → Cluster A → ClusterOutcome A
  local_reserve n s = do p ← preallocate_object n (s.repositories n); some (at_node n s p)

  unfoldable pub take_or_ask : ℕ → ℕ → NodeDataContainer → Cluster A → ClusterOutcome A
  take_or_ask a n ndc s =
      if guid_lt ndc.preallocation_next ndc.preallocation_max
      then (do p ← take_next n ndc; some (with_container a n s p))
      else some (
        [],
        record s {
          data_ = update₂ a n (record ndc { preallocations_mutex = true }) s.data_;
          messages = update₂ a n allocate_guid s.messages;
        },
      )

  -- The node `a` reserves a GUID of the node `n`; it spins while another thread has the mutex.
  unfoldable pub reserve_guid : ℕ → ℕ → Cluster A → ClusterOutcome A
  reserve_guid a n s =
      if n == a
      then local_reserve a s
      else if (s.data_ a n).preallocations_mutex
      then some ([], s)
      else take_or_ask a n (s.data_ a n) s

  -- The owner `n` serves the request of `a`.
  unfoldable pub serve_request : ℕ → ℕ → Cluster A → Message → ClusterOutcome A
  serve_request a n s allocate_guid = do
    p ← preallocate_objects n preallocate_count (s.repositories n)
    some (
      [],
      record s {
        repositories = update n p.1 s.repositories;
        messages = update₂ a n (allocated_guid p.0) s.messages;
      },
    )
  serve_request a n s m = some ([], s)

  -- The rest of `reserve_guid` when the reply is there.
  unfoldable pub receive_reply : ℕ → ℕ → Cluster A → Message → ClusterOutcome A
  receive_reply a n s (allocated_guid next) = do
    ndc ← refill n next (s.data_ a n)
    p ← take_next n ndc
    some (with_container a n (record s { messages = update₂ a n no_message s.messages }) p)
  receive_reply a n s m = some ([], s)

  unfoldable pub cluster_step : ClusterEvent A → Cluster A → ClusterOutcome A
  cluster_step (add n ptr) s = local_add n ptr s
  cluster_step (reserve a n) s = reserve_guid a n s
  cluster_step (serve a n) s = serve_request a n s (s.messages a n)
  cluster_step (receive a n) s = receive_reply a n s (s.messages a n)

  -- The steps one after the other; the GUIDs that they hand out, the last one first.
  unfoldable pub run : List (ClusterEvent A) → List ℕ → Cluster A → ClusterOutcome A
  run [] gs s = some (gs, s)
  run (e ∷ es) gs s = do p ← cluster_step e s; run es (p.0 ++ gs) p.1
